-- ===== src/Utils/Traffic/Tests.antt =====
-- A run of the theorem on a counter of five seconds, whose first entry leaves the window.
use threader.Prelude.{◌≡◌, none, some, List, [], ◌∷◌, arith}
use threader.Utils.Traffic.{TrafficCounter, new}
use threader.Utils.Traffic.Window.{Sample, append_all, InOrder}
use threader.Utils.Traffic.History.{window, speed_after, append_all-new}

abbrev samples : List Sample
samples =
    record { time = 10000; count = 7; now = 10000 }
    ∷ record { time = 14000; count = 20; now = 14001 }
    ∷ record { time = 16000; count = 5; now = 16000 }
    ∷ []

samples-InOrder : InOrder 9000 samples
samples-InOrder = (
  omega arith,
  omega arith,
  omega arith,
  (omega arith, omega arith, omega arith, (omega arith, omega arith, omega arith, omega arith)),
)

append_all-new_example :
    (d : TrafficCounter) × (append_all samples (new 5) ≡ some d)
    × (d.history_list ≡ window 5 9000 [] samples)
    × (d.current_speed ≡ speed_after 5 none (window 5 9000 [] samples) samples)
    × (d.total ≡ 32)
append_all-new_example = append_all-new 5 9000 samples (omega arith) (omega arith) samples-InOrder
