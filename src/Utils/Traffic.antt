-- ===== src/Utils/Traffic.antt =====
-- Utils/TrafficCounter.cpp: how many bytes went through in the last seconds. Times are milliseconds, the
-- number of seconds is not negative; what is added up is a number of 64 bits.
pub mod Window
pub mod History
mod Tests
use threader.Prelude.{
  ℕ, zero, suc, ◌+◌, ◌-◌, ◌*◌, ◌/◌, ◌%◌, ◌^◌, Bool, true, false, Option, none, some, List, [], ◌∷◌,
  ◌++◌, ◌==◌, ltb, leb, if◌then◌else◌, drop,
}

-- `TrafficHistory`
pub record TrafficHistory : Type 0 where
  pub received : ℕ
  pub count : ℕ

-- `current_speed` is not set by the constructor.
pub record TrafficCounter : Type 0 where
  pub seconds_to_store : ℕ
  pub total : ℕ
  pub current_speed : Option ℕ
  pub history_list : List TrafficHistory

unfoldable pub new : ℕ → TrafficCounter
new seconds = record {
  seconds_to_store = seconds;
  total = 0;
  current_speed = none;
  history_list = [];
}

unfoldable pub clear : TrafficCounter → TrafficCounter
clear c = record c { total = 0; history_list = [] }

-- The time `now` less the seconds, as a quint64.
unfoldable pub limit_at : ℕ → ℕ → ℕ
limit_at seconds now = (now + 2 ^ 64 - 1000 * seconds) % 2 ^ 64

-- The loop of `actualize`: how many to remove, and the traffic of the others.
unfoldable pub count_loop : ℕ → List TrafficHistory → ℕ × ℕ
count_loop limit [] = (0, 0)
count_loop limit (h ∷ hs) =
    let (removed, traffic) = count_loop limit hs in
    if ltb h.received limit then (removed + 1, traffic) else (removed, (h.count + traffic) % 2 ^ 64)

-- `actualize` at the time `now`; without a result the program divides by zero.
unfoldable pub actualize : ℕ → TrafficCounter → Option (ℕ × TrafficCounter)
actualize now c =
    let (removed, traffic) = count_loop (limit_at c.seconds_to_store now) c.history_list in
    let speed = traffic / c.seconds_to_store in
    if c.seconds_to_store == 0
    then none
    else some
        (speed, record c { current_speed = some speed; history_list = drop removed c.history_list })

-- `append`
unfoldable pub append : ℕ → ℕ → ℕ → TrafficCounter → Option (ℕ × TrafficCounter)
append now time count c = actualize now (record c {
  total = (c.total + count) % 2 ^ 64;
  history_list = c.history_list ++ (record { received = time; count = count } ∷ []);
})

-- `setSecondsToStore`
unfoldable pub set_seconds_to_store : ℕ → TrafficCounter → TrafficCounter
set_seconds_to_store seconds c = record c { seconds_to_store = seconds }
