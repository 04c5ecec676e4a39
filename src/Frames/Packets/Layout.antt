-- ===== src/Frames/Packets/Layout.antt =====
-- The 13 bytes of a header (Frames/DataFramesPackets.h): what is written of it is read again.
use threader.Prelude.{
  ℕ, ◌^◌, ◌<◌, ◌≡◌, refl, ap, ◌∙◌, sym, List, [], ◌++◌, length, take, drop, take-append_self,
  drop-append_self,
}
use threader.Prelude.Bytes.{le_value, le_bytes, length-le_bytes, le_value-le_bytes}
use threader.Frames.Packets.{Header, header_bytes, read_header}

-- The fields fit their types.
pub record IsSized (h : Header) : Type 0 where
  pub tag_lt : h.tag < 2 ^ 16
  pub packet_type_lt : h.packet_type < 2 ^ 8
  pub size_lt : h.size < 2 ^ 32
  pub check_summ_lt : h.check_summ < 2 ^ 16
  pub packet_id_lt : h.packet_id < 2 ^ 32

pub length-header_bytes : (h : Header) → length (header_bytes h) ≡ 13
unfolding header_bytes le_bytes
length-header_bytes h = refl

-- The field of `k` bytes behind `n` bytes.
field_at :
    (n k v : ℕ) (before after : List ℕ)
    → length before ≡ n
    → v < 256 ^ k
    → le_value (take k (drop n (before ++ (le_bytes k v ++ after)))) ≡ v
field_at n k v before after e h =
    ap (λ t. le_value (take k t)) (drop-append_self n before (le_bytes k v ++ after) (sym e))
    ∙ ap le_value (take-append_self k (le_bytes k v) after (sym (length-le_bytes k v)))
    ∙ le_value-le_bytes k v h

-- The fields of a header, each within the width of its type, are read back from its bytes, whatever
-- follows them.
pub read_header-header_bytes :
    (h : Header) (rest : List ℕ) → IsSized h → read_header (header_bytes h ++ rest) ≡ h
unfolding read_header header_bytes le_bytes
read_header-header_bytes h rest z =
    let tag : le_value (take 2 (header_bytes h ++ rest)) ≡ h.tag =
      field_at 0 2 h.tag [] (drop 2 (header_bytes h) ++ rest) refl z.tag_lt in
    let kind : le_value (take 1 (drop 2 (header_bytes h ++ rest))) ≡ h.packet_type =
      field_at 2 1 h.packet_type (take 2 (header_bytes h)) (drop 3 (header_bytes h) ++ rest) refl
        z.packet_type_lt in
    let size : le_value (take 4 (drop 3 (header_bytes h ++ rest))) ≡ h.size =
      field_at 3 4 h.size (take 3 (header_bytes h)) (drop 7 (header_bytes h) ++ rest) refl
        z.size_lt in
    let crc : le_value (take 2 (drop 7 (header_bytes h ++ rest))) ≡ h.check_summ =
      field_at 7 2 h.check_summ (take 7 (header_bytes h)) (drop 9 (header_bytes h) ++ rest) refl
        z.check_summ_lt in
    let id : le_value (take 4 (drop 9 (header_bytes h ++ rest))) ≡ h.packet_id =
      field_at 9 4 h.packet_id (take 9 (header_bytes h)) rest refl z.packet_id_lt in
    λ i. record {
      tag = tag i;
      packet_type = kind i;
      size = size i;
      check_summ = crc i;
      packet_id = id i;
    }
