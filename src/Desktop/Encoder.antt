-- ===== src/Desktop/Encoder.antt =====
-- The conversion of the H.264 encoder's output (src-tauri/src/desktop_share/mf_encoder.rs). A place
-- in the data is the list of what follows it. The loops run on fuel, the length of the data: every
-- turn goes at least one byte forward.
pub mod Streams
use vnt_gui_dev.Prelude.{
  ℕ, zero, suc, ◌+◌, ◌*◌, ◌%◌, ◌^◌, Bool, true, false, not, ◌&&◌, ◌||◌, List, [], ◌∷◌, ◌++◌, ltb,
  ◌==◌, if◌then◌else◌, length, take, drop, min,
}
use vnt_gui_dev.Transfer.Protocol.{Bytes}

-- The arguments that the conversion changes.
pub record Annexb : Type 0 where
  pub sps_pps : Bytes
  pub out : Bytes
  pub saw_idr : Bool

abbrev pub starts_with : Bytes → Bytes → Bool
starts_with [] bytes = true
starts_with (p ∷ ps) [] = false
starts_with (p ∷ ps) (d ∷ ds) = (p == d) && starts_with ps ds

abbrev pub start_code : Bytes
start_code = 0 ∷ 0 ∷ 0 ∷ 1 ∷ []

abbrev pub short_code : Bytes
short_code = 0 ∷ 0 ∷ 1 ∷ []

-- `windows(needle.len()).any(|w| w == needle)`, for a needle that is not empty.
abbrev pub contains : Bytes → Bytes → Bool
contains needle [] = false
contains needle (b ∷ bs) = starts_with needle (b ∷ bs) || contains needle bs

abbrev with_parameters : Bytes → Annexb → Annexb
with_parameters needle a =
    if contains needle a.sps_pps then a else record a { sps_pps = a.sps_pps ++ needle }

unfoldable pub push_nal : Bytes → Annexb → Annexb
push_nal [] a = a
push_nal (header ∷ body) a =
    let nal = header ∷ body in
    let nal_type = header % 32 in
    if (nal_type == 7) || (nal_type == 8)
    then with_parameters (start_code ++ nal) a
    else if nal_type == 5
    then record a { out = ((a.out ++ a.sps_pps) ++ start_code) ++ nal; saw_idr = true }
    else record a { out = (a.out ++ start_code) ++ nal }

-- `u32::from_be_bytes`
abbrev pub from_be : ℕ → ℕ → ℕ → ℕ → ℕ
from_be a b c d = ((a * 256 + b) * 256 + c) * 256 + d

unfoldable pub avcc_loop : ℕ → Bytes → Annexb → Annexb
avcc_loop zero bytes acc = acc
avcc_loop (suc fuel) (a ∷ b ∷ c ∷ d ∷ rest) acc =
    let len = from_be a b c d in
    let next = avcc_loop fuel (drop len rest) (push_nal (take len rest) acc) in
    if ltb (length rest) len then acc else next
avcc_loop (suc fuel) short acc = acc

abbrev pub is_start_code : Bytes → Bool
is_start_code bytes = starts_with start_code bytes || starts_with short_code bytes

-- The data before the next start code, and from it on.
abbrev pub before_code : Bytes → Bytes
before_code [] = []
before_code (b ∷ bs) = let rest = before_code bs in if is_start_code (b ∷ bs) then [] else b ∷ rest

abbrev pub from_code : Bytes → Bytes
from_code [] = []
from_code (b ∷ bs) = let rest = from_code bs in if is_start_code (b ∷ bs) then b ∷ bs else rest

abbrev is_empty : Bytes → Bool
is_empty [] = true
is_empty (b ∷ bs) = false

abbrev pub after_code : Bytes → Bytes
after_code bytes = if starts_with start_code bytes then drop 4 bytes else drop 3 bytes

unfoldable pub annexb_loop : ℕ → Bytes → Annexb → Annexb
annexb_loop zero bytes acc = acc
annexb_loop (suc fuel) [] acc = acc
annexb_loop (suc fuel) (b ∷ bs) acc =
    let bytes = b ∷ bs in
    let skipped = annexb_loop fuel bs acc in
    let nal = before_code (after_code bytes) in
    let next = annexb_loop fuel (from_code (after_code bytes)) (push_nal nal acc) in
    if not (is_start_code bytes) then skipped else if is_empty nal then acc else next

unfoldable pub convert_annexb_to_annexb : Bytes → Annexb → Annexb
unfolding annexb_loop
convert_annexb_to_annexb bytes acc = annexb_loop (length bytes) bytes acc

unfoldable pub convert_avcc_to_annexb : Bytes → Annexb → Annexb
unfolding avcc_loop convert_annexb_to_annexb
convert_avcc_to_annexb avcc acc =
    if starts_with start_code avcc
    then convert_annexb_to_annexb avcc acc
    else avcc_loop (length avcc) avcc acc

-- Both fields are 32 bits, so the `|` of the code is a sum.
unfoldable pub pack_size : ℕ → ℕ → ℕ
pack_size width height = width * 2 ^ 32 + height

unfoldable pub pack_rate : ℕ → ℕ
pack_rate fps = fps * 2 ^ 32 + 1
