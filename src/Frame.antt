-- ===== src/Frame.antt =====
-- The frames in which both connections send their messages (src-tauri/src/desktop_share/network.rs and
-- src-tauri/src/file_transfer/network.rs): a byte for the kind, the length as a u32 of four bytes,
-- the lowest first, and the payload; each on a stream of its own.
use vnt_gui_dev.Prelude.{
  ℕ, ◌+◌, ◌*◌, ◌/◌, ◌%◌, ◌^◌, ◌<◌, ◌≡◌, ap, true, Option, none, some, List, [], ◌∷◌, ◌++◌, leb,
  if◌then◌else◌, arith, length, take, take-length,
}

abbrev pub max_frame_size : ℕ
max_frame_size = 8388608

-- `to_le_bytes` and `from_le_bytes`
unfoldable pub to_le_bytes : ℕ → List ℕ
to_le_bytes n = (n % 256) ∷ (n / 256 % 256) ∷ (n / 65536 % 256) ∷ (n / 16777216 % 256) ∷ []

unfoldable pub from_le_bytes : ℕ → ℕ → ℕ → ℕ → ℕ
from_le_bytes a b c d = a + 256 * b + 65536 * c + 16777216 * d

-- `payload.len() as u32`, which drops what does not fit.
unfoldable pub frame : ℕ → List ℕ → List ℕ
unfolding to_le_bytes
frame kind payload = kind ∷ (to_le_bytes (length payload % 2 ^ 32) ++ payload)

pub record Head : Type 0 where
  pub kind : ℕ
  pub len : ℕ
  pub rest : List ℕ

-- `read_exact` of five bytes; `none` if the stream ends before.
unfoldable pub read_head : List ℕ → Option Head
unfolding from_le_bytes
read_head (kind ∷ a ∷ b ∷ c ∷ d ∷ rest) =
    some (record { kind = kind; len = from_le_bytes a b c d; rest = rest })
read_head _ = none

-- `read_exact` of the payload.
unfoldable pub read_body : ℕ → List ℕ → Option (List ℕ)
read_body len rest = if leb len (length rest) then some (take len rest) else none

le_bytes_inverse :
    (n : ℕ)
    → n < 2 ^ 32
    → from_le_bytes (n % 256) (n / 256 % 256) (n / 65536 % 256) (n / 16777216 % 256) ≡ n
unfolding from_le_bytes
le_bytes_inverse n h = omega arith

pub read_head-frame :
    (kind : ℕ) (payload : List ℕ)
    → length payload < 2 ^ 32
    → read_head (frame kind payload)
      ≡ some (record { kind = kind; len = length payload; rest = payload })
unfolding read_head frame to_le_bytes
read_head-frame kind payload h =
    let small : length payload % 2 ^ 32 ≡ length payload = omega arith in
    rw small (
      ap (λ n. some (record { kind = kind; len = n; rest = payload }))
        (le_bytes_inverse (length payload) h))

pub read_body_all : (payload : List ℕ) → read_body (length payload) payload ≡ some payload
unfolding read_body
read_body_all payload =
    let fits : leb (length payload) (length payload) ≡ true = ground arith in
    rw (fits, take-length payload)
