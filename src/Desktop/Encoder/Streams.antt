-- ===== src/Desktop/Encoder/Streams.antt =====
-- What the conversion makes of a whole stream, in either format.
use vnt_gui_dev.Prelude.{
  ℕ, zero, suc, ◌/◌, ◌%◌, ◌^◌, ◌≤◌, ◌≡◌, refl, true, false, List, [], ◌∷◌, ◌++◌, arith, All, length,
  length-append, take-append, drop-append,
}
use vnt_gui_dev.Transfer.Protocol.{Bytes}
use vnt_gui_dev.Desktop.Encoder.{
  Annexb, push_nal, avcc_loop, annexb_loop, from_be, is_start_code, before_code, from_code,
  start_code, short_code, starts_with, contains, convert_annexb_to_annexb, convert_avcc_to_annexb,
}

-- A length in four bytes, the highest first.
abbrev pub be : ℕ → Bytes
be n = (n / 2 ^ 24) ∷ (n / 2 ^ 16 % 256) ∷ (n / 2 ^ 8 % 256) ∷ (n % 256) ∷ []

abbrev pub avcc_of : List Bytes → Bytes
avcc_of [] = []
avcc_of (nal ∷ nals) = be (length nal) ++ (nal ++ avcc_of nals)

abbrev pub annexb_of : List Bytes → Bytes
annexb_of [] = []
annexb_of (nal ∷ nals) = start_code ++ (nal ++ annexb_of nals)

abbrev pub push_all : List Bytes → Annexb → Annexb
push_all [] acc = acc
push_all (nal ∷ nals) acc = push_all nals (push_nal nal acc)

from_be-be : (n : ℕ) → from_be (n / 2 ^ 24) (n / 2 ^ 16 % 256) (n / 2 ^ 8 % 256) (n % 256) ≡ n
from_be-be n = omega arith

avcc_loop-avcc_of :
    (fuel : ℕ) (nals : List Bytes) (acc : Annexb)
    → length (avcc_of nals) ≤ fuel
    → avcc_loop fuel (avcc_of nals) acc ≡ push_all nals acc
unfolding avcc_loop
avcc_loop-avcc_of zero [] acc h = refl
avcc_loop-avcc_of zero (nal ∷ nals) acc h = absurd (omega (arith, h))
avcc_loop-avcc_of (suc fuel) [] acc h = refl
avcc_loop-avcc_of (suc fuel) (nal ∷ nals) acc h =
    let rest = nal ++ avcc_of nals in
    rw (from_be-be (length nal), take-append nal (avcc_of nals), drop-append nal (avcc_of nals))
      (ground
        (arith, avcc_loop-avcc_of fuel nals (push_nal nal acc), length-append nal (avcc_of nals)))

-- No start code begins in a unit that contains none, not even at its end.
is_start_code-append :
    (x : ℕ) (xs : Bytes) (nals : List Bytes)
    → contains short_code (x ∷ xs) ≡ false
    → is_start_code (x ∷ (xs ++ annexb_of nals)) ≡ false
is_start_code-append x [] [] h = ground arith
is_start_code-append x [] (n ∷ ns) h = ground arith
is_start_code-append x (y ∷ []) [] h = ground arith
is_start_code-append x (y ∷ []) (n ∷ ns) h = ground arith
is_start_code-append x (y ∷ z ∷ []) [] h = ground arith
is_start_code-append x (y ∷ z ∷ []) (n ∷ ns) h = ground arith
is_start_code-append x (y ∷ z ∷ w ∷ ws) nals h = ground arith

contains-tail :
    (x : ℕ) (xs : Bytes) → contains short_code (x ∷ xs) ≡ false → contains short_code xs ≡ false
contains-tail x xs h = ground arith

before_code-append :
    (nal : Bytes) (nals : List Bytes)
    → contains short_code nal ≡ false
    → before_code (nal ++ annexb_of nals) ≡ nal
before_code-append [] [] h = refl
before_code-append [] (n ∷ ns) h = refl
before_code-append (x ∷ xs) nals h =
    ground
      (arith, is_start_code-append x xs nals h, before_code-append xs nals (contains-tail x xs h))

from_code-append :
    (nal : Bytes) (nals : List Bytes)
    → contains short_code nal ≡ false
    → from_code (nal ++ annexb_of nals) ≡ annexb_of nals
from_code-append [] [] h = refl
from_code-append [] (n ∷ ns) h = refl
from_code-append (x ∷ xs) nals h =
    ground
      (arith, is_start_code-append x xs nals h, from_code-append xs nals (contains-tail x xs h))

-- A unit: not empty, and without a start code in it.
abbrev pub IsUnit : Bytes → Type 0
IsUnit nal = (1 ≤ length nal) × (contains short_code nal ≡ false)

annexb_loop-annexb_of :
    (fuel : ℕ) (nals : List Bytes) (acc : Annexb)
    → All IsUnit nals
    → length (annexb_of nals) ≤ fuel
    → annexb_loop fuel (annexb_of nals) acc ≡ push_all nals acc
unfolding annexb_loop
annexb_loop-annexb_of zero [] acc u h = refl
annexb_loop-annexb_of zero (nal ∷ nals) acc u h = absurd (omega (arith, h))
annexb_loop-annexb_of (suc fuel) [] acc u h = refl
annexb_loop-annexb_of (suc fuel) ([] ∷ nals) acc u h = absurd (omega (arith, u.0.0))
annexb_loop-annexb_of (suc fuel) ((x ∷ xs) ∷ nals) acc u h =
    rw (before_code-append (x ∷ xs) nals u.0.1, from_code-append (x ∷ xs) nals u.0.1)
      (annexb_loop-annexb_of fuel nals (push_nal (x ∷ xs) acc) u.1
        (omega (arith, h, length-append xs (annexb_of nals))))

convert_annexb_of :
    (nals : List Bytes) (acc : Annexb)
    → convert_annexb_to_annexb (annexb_of nals) acc ≡ push_all nals acc
    → convert_avcc_to_annexb (annexb_of nals) acc ≡ push_all nals acc
unfolding convert_avcc_to_annexb avcc_loop
convert_annexb_of [] acc e = refl
convert_annexb_of (nal ∷ nals) acc e = e

-- Units behind start codes, none empty and none with a start code in it, are converted to what
-- pushing them one after the other gives, whatever was converted before; so are the same units
-- behind their lengths, unless the first four bytes look like a start code. The fuel of both loops
-- is enough for every stream.
pub both_formats_push_units :
    (nals : List Bytes) (acc : Annexb)
    → All IsUnit nals
    → starts_with start_code (avcc_of nals) ≡ false
    → (convert_annexb_to_annexb (annexb_of nals) acc ≡ push_all nals acc)
      × (convert_avcc_to_annexb (annexb_of nals) acc ≡ push_all nals acc)
      × (convert_avcc_to_annexb (avcc_of nals) acc ≡ push_all nals acc)
unfolding convert_annexb_to_annexb convert_avcc_to_annexb
both_formats_push_units nals acc u h =
    let a = annexb_loop-annexb_of (length (annexb_of nals)) nals acc u (omega arith) in
    let c = avcc_loop-avcc_of (length (avcc_of nals)) nals acc (omega arith) in
    (a, convert_annexb_of nals acc a, rw h c)

starts_with-append : (p more : Bytes) → starts_with p (p ++ more) ≡ true
starts_with-append [] more = refl
starts_with-append (x ∷ xs) more = ground (arith, starts_with-append xs more)

-- A sequence parameter set that is the beginning of the one that was cached first is not added to
-- the cache, although it is another one.
pub prefix_parameter_is_lost :
    (header : ℕ) (body more : Bytes) (acc : Annexb)
    → header % 32 ≡ 7
    → acc.sps_pps ≡ []
    → push_nal (header ∷ body) (push_nal (header ∷ (body ++ more)) acc)
      ≡ push_nal (header ∷ (body ++ more)) acc
unfolding push_nal
prefix_parameter_is_lost header body more acc sps empty =
    ground (arith, starts_with-append (header ∷ body) more, starts_with-append body more)
