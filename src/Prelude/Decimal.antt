-- ===== src/Prelude/Decimal.antt =====
-- The decimal print of a u16, and its parse, on the bytes of ASCII text.
use Prim.Native.Nat.{ℕ, zero, suc, ◌+◌, ◌-◌, ◌*◌, ◌/◌, ◌%◌, ◌^◌, ◌<◌}
use mathlib.Core.Path.{◌≡◌, refl, sym, ◌∙◌, ap, subst}
use mathlib.Core.Logic.{inl, inr}
use mathlib.Core.Bool.{Bool, true, false, ◌&&◌}
use mathlib.Core.Option.{Option, none, some}
use mathlib.Core.List.{List, [], ◌∷◌, ◌++◌}
use native.Mathlib.Omega.{arith}
use vnt_gui_dev.Prelude.Tests.{ltb, leb, ltb→lt, if◌then◌else◌, Bool-cases}
use vnt_gui_dev.Prelude.Lists.{All, All-append}

abbrev pub is_digit : ℕ → Bool
is_digit c = leb b'0' c && leb c b'9'

-- With a digit for each unit of the fuel.
pub digits : ℕ → ℕ → List ℕ
digits zero n = []
digits (suc fuel) n =
    let rest = digits fuel (n / 10) ++ (b'0' + n % 10) ∷ [] in
    if ltb n 10 then (b'0' + n) ∷ [] else rest

-- A u16 has five digits at most.
unfoldable pub decimal : ℕ → List ℕ
unfolding digits
decimal n = digits 5 n

abbrev step : ℕ → Option ℕ → Option ℕ
step c none = none
step c (some acc) = if is_digit c then some (10 * acc + (c - b'0')) else none

-- The value of the digits, read from the left.
value_from : Option ℕ → List ℕ → Option ℕ
value_from acc [] = acc
value_from acc (c ∷ cs) = value_from (step c acc) cs

abbrev below_max : Option ℕ → Option ℕ
below_max none = none
below_max (some n) = if ltb n 65536 then some n else none

abbrev unsigned : List ℕ → Option ℕ
unsigned [] = none
unsigned (c ∷ cs) = below_max (value_from (some 0) (c ∷ cs))

-- `parse::<u16>()`, which takes a sign.
unfoldable pub parse_u16 : List ℕ → Option ℕ
unfolding value_from
parse_u16 [] = none
parse_u16 (c ∷ cs) = if leb b'+' c && leb c b'+' then unsigned cs else unsigned (c ∷ cs)

value_from-append :
    (acc : Option ℕ) (xs ys : List ℕ)
    → value_from acc (xs ++ ys) ≡ value_from (value_from acc xs) ys
unfolding value_from
value_from-append acc [] ys = refl
value_from-append acc (x ∷ xs) ys = value_from-append (step x acc) xs ys

one_digit : (k acc : ℕ) → k < 10 → step (b'0' + k) (some acc) ≡ some (10 * acc + k)
one_digit k acc h = ground arith

value-digits : (fuel n : ℕ) → n < 10 ^ fuel → value_from (some 0) (digits fuel n) ≡ some n
unfolding value_from digits
value-digits zero n h = (ap some (omega arith))
value-digits (suc fuel) n h = elim (Bool-cases (ltb n 10)) [
  | inl small ↦ rw small (one_digit n 0 (ltb→lt _ _ small) ∙ ap some (omega arith))
  | inr large ↦ rw large (
      value_from-append (some 0) (digits fuel (n / 10)) ((b'0' + n % 10) ∷ [])
      ∙ ap (λ a. value_from a ((b'0' + n % 10) ∷ [])) (value-digits fuel (n / 10) (omega arith))
      ∙ one_digit (n % 10) (n / 10) (omega arith)
      ∙ ap some (omega arith))
]

digit_is_digit : (k : ℕ) → k < 10 → is_digit (b'0' + k) ≡ true
digit_is_digit k h = ground arith

digits_are_digits : (fuel n : ℕ) → All (λ c. is_digit c ≡ true) (digits fuel n)
unfolding digits
digits_are_digits zero n = tt
digits_are_digits (suc fuel) n = elim (Bool-cases (ltb n 10)) [
  | inl small ↦ rw small (digit_is_digit n (ltb→lt _ _ small), tt)
  | inr large ↦ rw large (
      All-append (λ c. is_digit c ≡ true) _ _ (digits_are_digits fuel (n / 10))
        (digit_is_digit (n % 10) (omega arith), tt))
]

pub decimal_is_digits : (n : ℕ) → All (λ c. is_digit c ≡ true) (decimal n)
unfolding decimal
decimal_is_digits n = digits_are_digits 5 n

pub record NonEmpty (cs : List ℕ) : Type 0 where
  pub first : ℕ
  pub others : List ℕ
  pub same : cs ≡ first ∷ others

append-NonEmpty : (cs : List ℕ) (c : ℕ) → NonEmpty (cs ++ c ∷ [])
append-NonEmpty [] c = record { first = c; others = []; same = refl }
append-NonEmpty (d ∷ ds) c = record { first = d; others = ds ++ c ∷ []; same = refl }

pub decimal-NonEmpty : (n : ℕ) → NonEmpty (decimal n)
unfolding decimal digits
decimal-NonEmpty n = elim (Bool-cases (ltb n 10)) [
  | inl small ↦ record { first = b'0' + n; others = []; same = rw small refl }
  | inr large ↦ rw large (append-NonEmpty (digits 4 (n / 10)) (b'0' + n % 10))
]

unsigned_value :
    (c : ℕ) (cs : List ℕ) (n : ℕ)
    → n < 65536
    → value_from (some 0) (c ∷ cs) ≡ some n
    → unsigned (c ∷ cs) ≡ some n
unsigned_value c cs n h e = rw e (ground arith)

not_a_sign : (c : ℕ) → is_digit c ≡ true → (leb b'+' c && leb c b'+') ≡ false
not_a_sign c h = ground arith

pub parse_u16-decimal : (n : ℕ) → n < 65536 → parse_u16 (decimal n) ≡ some n
unfolding parse_u16 decimal
parse_u16-decimal n h =
    let d = decimal-NonEmpty n in
    let value : value_from (some 0) (decimal n) ≡ some n = value-digits 5 n (omega arith) in
    let digit : is_digit d.first ≡ true =
      (subst (All (λ c. is_digit c ≡ true)) d.same (decimal_is_digits n)).0 in
    ap parse_u16 d.same
    ∙ rw (not_a_sign d.first digit)
        (unsigned_value d.first d.others n h (sym (ap (value_from (some 0)) d.same) ∙ value))
