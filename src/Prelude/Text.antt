-- ===== src/Prelude/Text.antt =====
-- Texts as the lists of their code points: the functions of the standard library that the code calls.
use Prim.Native.Nat.{ℕ}
use mathlib.Core.Path.{◌≡◌, refl}
use mathlib.Core.Bool.{Bool, true, false, ◌&&◌, ◌||◌}
use mathlib.Core.Option.{Option, none, some}
use mathlib.Core.List.{List, [], ◌∷◌, ◌++◌}
use native.Mathlib.Omega.{arith}
use vnt_gui_dev.Prelude.Tests.{leb, ◌==◌, if◌then◌else◌}
use vnt_gui_dev.Prelude.Lists.{All}
use vnt_gui_dev.Prelude.Decimal.{is_digit, NonEmpty}

-- `char::is_whitespace`
abbrev pub is_white : ℕ → Bool
is_white c =
    (leb 9 c && leb c 13)
    || c == 32
    || c == 133
    || c == 160
    || c == 5760
    || (leb 8192 c && leb c 8202)
    || c == 8232
    || c == 8233
    || c == 8239
    || c == 8287
    || c == 12288

unfoldable pub trim_start : List ℕ → List ℕ
trim_start [] = []
trim_start (c ∷ cs) = let rest = trim_start cs in if is_white c then rest else c ∷ cs

abbrev kept : ℕ → List ℕ → List ℕ
kept c (d ∷ ds) = c ∷ d ∷ ds
kept c [] = if is_white c then [] else c ∷ []

unfoldable pub trim_end : List ℕ → List ℕ
trim_end [] = []
trim_end (c ∷ cs) = kept c (trim_end cs)

unfoldable pub trim : List ℕ → List ℕ
unfolding trim_start trim_end
trim cs = trim_end (trim_start cs)

unfoldable pub strip_prefix : List ℕ → List ℕ → Option (List ℕ)
strip_prefix [] cs = some cs
strip_prefix (p ∷ ps) [] = none
strip_prefix (p ∷ ps) (c ∷ cs) = let rest = strip_prefix ps cs in if c == p then rest else none

abbrev in_first : ℕ → List (List ℕ) → List (List ℕ)
in_first c [] = (c ∷ []) ∷ []
in_first c (p ∷ ps) = (c ∷ p) ∷ ps

-- `split(':')`, which is never empty.
unfoldable pub split : List ℕ → List (List ℕ)
split [] = [] ∷ []
split (c ∷ cs) = let parts = split cs in if c == b':' then [] ∷ parts else in_first c parts

abbrev pub IsPlain : ℕ → Type 0
IsPlain c = (c == b':') ≡ false

pub split_at : (xs ys : List ℕ) → All IsPlain xs → split (xs ++ b':' ∷ ys) ≡ xs ∷ split ys
unfolding split
split_at [] ys h = refl
split_at (x ∷ xs) ys h = rw (h.0, split_at xs ys h.1) refl

pub split_last : (xs : List ℕ) → All IsPlain xs → split xs ≡ xs ∷ []
unfolding split
split_last [] h = refl
split_last (x ∷ xs) h = rw (h.0, split_last xs h.1) refl

digit-IsPlain : (c : ℕ) → is_digit c ≡ true → IsPlain c
digit-IsPlain c h = ground arith

pub digits_are-IsPlain : (cs : List ℕ) → All (λ c. is_digit c ≡ true) cs → All IsPlain cs
digits_are-IsPlain [] h = tt
digits_are-IsPlain (c ∷ cs) h = (digit-IsPlain c h.0, digits_are-IsPlain cs h.1)

pub digit_is_not_white : (c : ℕ) → is_digit c ≡ true → is_white c ≡ false
digit_is_not_white c h = ground arith

pub trim_end_digits :
    (cs : List ℕ) → All (λ c. is_digit c ≡ true) cs → trim_end (cs ++ 10 ∷ []) ≡ cs
unfolding trim_end
trim_end_digits [] h = refl
trim_end_digits (c ∷ []) h = rw (digit_is_not_white c h.0) refl
trim_end_digits (c ∷ d ∷ ds) h = rw (trim_end_digits (d ∷ ds) h.1) refl

pub trim_end_append :
    (xs ys : List ℕ) → NonEmpty (trim_end ys) → trim_end (xs ++ ys) ≡ xs ++ trim_end ys
unfolding trim_end
trim_end_append [] ys h = refl
trim_end_append (x ∷ []) ys h = rw h.same refl
trim_end_append (x ∷ y ∷ xs) ys h = rw (trim_end_append (y ∷ xs) ys h) refl
