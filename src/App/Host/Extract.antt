-- ===== src/App/Host/Extract.antt =====
-- The host of a server's address.
use vnt_gui_dev.Prelude.{
  ℕ, ◌≡◌, refl, ◌∙◌, ap, subst, true, false, none, some, List, [], ◌∷◌, ◌++◌, ◌==◌, arith, All,
  All-append,
}
use vnt_gui_dev.Prelude.Decimal.{is_digit, decimal, decimal-NonEmpty, decimal_is_digits}
use vnt_gui_dev.Prelude.Text.{
  is_white, trim_start, trim_end, trim, strip_prefix, IsPlain, digit_is_not_white,
  digits_are-IsPlain,
}
use vnt_gui_dev.App.Host.{
  scheme_end, after_scheme, at_last_colon, all_digits, is_port, without_port, unless_empty,
  extract_host,
}

-- No white space and no slash.
abbrev pub IsHostChar : ℕ → Type 0
IsHostChar c = (is_white c ≡ false) × ((c == b'/') ≡ false)

abbrev NotWhite : ℕ → Type 0
NotWhite c = is_white c ≡ false

trim_start_keeps : (cs : List ℕ) → All NotWhite cs → trim_start cs ≡ cs
unfolding trim_start
trim_start_keeps [] h = refl
trim_start_keeps (c ∷ cs) h = rw (h.0) refl

trim_end_keeps : (cs : List ℕ) → All NotWhite cs → trim_end cs ≡ cs
unfolding trim_end
trim_end_keeps [] h = refl
trim_end_keeps (c ∷ []) h = rw (h.0) refl
trim_end_keeps (c ∷ d ∷ ds) h = rw (trim_end_keeps (d ∷ ds) h.1) refl

trim_keeps : (cs : List ℕ) → All NotWhite cs → trim cs ≡ cs
unfolding trim
trim_keeps cs h = ap trim_end (trim_start_keeps cs h) ∙ trim_end_keeps cs h

host-NotWhite : (cs : List ℕ) → All IsHostChar cs → All NotWhite cs
host-NotWhite [] h = tt
host-NotWhite (c ∷ cs) h = (h.0.0, host-NotWhite cs h.1)

no_scheme_end : (cs : List ℕ) → All IsHostChar cs → strip_prefix scheme_end cs ≡ none
unfolding strip_prefix
no_scheme_end [] h = refl
no_scheme_end (c ∷ []) h = ground arith
no_scheme_end (c ∷ d ∷ ds) h = ground arith

after_scheme-none : (cs : List ℕ) → All IsHostChar cs → after_scheme cs ≡ none
unfolding after_scheme
after_scheme-none [] h = refl
after_scheme-none (c ∷ cs) h = rw (no_scheme_end (c ∷ cs) h, after_scheme-none cs h.1) refl

scheme_is_passed :
    (scheme rest : List ℕ)
    → All IsPlain scheme
    → after_scheme (scheme ++ (scheme_end ++ rest)) ≡ some rest
unfolding after_scheme strip_prefix
scheme_is_passed [] rest h = refl
scheme_is_passed (c ∷ cs) rest h = rw (h.0, scheme_is_passed cs rest h.1) refl

no_colon : (cs : List ℕ) → All IsPlain cs → at_last_colon cs ≡ none
unfolding at_last_colon
no_colon [] h = refl
no_colon (c ∷ cs) h = rw (no_colon cs h.1, h.0) refl

last_colon : (xs ys : List ℕ) → All IsPlain ys → at_last_colon (xs ++ b':' ∷ ys) ≡ some (xs, ys)
unfolding at_last_colon
last_colon [] ys h = rw (no_colon ys h) refl
last_colon (x ∷ xs) ys h = rw (last_colon xs ys h) refl

all_digits_lem : (cs : List ℕ) → All (λ c. is_digit c ≡ true) cs → all_digits cs ≡ true
all_digits_lem [] h = refl
all_digits_lem (c ∷ cs) h = rw (h.0, all_digits_lem cs h.1) refl

decimal-is_port : (n : ℕ) → is_port (decimal n) ≡ true
decimal-is_port n =
    let d = decimal-NonEmpty n in
    ap is_port d.same
    ∙ all_digits_lem (d.first ∷ d.others)
        (subst (All (λ c. is_digit c ≡ true)) d.same (decimal_is_digits n))

digits_are_host : (cs : List ℕ) → All (λ c. is_digit c ≡ true) cs → All IsHostChar cs
digits_are_host [] h = tt
digits_are_host (c ∷ cs) h =
    let slash : (c == b'/') ≡ false = ground arith in
    ((digit_is_not_white c h.0, slash), digits_are_host cs h.1)

-- The port is cut off.
port_is_cut : (host : List ℕ) (n : ℕ) → without_port (host ++ b':' ∷ decimal n) ≡ host
unfolding without_port
port_is_cut host n =
    rw (last_colon host (decimal n) (digits_are-IsPlain _ (decimal_is_digits n)), decimal-is_port n)
      refl

with_port-IsHostChar :
    (host : List ℕ) (n : ℕ) → All IsHostChar host → All IsHostChar (host ++ b':' ∷ decimal n)
with_port-IsHostChar host n h =
    All-append IsHostChar host (b':' ∷ decimal n) h
      ((refl, refl), digits_are_host _ (decimal_is_digits n))

-- From an address with a port, without or with a scheme in front, the host is extracted: any host that
-- is not empty (its first character is an argument) and has no white space and no slash. It may have
-- colons, so the last group of an IPv6 address, if it is all digits, is cut off as a port.
pub host_is_extracted :
    (scheme : List ℕ) (c : ℕ) (cs : List ℕ) (port : ℕ)
    → All IsPlain scheme
    → All NotWhite scheme
    → All IsHostChar (c ∷ cs)
    → (extract_host ((c ∷ cs) ++ b':' ∷ decimal port) ≡ some (c ∷ cs))
      × (extract_host (scheme ++ (scheme_end ++ ((c ∷ cs) ++ b':' ∷ decimal port))) ≡ some (c ∷ cs))
unfolding extract_host
host_is_extracted scheme c cs port plain white host =
    let address = (c ∷ cs) ++ b':' ∷ decimal port in
    let chars = with_port-IsHostChar (c ∷ cs) port host in
    let whole : All NotWhite (scheme ++ (scheme_end ++ address)) =
      All-append NotWhite scheme _ white (refl, (refl, (refl, host-NotWhite address chars))) in
    (
      rw (trim_keeps address (host-NotWhite address chars), after_scheme-none address chars)
          (ap unless_empty (port_is_cut (c ∷ cs) port)),
      rw (trim_keeps _ whole, scheme_is_passed scheme address plain)
          (ap unless_empty (port_is_cut (c ∷ cs) port)),
    )
