-- ===== src/Transfer/Receiver/Placement/Fresh.antt =====
-- resolve_save_path ends, and its path is free.
use text.Mathlib.TextLemmas.{append_cancel_left, append_cancel_right}
use vnt_gui_dev.Prelude.{
  ℕ, zero, suc, ◌+◌, ◌%◌, ◌^◌, ◌<◌, ◌≤◌, ◌≡◌, refl, ◌∙◌, String, true, false, some, List, [], ◌∷◌,
  ◌⊎◌, inl, inr, arith, eq_iff, str_eq, Bool-cases, length,
}
use vnt_gui_dev.Transfer.Filter.{contains, remove}
use vnt_gui_dev.Transfer.Filter.Laws.{contains-remove}
use vnt_gui_dev.Transfer.Disk.{Disk, exists}
use vnt_gui_dev.Transfer.Receiver.Placement.{
  stem_and_ext, directory_prefix, join, candidate, candidate_loop, resolve_save_path,
}

length-remove-le : (x : String) (xs : List String) → length (remove x xs) ≤ length xs
length-remove-le x [] = omega arith
length-remove-le x (y ∷ xs) = ground (arith, length-remove-le x xs)

length-remove :
    (x : String) (xs : List String) → contains x xs ≡ true → length (remove x xs) < length xs
length-remove x [] h = cc
length-remove x (y ∷ xs) h = ground (arith, length-remove x xs, length-remove-le x xs)

-- The prints of the i32 numbers from 0 are distinct.
abbrev pub PrintsApart : (ℕ → String) → Type 0
PrintsApart print = (m n : ℕ) → m < 2 ^ 31 → n < 2 ^ 31 → print m ≡ print n → m ≡ n

-- Every path of the disk at which there is something is listed.
abbrev pub Lists : List String → Disk → Type 0
Lists occupied d = (p : String) → exists p d ≡ true → contains p occupied ≡ true

module _ (print : ℕ → String) (apart : PrintsApart print) (dir name : String) (d : Disk) where
  candidate_inj :
      (m n : ℕ)
      → m < 2 ^ 31
      → n < 2 ^ 31
      → candidate print dir name m ≡ candidate print dir name n
      → m ≡ n
  unfolding candidate
  candidate_inj m n hm hn e = apart m n hm hn (
      append_cancel_right _ _ _ (
        append_cancel_left "(" _ _ (
          append_cancel_left (stem_and_ext name).0 _ _
            (append_cancel_left (directory_prefix dir) _ _ e))))

  -- What is there is in the list, or an earlier candidate.
  abbrev Seen : List String → ℕ → Type 0
  Seen occupied n =
      (p : String)
      → exists p d ≡ true
      → (contains p occupied ≡ true) ⊎ ((i : ℕ) × (i < n) × (p ≡ candidate print dir name i))

  listed :
      (occupied : List String) (n : ℕ)
      → n < 2 ^ 31
      → Seen occupied n
      → exists (candidate print dir name n) d ≡ true
      → contains (candidate print dir name n) occupied ≡ true
  listed occupied n small seen there = elim (seen (candidate print dir name n) there) [
    | inl h ↦ h
    | inr (i, lt, e) ↦
        let same : n ≡ i = candidate_inj n i small (omega arith) e in absurd (omega arith)
  ]

  later :
      (occupied : List String) (n : ℕ)
      → Seen occupied n
      → Seen (remove (candidate print dir name n) occupied) (n + 1)
  later occupied n seen p there = elim (seen p there) [
    | inr (i, lt, e) ↦ inr (i, omega arith, e)
    | inl h ↦ elim (Bool-cases (str_eq p (candidate print dir name n))) [
      | inl same ↦ inr (n, omega arith, (eq_iff _ _).0 same)
      | inr other ↦ inl (contains-remove p (candidate print dir name n) occupied ∙ rw (other, h))
    ]
  ]

  loop_ends :
      (fuel : ℕ) (occupied : List String) (n : ℕ)
      → length occupied < fuel
      → n + fuel ≤ 2 ^ 31
      → Seen occupied n
      → (p : String) × (candidate_loop print fuel dir name n d ≡ some p) × (exists p d ≡ false)
  unfolding candidate_loop
  loop_ends zero occupied n short small seen = absurd (omega arith)
  loop_ends (suc fuel) occupied n short small seen =
      elim (Bool-cases (exists (candidate print dir name n) d)) [
        | inr free ↦ (candidate print dir name n, rw free, free)
        | inl there ↦
            let c = candidate print dir name n in
            let shorter = length-remove c occupied (listed occupied n (omega arith) seen there) in
            let next : (n + 1) % 2 ^ 32 ≡ n + 1 = omega arith in
            rw (there, next)
              (loop_ends fuel (remove c occupied) (n + 1) (omega arith) (omega arith)
                (later occupied n seen))
      ]

loop_free :
    (print : ℕ → String) (fuel : ℕ) (dir name : String) (n : ℕ) (d : Disk) (p : String)
    → candidate_loop print fuel dir name n d ≡ some p
    → exists p d ≡ false
unfolding candidate_loop
loop_free print zero dir name n d p h = cc
loop_free print (suc fuel) dir name n d p h =
    elim (Bool-cases (exists (candidate print dir name n) d)) [
      | inr free ↦ let e : some (candidate print dir name n) ≡ some p = rw free at h in cc
      | inl there ↦ loop_free print fuel dir name ((n + 1) % 2 ^ 32) d p (rw there at h)
    ]

-- Whatever the fuel: a path that is returned is free.
pub resolve_save_path-free :
    (print : ℕ → String) (fuel : ℕ) (dir name : String) (d : Disk) (p : String)
    → resolve_save_path print fuel dir name d ≡ some p
    → exists p d ≡ false
unfolding resolve_save_path
resolve_save_path-free print fuel dir name d p h = elim (Bool-cases (exists (join dir name) d)) [
  | inr free ↦ let e : some (join dir name) ≡ some p = rw free at h in cc
  | inl there ↦ loop_free print fuel dir name 1 d p (rw there at h)
]

-- The path that resolve_save_path returns.
pub record FreshPath (print : ℕ → String) (fuel : ℕ) (dir name : String) (d : Disk) : Type 0 where
  pub path : String
  pub returned : resolve_save_path print fuel dir name d ≡ some path
  pub free : exists path d ≡ false
  pub unchanged : (path ≡ join dir name) ⊎ (exists (join dir name) d ≡ true)

-- The search for a save path ends, with one round for each path at which there is something and one
-- more, and its path is free: the name that was offered, if there is nothing of that name. Less
-- than 2^31 - 1 paths are in use, and the prints of the numbers below 2^31 are distinct.
pub resolve_save_path_is_fresh :
    (print : ℕ → String) (dir name : String) (occupied : List String) (d : Disk)
    → PrintsApart print
    → Lists occupied d
    → length occupied + 2 ≤ 2 ^ 31
    → FreshPath print (length occupied + 1) dir name d
unfolding resolve_save_path
resolve_save_path_is_fresh print dir name occupied d apart lists few =
    elim (Bool-cases (exists (join dir name) d)) [
      | inr free ↦ record {
        path = join dir name;
        returned = rw free;
        free = free;
        unchanged = inl refl;
      }
      | inl there ↦
          let (p, e, free) =
            loop_ends print apart dir name d (length occupied + 1) occupied 1 (omega arith)
              (omega arith) (λ q h. inl (lists q h)) in
          record { path = p; returned = rw there e; free = free; unchanged = inr there }
    ]
