-- ===== src/Transfer/History/Query.antt =====
-- Queries of the history: newest first, only matching records, within the limit.
use vnt_gui_dev.Prelude.{
  ℕ, zero, suc, ◌+◌, ◌≤◌, ◌≡◌, refl, String, Bool, true, Option, List, [], ◌∷◌, arith, leb, min,
  max, take, length, filter, All, Bool-cases, inl, inr, leb→le, leb-false→le,
}
use vnt_gui_dev.Transfer.Protocol.{TransferRecord, TransferDirection}
use vnt_gui_dev.Transfer.History.{HistoryStore, matches, query, sort_desc, insert_desc}

-- Newest first.
abbrev pub Sorted : List TransferRecord → Type 0
Sorted [] = Unit
Sorted (r ∷ rs) = All (λ u. u.start_time ≤ r.start_time) rs × Sorted rs

All-insert_desc :
    (P : TransferRecord → Type 0) (r : TransferRecord) (rs : List TransferRecord)
    → P r
    → All P rs
    → All P (insert_desc r rs)
All-insert_desc P r [] h hs = (h, tt)
All-insert_desc P r (u ∷ us) h hs = ground (arith, All-insert_desc P r us h hs.1, h, hs)

later :
    (a b : ℕ) (rs : List TransferRecord)
    → a ≤ b
    → All (λ u. u.start_time ≤ a) rs
    → All (λ u. u.start_time ≤ b) rs
later a b [] h hs = tt
later a b (r ∷ rs) h hs = (omega (arith, hs.0), later a b rs h hs.1)

Sorted-insert_desc :
    (r : TransferRecord) (rs : List TransferRecord) → Sorted rs → Sorted (insert_desc r rs)
Sorted-insert_desc r [] h = (tt, tt)
Sorted-insert_desc r (u ∷ us) h = elim (Bool-cases (leb u.start_time r.start_time)) [
  | inl e ↦
      let le = leb→le u.start_time r.start_time e in
      rw e ((le, later u.start_time r.start_time us le h.0), h)
  | inr e ↦
      let le = leb-false→le u.start_time r.start_time e in
      rw e (
        All-insert_desc (λ v. v.start_time ≤ u.start_time) r us le h.0,
        Sorted-insert_desc r us h.1,
      )
]

Sorted-sort_desc : (rs : List TransferRecord) → Sorted (sort_desc rs)
Sorted-sort_desc [] = tt
Sorted-sort_desc (r ∷ rs) = Sorted-insert_desc r (sort_desc rs) (Sorted-sort_desc rs)

All-sort_desc :
    (P : TransferRecord → Type 0) (rs : List TransferRecord) → All P rs → All P (sort_desc rs)
All-sort_desc P [] h = tt
All-sort_desc P (r ∷ rs) h = All-insert_desc P r (sort_desc rs) h.0 (All-sort_desc P rs h.1)

All-take :
    (P : TransferRecord → Type 0) (n : ℕ) (rs : List TransferRecord) → All P rs → All P (take n rs)
All-take P zero rs h = tt
All-take P (suc n) [] h = tt
All-take P (suc n) (r ∷ rs) h = (h.0, All-take P n rs h.1)

Sorted-take : (n : ℕ) (rs : List TransferRecord) → Sorted rs → Sorted (take n rs)
Sorted-take zero rs h = tt
Sorted-take (suc n) [] h = tt
Sorted-take (suc n) (r ∷ rs) h =
    (All-take (λ u. u.start_time ≤ r.start_time) n rs h.0, Sorted-take n rs h.1)

All-filter_self :
    (p : TransferRecord → Bool) (rs : List TransferRecord) → All (λ r. p r ≡ true) (filter p rs)
All-filter_self p [] = tt
All-filter_self p (r ∷ rs) = ground (arith, All-filter_self p rs)

length-insert_desc :
    (r : TransferRecord) (rs : List TransferRecord) → length (insert_desc r rs) ≡ length rs + 1
length-insert_desc r [] = refl
length-insert_desc r (u ∷ us) = ground (arith, length-insert_desc r us)

length-sort_desc : (rs : List TransferRecord) → length (sort_desc rs) ≡ length rs
length-sort_desc [] = refl
length-sort_desc (r ∷ rs) = omega (arith, length-insert_desc r (sort_desc rs), length-sort_desc rs)

length-take-min : (n : ℕ) (rs : List TransferRecord) → length (take n rs) ≡ min n (length rs)
length-take-min zero rs = ground arith
length-take-min (suc n) [] = ground arith
length-take-min (suc n) (r ∷ rs) = ground (arith, length-take-min n rs)

-- A query returns records that match it, the latest start first, and as many as there are, up to
-- the limit (a limit of 0 counts as 1).
query_is_page :
    (to_lowercase : String → String) (direction : Option TransferDirection)
    (keyword : Option String) (limit : ℕ) (s : HistoryStore)
    → Sorted (query to_lowercase direction keyword limit s)
      × All
          (λ r. matches to_lowercase direction keyword r ≡ true)
          (query to_lowercase direction keyword limit s)
      × (length (query to_lowercase direction keyword limit s)
          ≡ min (max limit 1) (length (filter (matches to_lowercase direction keyword) s.records)))
unfolding query
query_is_page to_lowercase direction keyword limit s =
    let p = matches to_lowercase direction keyword in
    let found = filter p s.records in
    let n = max limit 1 in
    (
      Sorted-take n (sort_desc found) (Sorted-sort_desc found),
      All-take (λ r. p r ≡ true) n (sort_desc found)
          (All-sort_desc (λ r. p r ≡ true) found (All-filter_self p s.records)),
      rw (← length-sort_desc found) (length-take-min n (sort_desc found)),
    )
