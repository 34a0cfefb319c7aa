-- ===== src/Transfer/History/Ids.antt =====
-- The ids of the history: distinct, and below the next one.
use vnt_gui_dev.Prelude.{
  ℕ, ◌+◌, ◌%◌, ◌<◌, ◌^◌, ◌≡◌, ◌≢◌, Bool, not, List, [], ◌∷◌, ◌++◌, ◌==◌, arith, filter, find, All,
  All-append, All-filter, none, if◌then◌else◌, ap, Bool-cases, inl, inr, ==→eq,
}
use vnt_gui_dev.Transfer.Protocol.{TransferRecord}
use vnt_gui_dev.Transfer.History.{
  HistoryStore, pushed, deleted, deleted_many, cleared, has_id, contains,
}

abbrev pub Distinct : List TransferRecord → Type 0
Distinct [] = Unit
Distinct (r ∷ rs) = All (λ u. u.id ≢ r.id) rs × Distinct rs

pub record IsValid (s : HistoryStore) : Type 0 where
  pub distinct : Distinct s.records
  pub below : All (λ r. r.id < s.next_id) s.records

Distinct-filter :
    (p : TransferRecord → Bool) (rs : List TransferRecord) → Distinct rs → Distinct (filter p rs)
Distinct-filter p [] h = tt
Distinct-filter p (r ∷ rs) h =
    ground (arith, Distinct-filter p rs h.1, All-filter (λ u. u.id ≢ r.id) p rs h.0)

Distinct-snoc :
    (rs : List TransferRecord) (r : TransferRecord)
    → Distinct rs
    → All (λ u. u.id < r.id) rs
    → Distinct (rs ++ r ∷ [])
Distinct-snoc [] r d h = (tt, tt)
Distinct-snoc (u ∷ rs) r d h = (
  All-append (λ v. v.id ≢ u.id) rs (r ∷ []) d.0 (omega (arith, h.0), tt),
  Distinct-snoc rs r d.1 h.1,
)

below_next :
    (n : ℕ) (rs : List TransferRecord) → All (λ r. r.id < n) rs → All (λ r. r.id < n + 1) rs
below_next n [] h = tt
below_next n (r ∷ rs) h = (omega (arith, h.0), below_next n rs h.1)

-- Adding, deleting and clearing keep the ids distinct and below the next one, while that has room
-- in 64 bits.
pub changes-IsValid :
    (s : HistoryStore) (rec : TransferRecord) (id : ℕ) (ids : List ℕ)
    → IsValid s
    → s.next_id + 1 < 2 ^ 64
    → IsValid (pushed rec s)
      × IsValid (deleted id s)
      × IsValid (deleted_many ids s)
      × IsValid (cleared s)
unfolding pushed deleted deleted_many cleared
changes-IsValid s rec id ids v room =
    let e : (s.next_id + 1) % 2 ^ 64 ≡ s.next_id + 1 = omega arith in
    let r = record rec { id = s.next_id } in
    (
      record {
        distinct = Distinct-snoc s.records r v.distinct v.below;
        below = rw e (
            All-append (λ u. u.id < s.next_id + 1) s.records (r ∷ [])
              (below_next s.next_id s.records v.below) (omega arith, tt));
      },
      record {
        distinct = Distinct-filter _ s.records v.distinct;
        below = All-filter (λ u. u.id < s.next_id) _ s.records v.below;
      },
      record {
        distinct = Distinct-filter _ s.records v.distinct;
        below = All-filter (λ u. u.id < s.next_id) _ s.records v.below;
      },
      record { distinct = tt; below = tt },
    )

find-filter-contains :
    (ids : List ℕ) (key : ℕ) (rs : List TransferRecord)
    → find (has_id key) (filter (λ r. not (contains ids r.id)) rs)
      ≡ (if contains ids key then none else find (has_id key) rs)
find-filter-contains ids key [] = ground arith
find-filter-contains ids key (r ∷ rs) =
    let ih = find-filter-contains ids key rs in
    elim (Bool-cases (r.id == key)) [
      | inl e ↦ let same = ==→eq r.id key e in ground (arith, ih, ap (contains ids) same)
      | inr e ↦ ground (arith, ih)
    ]

-- Deleting ids takes exactly the records with those ids: a look-up by a deleted id finds nothing,
-- any other finds what it found before.
find-deleted_many :
    (s : HistoryStore) (ids : List ℕ) (key : ℕ)
    → find (has_id key) (deleted_many ids s).records
      ≡ (if contains ids key then none else find (has_id key) s.records)
unfolding deleted_many
find-deleted_many s ids key = find-filter-contains ids key s.records
