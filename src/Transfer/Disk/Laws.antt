-- ===== src/Transfer/Disk/Laws.antt =====
-- Laws of a write into a content.
use vnt_gui_dev.Prelude.{
  Bool-cases, Result-cases, inl, inr, append_assoc, ◌∙◌, drop-add, ok, some, ◌≢◌, ◌⊎◌, String,
  eq_iff, ℕ, zero, suc, ◌+◌, ◌-◌, ◌≤◌, ◌≡◌, refl, sym, ap, [], ◌∷◌, ◌++◌, append-nil, arith, length,
  take, drop, take-append, drop-append, length-append,
}
use vnt_gui_dev.Transfer.Protocol.{Bytes}
use vnt_gui_dev.Transfer.Disk.{
  Disk, splice, zeros, or_empty, next_fault, rest_of, write_file, append_all, write_new,
  atomic_save,
}

zeros-sub : (n m : ℕ) → n ≤ m → zeros (n - m) ≡ []
zeros-sub n m h = let e : n - m ≡ 0 = omega arith in rw e

drop_past : (n : ℕ) (xs : Bytes) → length xs ≤ n → drop n xs ≡ []
drop_past zero [] h = refl
drop_past zero (x ∷ xs) h = absurd (omega arith)
drop_past (suc n) [] h = refl
drop_past (suc n) (x ∷ xs) h = drop_past n xs (omega arith)

take_past : (n : ℕ) (xs : Bytes) → length xs ≤ n → take n xs ≡ xs
take_past zero [] h = refl
take_past zero (x ∷ xs) h = absurd (omega arith)
take_past (suc n) [] h = refl
take_past (suc n) (x ∷ xs) h = ap (λ r. x ∷ r) (take_past n xs (omega arith))

-- A write at the end appends.
pub splice_at_end :
    (pos : ℕ) (bytes content : Bytes)
    → length content ≡ pos
    → splice pos bytes content ≡ content ++ bytes
splice_at_end pos [] content h = sym (append-nil content)
splice_at_end pos (b ∷ bs) content h = rw (
  take_past pos content (omega arith),
  zeros-sub pos (length content) (omega arith),
  drop_past (pos + suc (length bs)) content (omega arith),
  append-nil bs,
)

-- A write at the start replaces what it covers.
splice_at_start :
    (bytes content : Bytes) → splice 0 bytes content ≡ bytes ++ drop (length bytes) content
splice_at_start [] content = refl
splice_at_start (b ∷ bs) content =
    let e : 0 + suc (length bs) ≡ suc (length bs) = omega arith in
    rw (zeros-sub 0 (length content) (omega arith), e)

take_nil : (n : ℕ) → take {A = ℕ} n [] ≡ []
take_nil zero = refl
take_nil (suc n) = refl

pub take-add : (a b : ℕ) (xs : Bytes) → take (a + b) xs ≡ take a xs ++ take b (drop a xs)
take-add zero b xs = let e : zero + b ≡ b = omega arith in rw e
take-add (suc a) b [] = rw (take_nil (suc a + b), take_nil b)
take-add (suc a) b (x ∷ xs) =
    let e : suc a + b ≡ suc (a + b) = omega arith in rw e (ap (λ r. x ∷ r) (take-add a b xs))

-- A write at the seam of two parts goes over the second.
pub splice_over :
    (pos : ℕ) (bytes left right : Bytes)
    → length left ≡ pos
    → splice pos bytes (left ++ right) ≡ left ++ (bytes ++ drop (length bytes) right)
splice_over pos [] left right h = refl
splice_over pos (b ∷ bs) left right h = rw (
  sym h,
  take-append left right,
  zeros-sub (length left) (length (left ++ right)) (omega (arith, length-append left right)),
  drop-add (length left) (suc (length bs)) (left ++ right),
  drop-append left right,
)

pub take-length-take : (n : ℕ) (xs : Bytes) → take (length (take n xs)) xs ≡ take n xs
take-length-take zero xs = refl
take-length-take (suc n) [] = refl
take-length-take (suc n) (x ∷ xs) = ap (λ r. x ∷ r) (take-length-take n xs)

pub drop-length-take : (n : ℕ) (xs : Bytes) → drop (length (take n xs)) xs ≡ drop n xs
drop-length-take zero xs = refl
drop-length-take (suc n) [] = refl
drop-length-take (suc n) (x ∷ xs) = drop-length-take n xs

pub length-take-le : (n : ℕ) (xs : Bytes) → length (take n xs) ≤ n
length-take-le zero xs = omega arith
length-take-le (suc n) [] = omega arith
length-take-le (suc n) (x ∷ xs) = omega (arith, length-take-le n xs)

pub length-take-le-length : (n : ℕ) (xs : Bytes) → length (take n xs) ≤ length xs
length-take-le-length zero xs = omega arith
length-take-le-length (suc n) [] = omega arith
length-take-le-length (suc n) (x ∷ xs) = omega (arith, length-take-le-length n xs)

-- The disk after one byte that is taken.
abbrev with_byte : String → ℕ → Disk → Disk
with_byte path b d =
    write_file path (some (or_empty (d.files path) ++ b ∷ []))
      (record d { faults = rest_of d.faults })

append_all-keeps :
    (path p : String) (bytes : Bytes) (d : Disk)
    → p ≢ path
    → (append_all path bytes d).1.files p ≡ d.files p
append_all-keeps path p [] d n = refl
append_all-keeps path p (b ∷ bs) d n = elim (Bool-cases (next_fault d.faults)) [
  | inl refused ↦ rw refused
  | inr taken ↦
      rw taken
        (append_all-keeps path p bs (with_byte path b d) n ∙ ground (arith, eq_iff p path, n))
]

append_all-writes :
    (path : String) (content bytes : Bytes) (d : Disk)
    → d.files path ≡ some content
    → (append_all path bytes d).0 ≡ ok tt
    → (append_all path bytes d).1.files path ≡ some (content ++ bytes)
append_all-writes path content [] d has h = rw (append-nil content) has
append_all-writes path content (b ∷ bs) d has h = elim (Bool-cases (next_fault d.faults)) [
  | inl refused ↦ cc (rw refused at h)
  | inr taken ↦ rw taken (
      append_all-writes path (content ++ b ∷ []) bs (with_byte path b d)
        (ground (arith, eq_iff path path, has)) (rw taken at h)
      ∙ ap some (append_assoc content (b ∷ []) bs))
]

append_all-calm :
    (path : String) (bytes : Bytes) (d : Disk)
    → d.faults ≡ []
    → ((append_all path bytes d).0 ≡ ok tt) × ((append_all path bytes d).1.faults ≡ [])
append_all-calm path [] d calm = (refl, calm)
append_all-calm path (b ∷ bs) d calm =
    rw calm (append_all-calm path bs (record (with_byte path b d) { faults = [] }) refl)

-- The disk once the file is emptied.
abbrev emptied : String → Disk → Disk
emptied path d = write_file path (some []) (record d { faults = rest_of d.faults })

pub write_new-keeps :
    (path p : String) (bytes : Bytes) (d : Disk)
    → p ≢ path
    → (write_new path bytes d).1.files p ≡ d.files p
unfolding write_new
write_new-keeps path p bytes d n = elim (Bool-cases (next_fault d.faults)) [
  | inl refused ↦ rw refused
  | inr made ↦
      rw made (append_all-keeps path p bytes (emptied path d) n ∙ ground (arith, eq_iff p path, n))
]

write_new-writes :
    (path : String) (bytes : Bytes) (d : Disk)
    → (write_new path bytes d).0 ≡ ok tt
    → (write_new path bytes d).1.files path ≡ some bytes
unfolding write_new
write_new-writes path bytes d h = elim (Bool-cases (next_fault d.faults)) [
  | inl refused ↦ cc (rw refused at h)
  | inr made ↦ rw made (
      append_all-writes path [] bytes (emptied path d) (ground (arith, eq_iff path path))
        (rw made at h))
]

write_new-calm :
    (path : String) (bytes : Bytes) (d : Disk)
    → d.faults ≡ []
    → ((write_new path bytes d).0 ≡ ok tt) × ((write_new path bytes d).1.faults ≡ [])
unfolding write_new
write_new-calm path bytes d calm =
    rw calm (append_all-calm path bytes (record (emptied path d) { faults = [] }) refl)

-- Wherever the system refuses a call, be it after some of the bytes: a save succeeds and the file has
-- the new content, or it fails and the file is as it was.
pub atomic_save_all_or_nothing :
    (tmp path : String) (bytes : Bytes) (d : Disk)
    → tmp ≢ path
    → ((atomic_save tmp path bytes d).0 ≡ ok tt)
        × ((atomic_save tmp path bytes d).1.files path ≡ some bytes)
      ⊎ ((atomic_save tmp path bytes d).0 ≢ ok tt)
        × ((atomic_save tmp path bytes d).1.files path ≡ d.files path)
unfolding atomic_save
atomic_save_all_or_nothing tmp path bytes d ne =
    let kept = write_new-keeps tmp path bytes d (λ e. ne (sym e)) in
    elim (Result-cases (write_new tmp bytes d).0) [
      | inl (u, written) ↦ ground (
        arith,
        written,
        kept,
        write_new-writes tmp bytes d written,
        eq_iff tmp path,
        eq_iff path path,
        eq_iff tmp tmp,
        eq_iff path tmp,
      )
      | inr (e, failed) ↦ ground (arith, failed, kept)
    ]

pub atomic_save_calm :
    (tmp path : String) (bytes : Bytes) (d : Disk)
    → d.faults ≡ []
    → ((atomic_save tmp path bytes d).0 ≡ ok tt)
      × ((atomic_save tmp path bytes d).1.files path ≡ some bytes)
      × ((atomic_save tmp path bytes d).1.faults ≡ [])
unfolding atomic_save
atomic_save_calm tmp path bytes d calm =
    let c = write_new-calm tmp bytes d calm in
    ground (arith, c, write_new-writes tmp bytes d c.0, eq_iff path path)
