-- ===== src/Transfer/Receiver/Placement/Conflict.antt =====
-- What find_duplicate and resolve_conflict may answer.
use vnt_gui_dev.Prelude.{
  ℕ, ◌+◌, ◌^◌, ◌≤◌, ◌≡◌, refl, sym, ◌∙◌, String, true, false, not, ◌||◌, some, List, arith, eq_iff,
  Bool-cases, length, Result, ok, err, ◌⊎◌, inl, inr, ◌==◌,
}
use vnt_gui_dev.Transfer.Protocol.{Bytes, FileOffer}
use vnt_gui_dev.Transfer.Disk.{Disk, IoError, exists, metadata_len, read_all}
use vnt_gui_dev.Transfer.Receiver.{partial_for}
use vnt_gui_dev.Transfer.Receiver.Integrity.{HasHash}
use vnt_gui_dev.Transfer.Receiver.Placement.{
  join, parent_and_name, same_hash, hashed, sized, find_duplicate, resolve_conflict,
}
use vnt_gui_dev.Transfer.Receiver.Placement.Fresh.{PrintsApart, Lists, resolve_save_path_is_fresh}

pub read_all_files : (path p : String) (d : Disk) → (read_all path d).1.files p ≡ d.files p
read_all_files path p d = ground arith

metadata_len_files : (path p : String) (d : Disk) → (metadata_len path d).1.files p ≡ d.files p
metadata_len_files path p d = ground arith

read_all_found :
    (path : String) (c : Bytes) (d : Disk) → (read_all path d).0 ≡ ok c → d.files path ≡ some c
read_all_found path c d h = ground arith

-- A hash that agrees is that of a content that was read.
same_hash-HasHash :
    (hash_hex : Bytes → String) (offer : FileOffer) (path : String) (r : Result IoError Bytes)
    (d : Disk)
    → ((c : Bytes) → r ≡ ok c → d.files path ≡ some c)
    → same_hash hash_hex offer r ≡ true
    → HasHash hash_hex offer.file_hash_hex path d
same_hash-HasHash hash_hex offer path (err e) d read h = cc
same_hash-HasHash hash_hex offer path (ok c) d read h = (c, read c refl, (eq_iff _ _).0 h)

-- The target is the answer, and has the hash.
abbrev Honest : (Bytes → String) → FileOffer → String → String → Disk → Type 0
Honest hash_hex offer target p d = (p ≡ target) × HasHash hash_hex offer.file_hash_hex target d

hashed-Honest :
    (hash_hex : Bytes → String) (offer : FileOffer) (target p : String) (r : Result IoError Bytes)
    (d d' : Disk)
    → ((c : Bytes) → r ≡ ok c → d.files target ≡ some c)
    → (hashed hash_hex offer target (r, d')).0 ≡ some p
    → Honest hash_hex offer target p d
hashed-Honest hash_hex offer target p r d d' read h =
    elim (Bool-cases (same_hash hash_hex offer r)) [
      | inl same ↦ (cc (rw same at h), same_hash-HasHash hash_hex offer target r d read same)
      | inr other ↦ cc (rw other at h)
    ]

sized-Honest :
    (hash_hex : Bytes → String) (offer : FileOffer) (target p : String) (r : Result IoError ℕ)
    (d d' : Disk)
    → d'.files target ≡ d.files target
    → (sized hash_hex offer target (r, d')).0 ≡ some p
    → Honest hash_hex offer target p d
sized-Honest hash_hex offer target p (err e) d d' same h =
    hashed-Honest hash_hex offer target p (read_all target d').0 d (read_all target d').1
      (λ c e. sym same ∙ read_all_found target c d' e) h
sized-Honest hash_hex offer target p (ok n) d d' same h = elim (Bool-cases (n == offer.file_size)) [
  | inr differ ↦ cc (rw differ at h)
  | inl fits ↦
      hashed-Honest hash_hex offer target p (read_all target d').0 d (read_all target d').1
        (λ c e. sym same ∙ read_all_found target c d' e) (rw fits at h)
]

hashed_files :
    (hash_hex : Bytes → String) (offer : FileOffer) (target p : String) (d : Disk)
    → (hashed hash_hex offer target (read_all target d)).1.files p ≡ d.files p
hashed_files hash_hex offer target p d = read_all_files target p d

sized_files :
    (hash_hex : Bytes → String) (offer : FileOffer) (target p : String) (r : Result IoError ℕ)
    (d : Disk)
    → (sized hash_hex offer target (r, d)).1.files p ≡ d.files p
sized_files hash_hex offer target p (err e) d = hashed_files hash_hex offer target p d
sized_files hash_hex offer target p (ok n) d = elim (Bool-cases (n == offer.file_size)) [
  | inl fits ↦ rw fits (hashed_files hash_hex offer target p d)
  | inr differ ↦ rw differ
]

-- The look-up changes no file.
pub find_duplicate_files :
    (hash_hex : Bytes → String) (dir : String) (offer : FileOffer) (p : String) (d : Disk)
    → (find_duplicate hash_hex dir offer d).1.files p ≡ d.files p
unfolding find_duplicate
find_duplicate_files hash_hex dir offer p d =
    let target = join dir offer.filename in
    elim (Bool-cases (not (exists target d) || exists (partial_for target) d)) [
      | inl skip ↦ rw skip
      | inr look ↦ rw look (
          sized_files hash_hex offer target p (metadata_len target d).0 (metadata_len target d).1
          ∙ metadata_len_files target p d)
    ]

-- A file that find_duplicate takes for the offered one stands under the offered name in the
-- directory, its content has the offered hash, and there is no partial file beside it.
find_duplicate_is_honest :
    (hash_hex : Bytes → String) (dir : String) (offer : FileOffer) (p : String) (d : Disk)
    → (find_duplicate hash_hex dir offer d).0 ≡ some p
    → (p ≡ join dir offer.filename)
      × HasHash hash_hex offer.file_hash_hex p d
      × (exists (partial_for p) d ≡ false)
unfolding find_duplicate
find_duplicate_is_honest hash_hex dir offer p d h =
    let target = join dir offer.filename in
    elim (Bool-cases (exists target d)) [
      | inr gone ↦ cc (rw gone at h)
      | inl there ↦ elim (Bool-cases (exists (partial_for target) d)) [
        | inl partial ↦ cc (rw (there, partial) at h)
        | inr complete ↦
            let found =
              sized-Honest hash_hex offer target p (metadata_len target d).0 d
                (metadata_len target d).1 (metadata_len_files target target d)
                (rw (there, complete) at h) in
            (found.0, rw found.0 found.1, rw found.0 complete)
      ]
    ]

-- What resolve_conflict may settle on: the path that was asked for, which is free, or is in use with a
-- partial file beside it or with a content of the offered hash; or else another path, which is
-- free, while the content at the path that was asked for is of another hash.
abbrev pub Settled : (Bytes → String) → FileOffer → String → String → Disk → Type 0
Settled hash_hex offer save_path p d =
    ((p ≡ save_path) × (exists save_path d ≡ false))
    ⊎ ((p ≡ save_path) × (exists save_path d ≡ true) × (exists (partial_for save_path) d ≡ true))
    ⊎ ((p ≡ save_path)
        × (exists (partial_for save_path) d ≡ false)
        × HasHash hash_hex offer.file_hash_hex save_path d)
    ⊎ ((exists p d ≡ false)
        × (exists save_path d ≡ true)
        × (exists (partial_for save_path) d ≡ false)
        × (same_hash hash_hex offer (read_all save_path d).0 ≡ false))

-- While less than 2^31 - 1 paths are in use and the prints of the numbers are distinct,
-- resolve_conflict ends with a path. It gives up the path that was asked for only if something is
-- there, with no partial file beside it, whose content could not be read or is not of the offered
-- hash, and then for a free path.
pub resolve_conflict_settles :
    (print : ℕ → String) (hash_hex : Bytes → String) (save_path : String) (offer : FileOffer)
    (occupied : List String) (d : Disk)
    → PrintsApart print
    → Lists occupied d
    → length occupied + 2 ≤ 2 ^ 31
    → (p : String) × ((resolve_conflict hash_hex print (length occupied + 1) save_path offer d).0
        ≡ some p)
      × Settled hash_hex offer save_path p d
unfolding resolve_conflict
resolve_conflict_settles print hash_hex save_path offer occupied d apart lists few =
    elim (Bool-cases (exists save_path d)) [
      | inr gone ↦ (save_path, rw gone, inl (refl, gone))
      | inl there ↦ elim (Bool-cases (exists (partial_for save_path) d)) [
        | inl beside ↦ (save_path, rw (there, beside), inr (inl (refl, there, beside)))
        | inr complete ↦ elim (Bool-cases (same_hash hash_hex offer (read_all save_path d).0)) [
          | inl same ↦ (
            save_path,
            rw (there, complete, same),
            inr (
                inr (
                  inl (
                    refl,
                    complete,
                    same_hash-HasHash hash_hex offer save_path _ d
                        (λ c e. read_all_found save_path c d e) same,
                  ))),
          )
          | inr other ↦
              let d' = (read_all save_path d).1 in
              let parts = parent_and_name save_path in
              let fresh =
                resolve_save_path_is_fresh print parts.0 parts.1 occupied d' apart
                  (λ p h. lists p (rw (read_all_files save_path p d) at h)) few in
              (
                fresh.path,
                rw (there, complete, other) fresh.returned,
                inr (
                    inr (
                      inr (
                        rw (read_all_files save_path fresh.path d) at fresh.free,
                        there,
                        complete,
                        other,
                      ))),
              )
        ]
      ]
    ]
