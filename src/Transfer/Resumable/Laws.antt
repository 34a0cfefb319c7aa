-- ===== src/Transfer/Resumable/Laws.antt =====
-- What the operations on partial files do, with and without refused calls.
use vnt_gui_dev.Prelude.{
  ℕ, ◌+◌, ◌≤◌, ◌≡◌, ◌≢◌, String, none, some, [], arith, length, ok, err, eq_iff, ◌⊎◌,
}
use vnt_gui_dev.Transfer.Protocol.{Bytes}
use vnt_gui_dev.Transfer.Disk.{Disk, IoError, Handle, or_empty, splice}
use vnt_gui_dev.Transfer.Resumable.{validate_resume, finalize, write_chunk}

validate_resume_fits :
    (path : String) (n r : ℕ) (d : Disk) → (validate_resume path n d).0 ≡ ok r → r ≤ n
unfolding validate_resume
validate_resume_fits path n r d h = ground arith

validate_resume-eq-length :
    (path : String) (n : ℕ) (d : Disk)
    → d.faults ≡ []
    → (validate_resume path n d).0
      ≡ ok (length (or_empty ((validate_resume path n d).1.files path)))
unfolding validate_resume
validate_resume-eq-length path n d h = ground (arith, eq_iff path path)

finalize_moves :
    (partial final : String) (content : Bytes) (d : Disk)
    → d.faults ≡ []
    → partial ≢ final
    → d.files partial ≡ some content
    → ((finalize partial final d).0 ≡ ok tt)
      × ((finalize partial final d).1.files final ≡ some content)
      × ((finalize partial final d).1.files partial ≡ none)
unfolding finalize
finalize_moves partial final content d nf ne h =
    ground (
      arith,
      eq_iff partial final,
      eq_iff partial partial,
      eq_iff final final,
      eq_iff final partial,
    )

finalize_error_keeps :
    (partial final : String) (e : IoError) (d : Disk)
    → partial ≢ final
    → (finalize partial final d).0 ≡ err e
    → (finalize partial final d).1.files partial ≡ d.files partial
unfolding finalize
finalize_error_keeps partial final e d ne h = ground (arith, eq_iff partial final)

-- A chunk that is written leaves the open file's content with the bytes spliced in.
pub write_chunk_ok :
    (bytes : Bytes) (off : ℕ) (file file' : Handle) (d : Disk)
    → (write_chunk bytes off file d).0 ≡ ok file'
    → (file'.path ≡ file.path)
      × (or_empty ((write_chunk bytes off file d).1.files file.path)
          ≡ splice off bytes (or_empty (d.files file.path)))
unfolding write_chunk
write_chunk_ok bytes off file file' d h = ground (arith, eq_iff file.path file.path)

-- A write that is refused, before or after the bytes went out, does one of two things.
pub write_chunk_cases :
    (bytes : Bytes) (off : ℕ) (file : Handle) (d : Disk)
    → (or_empty ((write_chunk bytes off file d).1.files file.path) ≡ or_empty (d.files file.path))
      ⊎ (or_empty ((write_chunk bytes off file d).1.files file.path)
          ≡ splice off bytes (or_empty (d.files file.path)))
unfolding write_chunk
write_chunk_cases bytes off file d = ground (arith, eq_iff file.path file.path)

pub finalize_ok :
    (partial final : String) (u : Unit {0}) (d : Disk)
    → partial ≢ final
    → (finalize partial final d).0 ≡ ok u
    → ((finalize partial final d).1.files final ≡ d.files partial)
      × ((finalize partial final d).1.files partial ≡ none)
      × (d.files partial ≢ none)
unfolding finalize
finalize_ok partial final u d ne h =
    ground (
      arith,
      eq_iff partial final,
      eq_iff partial partial,
      eq_iff final final,
      eq_iff final partial,
    )

-- With no refused call, a partial file that is not too long is kept and its length returned.
pub validate_resume_keeps :
    (path : String) (n : ℕ) (c : Bytes) (d : Disk)
    → d.faults ≡ []
    → d.files path ≡ some c
    → length c ≤ n
    → ((validate_resume path n d).0 ≡ ok (length c))
      × ((validate_resume path n d).1.files path ≡ some c)
unfolding validate_resume
validate_resume_keeps path n c d nf held le = ground (arith, eq_iff path path)

pub write_chunk_calm :
    (bytes : Bytes) (off : ℕ) (file : Handle) (d : Disk)
    → d.faults ≡ []
    → ((write_chunk bytes off file d).0 ≡ ok (record file { pos = off + length bytes }))
      × ((write_chunk bytes off file d).1.faults ≡ [])
unfolding write_chunk
write_chunk_calm bytes off file d nf = ground arith
