-- ===== src/Transfer/History/Reload.antt =====
-- What a restart of the application finds of the history.
use vnt_gui_dev.Prelude.{
  ℕ, ◌+◌, ◌%◌, ◌^◌, ◌<◌, ◌≡◌, refl, String, Option, some, List, [], ◌∷◌, ◌++◌, arith, All,
}
use vnt_gui_dev.Transfer.Protocol.{Bytes, TransferRecord}
use vnt_gui_dev.Transfer.Disk.{Disk, atomic_save}
use vnt_gui_dev.Transfer.Disk.Laws.{atomic_save_calm}
use vnt_gui_dev.Transfer.History.{HistoryStore, load, push, pushed, persist, max_id, tmp_path}
use vnt_gui_dev.Transfer.History.Ids.{IsValid}

max_id_snoc :
    (n : ℕ) (rs : List TransferRecord) (r : TransferRecord)
    → All (λ u. u.id < n) rs
    → r.id ≡ n
    → max_id (rs ++ r ∷ []) ≡ n
max_id_snoc n [] r h e = ground arith
max_id_snoc n (u ∷ rs) r h e = ground (arith, max_id_snoc n rs r h.1 e, h.0)

load_found :
    (decode : Bytes → Option (List TransferRecord)) (path : String) (d : Disk) (content : Bytes)
    (rs : List TransferRecord)
    → d.faults ≡ []
    → d.files path ≡ some content
    → decode content ≡ some rs
    → (load decode path d).0
      ≡ record { path = path; records = rs; next_id = (max_id rs + 1) % 2 ^ 64 }
unfolding load
load_found decode path d content rs calm found dec = ground arith

-- Where no call of the system fails, JSON text reads back as it was written, and the ids still have
-- room in 64 bits: after a record is pushed onto a valid history, a restart finds exactly the store
-- that the application holds, the next id included.
pub push_survives_restart :
    (encode : List TransferRecord → Bytes) (decode : Bytes → Option (List TransferRecord))
    (rec : TransferRecord) (s : HistoryStore) (d : Disk)
    → IsValid s
    → s.next_id + 1 < 2 ^ 64
    → d.faults ≡ []
    → decode (encode (pushed rec s).records) ≡ some (pushed rec s).records
    → (load decode s.path (push encode rec s d).2).0 ≡ (push encode rec s d).1
unfolding push persist pushed
push_survives_restart encode decode rec s d v room calm dec =
    let bytes = encode (pushed rec s).records in
    let saved = atomic_save_calm (tmp_path s.path) s.path bytes d calm in
    let m = max_id_snoc s.next_id s.records (record rec { id = s.next_id }) v.below refl in
    let l =
      load_found decode s.path (atomic_save (tmp_path s.path) s.path bytes d).1 bytes
        (pushed rec s).records saved.2 saved.1 dec in
    ground (arith, saved.0, l, m)
