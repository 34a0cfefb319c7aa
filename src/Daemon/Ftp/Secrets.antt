-- ===== src/Daemon/Ftp/Secrets.antt =====
-- The passwords of the FTP users, from the RPC into the store and back after a restart.
use vnt_gui_dev.Prelude.{◌≡◌, refl, String, false, List, [], ◌∷◌, arith, str_eq, eq_iff, All, ok}
use vnt_gui_dev.Ftp.Config.{FtpUser}
use vnt_gui_dev.Daemon.Ftp.{Keyring, put_password, set_passwords, fill_passwords}

-- The users as they are written to the file: without their passwords.
abbrev pub without_passwords : List FtpUser → List FtpUser
without_passwords [] = []
without_passwords (u ∷ us) = record u { password = "" } ∷ without_passwords us

abbrev pub Distinct : List FtpUser → Type 0
Distinct [] = Unit
Distinct (u ∷ us) = All (λ v. str_eq u.username v.username ≡ false) us × Distinct us

set_passwords_keeps :
    (name : String) (us : List FtpUser) (k : Keyring)
    → All (λ v. str_eq name v.username ≡ false) us
    → (set_passwords us k).1.passwords name ≡ k.passwords name
set_passwords_keeps name [] k h = refl
set_passwords_keeps name (u ∷ us) k h =
    ground (arith, set_passwords_keeps name us (put_password u.username u.password k) h.1, h.0)

-- When all the passwords could be stored, the users that are read back from a file without
-- passwords get exactly the passwords that they had.
passwords_survive_restart :
    (us : List FtpUser) (k : Keyring)
    → Distinct us
    → (set_passwords us k).0 ≡ ok tt
    → fill_passwords (set_passwords us k).1 (without_passwords us) ≡ ok us
passwords_survive_restart [] k d h = refl
passwords_survive_restart (u ∷ us) k d h =
    let k' = put_password u.username u.password k in
    ground (
      arith,
      h,
      passwords_survive_restart us k' d.1,
      set_passwords_keeps u.username us k' d.0,
      eq_iff u.username u.username,
      eq_iff u.password "",
      eq_iff "" "",
    )
