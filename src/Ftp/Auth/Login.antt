-- ===== src/Ftp/Auth/Login.antt =====
-- Who can log in, and what the session may then do.
use vnt_gui_dev.Prelude.{
  ◌≡◌, ◌≢◌, refl, String, Bool, true, List, [], ◌∷◌, ◌⊎◌, inl, inr, Option, none, some, eq_iff,
  str_eq, find, arith, Bool-cases, ok, err,
}
use vnt_gui_dev.Ftp.Config.{FtpUser}
use vnt_gui_dev.Ftp.Auth.{
  Server, Credentials, find_user, authenticate, provide_user_detail, unwrap_or,
}

abbrev pub Listed : FtpUser → List FtpUser → Type 0
Listed user [] = ⊥
Listed user (u ∷ us) = (u ≡ user) ⊎ Listed user us

found-Listed :
    (p : FtpUser → Bool) (us : List FtpUser) (user : FtpUser)
    → find p us ≡ some user
    → Listed user us × (p user ≡ true)
found-Listed p [] user h = absurd (cc h)
found-Listed p (u ∷ us) user h = elim (Bool-cases (p u)) [
  | inl yes_it ↦ let same : u ≡ user = cc (rw yes_it at h) in (inl same, rw (same) at yes_it)
  | inr other ↦ let rest = found-Listed p us user (rw other at h) in (inr rest.0, rest.1)
]

Option-cases : (o : Option FtpUser) → (o ≡ none) ⊎ ((user : FtpUser) × (o ≡ some user))
Option-cases none = inl refl
Option-cases (some user) = inr (user, refl)

-- The conditions of a login, and the session that it gives.
abbrev pub LogsIn : (time username name : String) → Credentials → Server → FtpUser → Type 0
LogsIn time username name creds s user =
    Listed user s.store.users
    × (user.username ≡ username)
    × (user.password ≢ "")
    × (creds.password ≡ some user.password)
    × (name ≡ username)
    × (provide_user_detail (authenticate time username creds s).1.store username
        ≡ ok (record {
          username = user.username;
          permissions = user.permissions;
          root_dir = s.store.root_dir;
          client_ip = creds.source_ip;
        }))

checked_login :
    (time username name : String) (creds : Credentials) (s : Server) (user : FtpUser)
    → find_user s.store username ≡ some user
    → (authenticate time username creds s).0 ≡ ok name
    → (user.password ≢ "")
      × (creds.password ≡ some user.password)
      × (name ≡ username)
      × (provide_user_detail (authenticate time username creds s).1.store username
          ≡ ok (record {
            username = user.username;
            permissions = user.permissions;
            root_dir = s.store.root_dir;
            client_ip = creds.source_ip;
          }))
unfolding authenticate provide_user_detail find_user
checked_login time username name creds s user found h = ground (
  arith,
  eq_iff user.password "",
  eq_iff user.password (unwrap_or creds.password ""),
  eq_iff username username,
)

unknown_fails :
    (time username name : String) (creds : Credentials) (s : Server)
    → find_user s.store username ≡ none
    → (authenticate time username creds s).0 ≢ ok name
unfolding authenticate
unknown_fails time username name creds s unknown h = ground (arith, unknown, h)

-- A login succeeds only for a user of the table, under this user's name, with a password that is
-- not empty and that is the one presented. The session of that name then has this user's
-- permissions, the root of the server as its home, and the address of the login.
pub login_is_checked :
    (time username name : String) (creds : Credentials) (s : Server)
    → (authenticate time username creds s).0 ≡ ok name
    → (user : FtpUser) × LogsIn time username name creds s user
unfolding find_user
login_is_checked time username name creds s h = elim (Option-cases (find_user s.store username)) [
  | inl unknown ↦ absurd (unknown_fails time username name creds s unknown h)
  | inr (user, found) ↦
      let l = found-Listed (λ u. str_eq u.username username) s.store.users user found in
      let c = checked_login time username name creds s user found h in
      (user, (l.0, (eq_iff user.username username).0 l.1, c.0, c.1, c.2, c.3))
]

-- A login that fails always fails with the same message, which does not tell an unknown name from
-- a wrong password, and leaves the users and the addresses as they were.
failed_login_is_uniform :
    (time username message : String) (creds : Credentials) (s : Server)
    → (authenticate time username creds s).0 ≡ err message
    → (message ≡ "用户名或密码错误") × ((authenticate time username creds s).1.store ≡ s.store)
unfolding authenticate
failed_login_is_uniform time username message creds s h = ground arith
