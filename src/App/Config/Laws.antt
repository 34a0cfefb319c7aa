-- ===== src/App/Config/Laws.antt =====
-- The saved configurations: no two with the same id, and the active one is among them.
use vnt_gui_dev.Prelude.{
  ◌≡◌, refl, sym, ◌∙◌, String, Bool, true, false, not, Option, none, some, List, [], ◌∷◌, ◌++◌,
  arith, str_eq, eq_iff, if◌then◌else◌, find, filter, any, head?, update_first, All, All-append,
  All-filter, Bool-cases, inl, inr,
}
use vnt_gui_dev.App.Config.{
  VntConfig, ConfigStore, has_id, get, add_or_update, delete, set_active, is_active_id, id_of,
}

abbrev pub Distinct : List VntConfig → Type 0
Distinct [] = Unit
Distinct (c ∷ cs) = All (λ u. str_eq u.id c.id ≡ false) cs × Distinct cs

abbrev pub is_listed : Option String → List VntConfig → Bool
is_listed none cs = true
is_listed (some id) cs = any (has_id id) cs

pub record IsValid (s : ConfigStore) : Type 0 where
  pub distinct : Distinct s.configs
  pub active : is_listed s.active_config_id s.configs ≡ true

Distinct-filter :
    (p : VntConfig → Bool) (cs : List VntConfig) → Distinct cs → Distinct (filter p cs)
Distinct-filter p [] h = tt
Distinct-filter p (c ∷ cs) h =
    ground (arith, Distinct-filter p cs h.1, All-filter (λ u. str_eq u.id c.id ≡ false) p cs h.0)

any-none :
    (id : String) (cs : List VntConfig)
    → any (has_id id) cs ≡ false
    → All (λ u. str_eq u.id id ≡ false) cs
any-none id [] h = tt
any-none id (c ∷ cs) h = ground (arith, any-none id cs)

Distinct-snoc :
    (cs : List VntConfig) (c : VntConfig)
    → Distinct cs
    → any (has_id c.id) cs ≡ false
    → Distinct (cs ++ c ∷ [])
Distinct-snoc [] c d h = (tt, tt)
Distinct-snoc (u ∷ cs) c d h = (
  All-append (λ v. str_eq v.id u.id ≡ false) cs (c ∷ []) d.0
      (ground (arith, eq_iff u.id c.id, eq_iff c.id u.id), tt),
  Distinct-snoc cs c d.1 (ground arith),
)

-- An update of the configuration with an id that keeps the id keeps who has which id.
module _ (id : String) (f : VntConfig → VntConfig)
    (keeps : (c : VntConfig) → str_eq c.id id ≡ true → (f c).id ≡ c.id) where
  All-update :
      (key : String) (cs : List VntConfig)
      → All (λ u. str_eq u.id key ≡ false) cs
      → All (λ u. str_eq u.id key ≡ false) (update_first (has_id id) f cs)
  All-update key [] h = tt
  All-update key (c ∷ cs) h = ground (arith, All-update key cs h.1, keeps c, h)

  Distinct-update : (cs : List VntConfig) → Distinct cs → Distinct (update_first (has_id id) f cs)
  Distinct-update [] h = tt
  Distinct-update (c ∷ cs) h = elim (Bool-cases (has_id id c)) [
    | inl e ↦ rw e (rw (keeps c e) h.0, h.1)
    | inr e ↦ rw e (All-update c.id cs h.0, Distinct-update cs h.1)
  ]

  any-update :
      (key : String) (cs : List VntConfig)
      → any (has_id key) (update_first (has_id id) f cs) ≡ any (has_id key) cs
  any-update key [] = refl
  any-update key (c ∷ cs) = ground (arith, any-update key cs, keeps c)

  find-update :
      (key : String) (cs : List VntConfig)
      → str_eq id key ≡ false
      → find (has_id key) (update_first (has_id id) f cs) ≡ find (has_id key) cs
  find-update key [] ne = refl
  find-update key (c ∷ cs) ne =
      ground (arith, find-update key cs ne, keeps c, eq_iff c.id id, eq_iff c.id key, eq_iff id key)

any-append :
    (key : String) (cs ds : List VntConfig)
    → any (has_id key) cs ≡ true
    → any (has_id key) (cs ++ ds) ≡ true
any-append key [] ds h = absurd (ground arith)
any-append key (c ∷ cs) ds h = ground (arith, any-append key cs ds)

any-filter :
    (key id : String) (cs : List VntConfig)
    → str_eq key id ≡ false
    → any (has_id key) (filter (λ c. not (has_id id c)) cs) ≡ any (has_id key) cs
any-filter key id [] ne = refl
any-filter key id (c ∷ cs) ne =
    ground (arith, any-filter key id cs ne, eq_iff c.id key, eq_iff c.id id, eq_iff key id)

any-head : (cs : List VntConfig) → is_listed (id_of (head? cs)) cs ≡ true
any-head [] = refl
any-head (c ∷ cs) = ground (arith, eq_iff c.id c.id)

str_eq→eq : (a b : String) → str_eq a b ≡ true → a ≡ b
str_eq→eq a b h = ground (arith, eq_iff a b)

is_listed-append :
    (o : Option String) (cs ds : List VntConfig)
    → is_listed o cs ≡ true
    → is_listed o (cs ++ ds) ≡ true
is_listed-append none cs ds h = refl
is_listed-append (some key) cs ds h = any-append key cs ds h

is_listed-update :
    (o : Option String) (id : String) (f : VntConfig → VntConfig)
    → ((c : VntConfig) → str_eq c.id id ≡ true → (f c).id ≡ c.id)
    → (cs : List VntConfig) → is_listed o (update_first (has_id id) f cs) ≡ is_listed o cs
is_listed-update none id f keeps cs = refl
is_listed-update (some key) id f keeps cs = any-update id f keeps key cs

pub add_or_update-IsValid :
    (now uuid : String) (config : VntConfig) (s : ConfigStore)
    → IsValid s
    → any (has_id uuid) s.configs ≡ false
    → IsValid (add_or_update now uuid config s)
unfolding add_or_update
add_or_update-IsValid now uuid config s v fresh =
    let updated = record config { updated_at = now } in
    let added = record updated { id = uuid; created_at = now } in
    let keeps : (c : VntConfig) → str_eq c.id config.id ≡ true → config.id ≡ c.id =
      λ c e. sym (str_eq→eq c.id config.id e) in
    elim (Bool-cases (any (has_id config.id) s.configs)) [
      | inl e ↦ rw e (record {
        distinct = Distinct-update config.id (λ _. updated) keeps s.configs v.distinct;
        active =
            is_listed-update s.active_config_id config.id (λ _. updated) keeps s.configs ∙ v.active;
      })
      | inr e ↦ rw e (record {
        distinct = Distinct-snoc s.configs added v.distinct fresh;
        active = is_listed-append s.active_config_id s.configs (added ∷ []) v.active;
      })
    ]

delete-active :
    (o : Option String) (id : String) (cs : List VntConfig)
    → is_listed o cs ≡ true
    → is_listed
        (if is_active_id o id then id_of (head? (filter (λ c. not (has_id id c)) cs)) else o)
        (filter (λ c. not (has_id id c)) cs)
      ≡ true
delete-active none id cs h = refl
delete-active (some key) id cs h = elim (Bool-cases (str_eq key id)) [
  | inl e ↦ rw e (any-head (filter (λ c. not (has_id id c)) cs))
  | inr e ↦ rw e (any-filter key id cs e ∙ h)
]

pub set_active-IsValid :
    (now id : String) (s : ConfigStore) → IsValid s → IsValid (set_active now id s)
unfolding set_active
set_active-IsValid now id s v =
    let f : VntConfig → VntConfig = λ c. record c { last_used = some now } in
    elim (Bool-cases (any (has_id id) s.configs)) [
      | inl e ↦ rw e (record {
        distinct = Distinct-update id f (λ c _. refl) s.configs v.distinct;
        active = any-update id f (λ c _. refl) id s.configs ∙ e;
      })
      | inr e ↦ rw e v
    ]

pub delete-IsValid : (id : String) (s : ConfigStore) → IsValid s → IsValid (delete id s)
unfolding delete
delete-IsValid id s v = record {
  distinct = Distinct-filter _ s.configs v.distinct;
  active = delete-active s.active_config_id id s.configs v.active;
}

-- Every change of the saved configurations, with a fresh id for a new one, keeps the ids distinct
-- and the active configuration among the saved ones.
config_changes-IsValid :
    (now uuid id : String) (config : VntConfig) (s : ConfigStore)
    → IsValid s
    → any (has_id uuid) s.configs ≡ false
    → IsValid (add_or_update now uuid config s)
      × IsValid (delete id s)
      × IsValid (set_active now id s)
config_changes-IsValid now uuid id config s v fresh = (
  add_or_update-IsValid now uuid config s v fresh,
  delete-IsValid id s v,
  set_active-IsValid now id s v,
)

find-filter :
    (id key : String) (cs : List VntConfig)
    → find (has_id key) (filter (λ c. not (has_id id c)) cs)
      ≡ (if str_eq id key then none else find (has_id key) cs)
find-filter id key [] = ground arith
find-filter id key (c ∷ cs) =
    ground (arith, find-filter id key cs, eq_iff c.id id, eq_iff c.id key, eq_iff id key)

head-filter :
    (id : String) (cs : List VntConfig)
    → is_active_id (id_of (head? (filter (λ c. not (has_id id c)) cs))) id ≡ false
head-filter id [] = refl
head-filter id (c ∷ cs) = ground (arith, head-filter id cs)

-- Deleting a configuration removes it and no other, and it is not the active one afterwards.
delete_removes :
    (id key : String) (s : ConfigStore)
    → (get key (delete id s) ≡ (if str_eq id key then none else get key s))
      × (is_active_id (delete id s).active_config_id id ≡ false)
unfolding get delete
delete_removes id key s = (find-filter id key s.configs, ground (arith, head-filter id s.configs))
