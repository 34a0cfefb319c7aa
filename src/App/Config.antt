-- ===== src/App/Config.antt =====
-- The saved configurations of VNT (src-tauri/src/config.rs). The clock's text and the fresh UUID of
-- an operation are its arguments.
pub mod Laws
use vnt_gui_dev.Prelude.{
  ℕ, String, Bool, true, false, not, Option, none, some, List, [], ◌∷◌, ◌++◌, str_eq, if◌then◌else◌,
  find, filter, any, update_first, head?,
}

pub record VntConfig : Type 0 where
  pub id : String
  pub name : String
  pub token : String
  pub device_name : Option String
  pub device_id : Option String
  pub virtual_ip : Option String
  pub server_address : Option String
  pub password : Option String
  pub server_encrypt : Bool
  pub in_ips : List String
  pub out_ips : List String
  pub compressor : Option String
  pub mtu : Option ℕ
  pub use_tcp : Bool
  pub use_ws : Bool
  pub no_proxy : Bool
  pub created_at : String
  pub updated_at : String
  pub last_used : Option String

-- `VntConfig::new`
unfoldable pub new_config : (now uuid name token : String) → VntConfig
new_config now uuid name token = record {
  id = uuid;
  name = name;
  token = token;
  device_name = none;
  device_id = none;
  virtual_ip = none;
  server_address = none;
  password = none;
  server_encrypt = false;
  in_ips = [];
  out_ips = [];
  compressor = none;
  mtu = none;
  use_tcp = false;
  use_ws = false;
  no_proxy = false;
  created_at = now;
  updated_at = now;
  last_used = none;
}

pub record ConfigStore : Type 0 where
  pub active_config_id : Option String
  pub configs : List VntConfig

abbrev pub empty_store : ConfigStore
empty_store = record { active_config_id = none; configs = [] }

abbrev pub has_id : String → VntConfig → Bool
has_id id c = str_eq c.id id

-- `get`
unfoldable pub get : String → ConfigStore → Option VntConfig
get id s = find (has_id id) s.configs

unfoldable pub add_or_update : (now uuid : String) → VntConfig → ConfigStore → ConfigStore
add_or_update now uuid config s =
    let config' = record config { updated_at = now } in
    if any (has_id config.id) s.configs
    then record s { configs = update_first (has_id config.id) (λ _. config') s.configs }
    else record s { configs = s.configs ++ record config' { id = uuid; created_at = now } ∷ [] }

abbrev pub id_of : Option VntConfig → Option String
id_of none = none
id_of (some c) = some c.id

abbrev pub is_active_id : Option String → String → Bool
is_active_id none id = false
is_active_id (some a) id = str_eq a id

unfoldable pub delete : String → ConfigStore → ConfigStore
delete id s =
    let configs = filter (λ c. not (has_id id c)) s.configs in
    record {
      active_config_id =
          if is_active_id s.active_config_id id then id_of (head? configs) else s.active_config_id;
      configs = configs;
    }

unfoldable pub set_active : (now id : String) → ConfigStore → ConfigStore
set_active now id s =
    if any (has_id id) s.configs
    then record {
      active_config_id = some id;
      configs = update_first (has_id id) (λ c. record c { last_used = some now }) s.configs;
    }
    else s

abbrev get_by : Option String → ConfigStore → Option VntConfig
get_by none s = none
get_by (some id) s = find (has_id id) s.configs

unfoldable pub get_active : ConfigStore → Option VntConfig
get_active s = get_by s.active_config_id s
