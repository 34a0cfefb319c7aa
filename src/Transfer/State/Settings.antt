-- ===== src/Transfer/State/Settings.antt =====
-- The settings of the file transfer: their file (src-tauri/src/file_transfer/config.rs), the commands
-- that change them, and their loading (mod.rs). The JSON text comes from serde_json: `encode` and
-- `decode` are arguments. The extensions of the filter are a set, here without its order.
pub mod Restart
use Prim.Native.String.{◌++◌ as ◌<>◌}
use vnt_gui_dev.Prelude.{
  ℕ, String, Bool, true, false, Option, none, some, List, [], ◌∷◌, Result, ok, err, str_eq,
  if◌then◌else◌,
}
use vnt_gui_dev.Transfer.Protocol.{Bytes}
use vnt_gui_dev.Transfer.Disk.{Disk, Io, IoError, read_all, atomic_save}
use vnt_gui_dev.Transfer.Filter.{FilterMode, whitelist, FileTypeFilter}
use vnt_gui_dev.Transfer.Manager.{new, set_size_threshold}
use vnt_gui_dev.Transfer.History as History
use vnt_gui_dev.Transfer.Protocol.{TransferRecord}
use vnt_gui_dev.Transfer.Receiver.Placement.{join}
use vnt_gui_dev.Transfer.State.{FileTransferState}

pub record FileTransferSettings : Type 0 where
  pub mode : FilterMode
  pub extensions : List String
  pub auto_accept : Bool
  pub threshold : ℕ
  pub save_dir : String

abbrev pub default_threshold : ℕ
default_threshold = 104857600

abbrev pub config_file : String
config_file = "file_transfer_config.json"

abbrev pub save_dir_name : String
save_dir_name = "file_transfers"

unfoldable pub to_filter : FileTransferSettings → FileTypeFilter
to_filter settings = record { mode = settings.mode; extensions = settings.extensions }

-- What `persist_settings` and `file_get_settings` collect.
unfoldable pub settings_of : FileTransferState → FileTransferSettings
settings_of s = record {
  mode = s.filter.mode;
  extensions = s.filter.extensions;
  auto_accept = s.auto_accept;
  threshold = s.threshold;
  save_dir = s.save_dir;
}

module _ (encode : FileTransferSettings → Bytes) where
  unfoldable pub save : String → FileTransferSettings → Io (Unit {0})
  save config_dir settings =
      atomic_save (join config_dir (config_file <> ".tmp")) (join config_dir config_file)
        (encode settings)

  abbrev saved :
      FileTransferState
      → Result IoError (Unit {0}) × Disk
      → Result IoError (Unit {0}) × FileTransferState
  saved s (r, d) = (r, record s { disk = d })

  unfoldable pub persist_settings :
      FileTransferState → Result IoError (Unit {0}) × FileTransferState
  unfolding save settings_of
  persist_settings s = saved s (save s.config_dir (settings_of s) s.disk)

  -- The commands change the state first and keep the change if the save fails.
  unfoldable pub file_save_filter :
      FileTypeFilter → FileTransferState → Result IoError (Unit {0}) × FileTransferState
  file_save_filter f s = persist_settings (record s { filter = f })

  unfoldable pub file_set_threshold :
      ℕ → FileTransferState → Result IoError (Unit {0}) × FileTransferState
  file_set_threshold bytes s =
      persist_settings
        (record s { threshold = bytes; transfer_mgr = set_size_threshold bytes s.transfer_mgr })

  unfoldable pub file_set_auto_accept :
      Bool → FileTransferState → Result IoError (Unit {0}) × FileTransferState
  file_set_auto_accept enabled s = persist_settings (record s { auto_accept = enabled })

  -- `created` says whether the directory could be created.
  unfoldable pub file_set_save_dir :
      (String → String)
      → Bool
      → String
      → FileTransferState
      → Result String (Result IoError (Unit {0})) × FileTransferState
  file_set_save_dir trim created path s =
      if str_eq (trim path) ""
      then (err "保存路径为空", s)
      else if created
      then (let (r, s') = persist_settings (record s { save_dir = trim path }) in (ok r, s'))
      else (err "创建目录失败", s)

module _ (default_extensions : List String) (decode : Bytes → Option FileTransferSettings) where
  abbrev pub default_settings : FileTransferSettings
  default_settings = record {
    mode = whitelist;
    extensions = default_extensions;
    auto_accept = false;
    threshold = default_threshold;
    save_dir = "";
  }

  abbrev pub or_default : Option FileTransferSettings → FileTransferSettings
  or_default none = default_settings
  or_default (some settings) = settings

  abbrev pub loaded : Result IoError Bytes × Disk → FileTransferSettings × Disk
  loaded (ok content, d) = (or_default (decode content), d)
  loaded (err e, d) = (default_settings, d)

  -- A missing, unreadable or corrupt file gives the defaults.
  unfoldable pub load : String → Disk → FileTransferSettings × Disk
  load config_dir d = loaded (read_all (join config_dir config_file) d)

  -- `file_init`, where nothing fails: the settings, the history, an empty queue.
  unfoldable pub file_init :
      (Bytes → Option (List TransferRecord)) → (String → String) → String → Disk → FileTransferState
  unfolding load to_filter
  file_init decode_history trim config_dir d =
      let (settings, d1) = load config_dir d in
      let (history, d2) =
        History.load decode_history (join config_dir "transfer_history.json") d1 in
      record {
        transfer_mgr = new 3 settings.threshold;
        history = history;
        filter = to_filter settings;
        auto_accept = settings.auto_accept;
        threshold = settings.threshold;
        config_dir = config_dir;
        save_dir =
            if str_eq (trim settings.save_dir) ""
            then join config_dir save_dir_name
            else settings.save_dir;
        pending = [];
        cancel_flags = [];
        disk = d2;
        log = [];
      }
