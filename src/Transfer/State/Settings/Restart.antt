-- ===== src/Transfer/State/Settings/Restart.antt =====
-- The settings after a change and a restart.
use text.Mathlib.TextLemmas.{length-append as count-append}
use Prim.Native.String.{◌++◌ as ◌<>◌}
use vnt_gui_dev.Prelude.{◌⊎◌, ℕ, ◌≡◌, String, Bool, true, Result, str_eq}
use vnt_gui_dev.Transfer.Protocol.{Bytes}
use vnt_gui_dev.Transfer.Disk.{Disk, IoError}
use vnt_gui_dev.Transfer.Filter.{FileTypeFilter}
use vnt_gui_dev.Transfer.Manager.{set_size_threshold}
use vnt_gui_dev.Transfer.State.{FileTransferState}
use vnt_gui_dev.Transfer.State.Settings.{
  FileTransferSettings, to_filter, file_save_filter, file_set_threshold, file_set_auto_accept,
}

-- The changes of the settings that the commands make.
pub data Change : Type 0 where
  filter_to : FileTypeFilter → Change
  threshold_to : ℕ → Change
  auto_accept_to : Bool → Change

unfoldable pub command :
    (FileTransferSettings → Bytes)
    → Change
    → FileTransferState
    → Result IoError (Unit {0}) × FileTransferState
unfolding file_save_filter file_set_threshold file_set_auto_accept
command encode (filter_to f) s = file_save_filter encode f s
command encode (threshold_to n) s = file_set_threshold encode n s
command encode (auto_accept_to b) s = file_set_auto_accept encode b s

-- What the state is to be after a command.
abbrev pub changed : Change → FileTransferState → FileTransferState
changed (filter_to f) s = record s { filter = f }
changed (threshold_to n) s = record s {
  threshold = n;
  transfer_mgr = set_size_threshold n s.transfer_mgr;
}
changed (auto_accept_to b) s = record s { auto_accept = b }

-- A restarted application has these settings.
pub record HasSettings (settings : FileTransferSettings) (trim : String → String)
    (r : FileTransferState) : Type 0 where
  pub filter : r.filter ≡ to_filter settings
  pub auto_accept : r.auto_accept ≡ settings.auto_accept
  pub threshold : r.threshold ≡ settings.threshold
  pub chooses : r.transfer_mgr.size_threshold ≡ settings.threshold
  pub save_dir : (r.save_dir ≡ settings.save_dir) ⊎ (str_eq (trim settings.save_dir) "" ≡ true)
