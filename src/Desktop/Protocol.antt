-- ===== src/Desktop/Protocol.antt =====
-- The messages of a desktop session (src-tauri/src/desktop_share/protocol.rs), what a connection
-- receives (network.rs) and the errors (error.rs). A signed coordinate is its 32-bit pattern.
use Prim.Native.String.{◌++◌ as ◌<>◌}
use vnt_gui_dev.Prelude.{ℕ, String, Bool, List}

pub data SpecialKeyKind : Type 0 where
  ctrl_alt_del : SpecialKeyKind
  alt_tab : SpecialKeyKind
  win_key : SpecialKeyKind
  task_manager : SpecialKeyKind

pub data InputEvent : Type 0 where
  mouse_move : ℕ → ℕ → InputEvent
  mouse_button : ℕ → Bool → InputEvent
  mouse_scroll : ℕ → ℕ → InputEvent
  key_down : String → InputEvent
  key_up : String → InputEvent
  special_key : SpecialKeyKind → InputEvent
  clipboard_text : String → InputEvent

pub record ClientCapabilities : Type 0 where
  pub mouse : Bool
  pub keyboard : Bool
  pub clipboard : Bool
  pub view_only : Bool

pub record GrantedCapabilities : Type 0 where
  pub mouse : Bool
  pub keyboard : Bool
  pub clipboard : Bool
  pub view_only : Bool

pub record ScreenInfo : Type 0 where
  pub width : ℕ
  pub height : ℕ
  pub dpi : ℕ
  pub monitor_count : ℕ

pub data ControlMsg : Type 0 where
  connect_request : String → String → ClientCapabilities → ControlMsg
  connect_accept : GrantedCapabilities → ScreenInfo → ControlMsg
  connect_reject : String → ControlMsg
  disconnected : String → ControlMsg
  config_update : ℕ → ℕ → ℕ → ℕ → ControlMsg
  ping : ℕ → ControlMsg
  pong : ℕ → ControlMsg
  screen_changed : ℕ → ℕ → ControlMsg

pub record VideoFrameHeader : Type 0 where
  pub pts : ℕ
  pub is_keyframe : Bool
  pub width : ℕ
  pub height : ℕ
  pub data_len : ℕ

pub data RecvMessage : Type 0 where
  control : ControlMsg → RecvMessage
  input : InputEvent → RecvMessage
  clipboard : String → RecvMessage
  video : VideoFrameHeader → List ℕ → RecvMessage

pub data DesktopError : Type 0 where
  network : String → DesktopError
  connection : String → DesktopError
  protocol : String → DesktopError
  capture : String → DesktopError
  input_failed : String → DesktopError
  config : String → DesktopError

abbrev pub error_text : DesktopError → String
error_text (network m) = "网络错误: " <> m
error_text (connection m) = "连接错误: " <> m
error_text (protocol m) = "协议错误: " <> m
error_text (capture m) = "捕获错误: " <> m
error_text (input_failed m) = "输入模拟错误: " <> m
error_text (config m) = "配置错误: " <> m
