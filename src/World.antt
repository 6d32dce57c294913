-- ===== src/World.antt =====
-- The static variables of the modules of main/src/, each file's in a record of its own, and the
-- boundary to the Zephyr kernel, its Bluetooth and USB stacks and the GPIO driver. That code is no
-- part of the repository: a call of it is written to a log, and what it returns is a function of
-- the call and of the log before it, a parameter of every definition that depends on it. The log
-- is newest first.
use zmk_usb_bridge.Prelude.{ℕ, Bool, List, ◌∷◌, Option, if◌then◌else◌}
use zmk_usb_bridge.Prelude.Int.{ℤ}
use zmk_usb_bridge.Types.{
  Status, ok, is_ok, Role, State, Event, HogProfile, MouseResolution, Metadata, KeyboardBody,
  ConsumerBody, MouseBody, Addr,
}

-- The delayable work items of the firmware, and the pins of the recovery UI.
pub data Work : Type 0 where
  led_work button_debounce_work button_hold_work : Work
  attempt_work visibility_work connect_timeout_work : Work

pub data Pin : Type 0 where
  led_red led_green led_blue recovery_button : Pin

-- A call of the platform. `expired` is the platform's own entry: the work item's handler starts.
pub data Call : Type 0 where
  reschedule : Work → ℕ → Call
  cancel expired : Work → Call
  device_ready pin_configure : Pin → Call
  interrupt_configure add_callback : Call
  set_leds : Bool → Bool → Bool → Call
  event_thread_create input_thread_create : Call
  event_put : Event → Call
  input_put : Role → List ℕ → Call
  input_purge : Call
  bt_enable settings_load auth_info_register scan_cb_register conn_cb_register unpair : Call
  scan_start : (active filtered : Bool) → Call
  scan_stop accept_list_clear uptime_get : Call
  accept_list_add conn_create : Addr → Call
  conn_disconnect : (conn reason : ℕ) → Call
  conn_ref conn_unref set_security : (conn : ℕ) → Call
  hid_register hid_proto_code hid_init usb_enable : Call
  sem_take sem_give sem_reset : Call
  hid_write : List ℕ → Call
  discover_primary : (conn : Option ℕ) → Call
  discover_characteristics discover_descriptors :
      (conn : Option ℕ) → (start_handle end_handle : ℕ) → Call
  gatt_read : (conn : Option ℕ) → (handle : ℕ) → Call
  gatt_subscribe : (conn : Option ℕ) → (value_handle ccc_handle : ℕ) → Call
  gatt_write : (conn handle : ℕ) → List ℕ → Call

-- What the platform answers. A bound device is `device_get_binding` not NULL, a thread or a
-- connection is made if the call's result is 0, `written` is what `hid_int_ep_write` puts into
-- `wrote`, and `bonds` is what `bt_foreach_bond` visits.
-- The two times are `CONFIG_ZMK_USB_BRIDGE_RECOVERY_BUTTON_DEBOUNCE_MS` and `..._LONG_PRESS_MS`.
pub record Platform : Type 0 where
  pub result : Call → List Call → ℤ
  pub hid_bound : List Call → Bool
  pub written : List ℕ → List Call → ℕ
  pub bonds : List Call → List Addr
  pub addr_eq : Addr → Addr → Bool
  pub new_conn : List Call → ℕ
  pub conn_index : ℕ → ℕ
  pub conn_dst : ℕ → List Call → Option Addr
  pub security_level : ℕ → List Call → ℕ
  pub uptime : List Call → ℕ
  pub button_level : List Call → ℤ
  pub debounce_ms : ℕ
  pub long_press_ms : ℕ

pub data ReconnectMode : Type 0 where
  idle fast backoff : ReconnectMode

pub record ReconnectState : Type 0 where
  pub mode : ReconnectMode
  pub peer_visible : Bool
  pub attempt_armed : Bool
  pub fast_attempt_index : ℕ
  pub backoff_delay_ms : ℤ

pub record PersistState : Type 0 where
  pub metadata : Metadata
  pub has_metadata : Bool

pub record UsbState : Type 0 where
  pub hid_dev : Bool
  pub usb_configured : Bool
  pub safe_state_pending : Bool

pub record BridgeState : Type 0 where
  pub keyboard : KeyboardBody
  pub consumer : ConsumerBody
  pub mouse : MouseBody
  pub input_active : Bool

pub record RuntimeState : Type 0 where
  pub ready : Bool
  pub bond_count : ℕ
  pub auth_info_registered : Bool

-- An advertiser in the scan cache. `local_name` is the C string in the array of 33 bytes.
pub record CandidateSlot : Type 0 where
  pub in_use : Bool
  pub reported : Bool
  pub addr : Addr
  pub connectable : Bool
  pub has_hid_service : Bool
  pub has_keyboard_appearance : Bool
  pub has_local_name : Bool
  pub last_seen_ms : ℕ
  pub local_name : List ℕ

pub record ScanState : Type 0 where
  pub callbacks_registered : Bool
  pub active : Bool
  pub pairing_mode : Bool
  pub cache : List CandidateSlot
  pub last_known_peer : Addr
  pub last_known_peer_valid : Bool

pub record ConnectionState : Type 0 where
  pub active_conn_handle : ℕ
  pub callbacks_registered : Bool
  pub active_conn : Option ℕ
  pub security_ready : Bool
  pub bond_mismatch_streak : ℕ
  pub connect_attempt_pending : Bool

pub record ReportBinding : Type 0 where
  pub value_handle : ℕ
  pub ccc_handle : ℕ
  pub report_id : ℕ
  pub report_type : ℕ
  pub role : Role
  pub subscribed : Bool

pub record ReportSlot : Type 0 where
  pub in_use : Bool
  pub properties : ℕ
  pub report_ref_handle : ℕ
  pub end_handle : ℕ
  pub binding : ReportBinding

pub record HogContext : Type 0 where
  pub discovery_active : Bool
  pub finalize_pending : Bool
  pub conn_handle : ℕ
  pub service_start_handle : ℕ
  pub service_end_handle : ℕ
  pub report_count : ℕ
  pub current_report_index : ℕ
  pub pending_subscriptions : ℕ
  pub conn : Option ℕ
  pub reports : List ReportSlot

pub record HogState : Type 0 where
  pub profile : HogProfile
  pub ctx : HogContext
  pub mouse_resolution : MouseResolution
  pub mouse_resolution_from_host : Bool
  pub input_thread_started : Bool

pub record UiState : Type 0 where
  pub ui_state : State
  pub blink_phase_on : Bool
  pub input_events_enabled : Bool
  pub button_stable_pressed : Bool
  pub button_long_press_fired : Bool

-- The allowlist of the pairing filter: the entries in use.
pub record FilterState : Type 0 where
  pub entries : List (List ℕ)

pub record World : Type 0 where
  pub calls : List Call
  pub event_thread_started : Bool
  pub reconnect : ReconnectState
  pub persist : PersistState
  pub usb : UsbState
  pub bridge : BridgeState
  pub runtime : RuntimeState
  pub scan : ScanState
  pub connection : ConnectionState
  pub hog : HogState
  pub ui : UiState
  pub filter : FilterState

-- A C function that returns a status, over the state `S`.
abbrev pub Op : Type 0 → Type 0
Op S = S → Status × S

-- `status = m(); if (status != OK) return status;`, then the rest.
infixl 5 ◌>>◌
abbrev pub ◌>>◌ : {S : Type 0} → Op S → Op S → Op S
◌>>◌ m k s = let (status, t) = m s in if is_ok status then k t else (status, t)

-- `return status;`.
abbrev pub give : {S : Type 0} → Status → Op S
give status s = (status, s)

-- A statement that cannot fail.
abbrev pub effect : {S : Type 0} → (S → S) → Op S
effect f s = (ok, f s)

-- `(void) m();`.
abbrev pub ignoring : {S : Type 0} → Op S → Op S
ignoring m s = (ok, (m s).1)

-- `if (test) { then-part } else { else-part }` over the state.
abbrev pub branch : {S : Type 0} → (S → Bool) → Op S → Op S → Op S
branch test yes_part no_part s = if test s then yes_part s else no_part s

-- A call whose result the code does not read.
abbrev pub log : Call → World → World
log c w = record w { calls = c ∷ w.calls }

-- A call whose `int` result becomes the status.
abbrev pub invoke : Platform → Call → Op World
invoke p c w = (p.result c w.calls, log c w)
