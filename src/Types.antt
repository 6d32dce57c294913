-- ===== src/Types.antt =====
-- The shared types of the firmware: main/include/zmk_usb_bridge/types.h, status.h, ble_command.h,
-- the report bodies of bridge.h and the candidate of pairing_filter.h. A status is an integer,
-- since the code casts error numbers of the Zephyr API to `zmk_usb_bridge_status_t`. An address
-- of the Bluetooth stack is its type and six bytes.
use zmk_usb_bridge.Prelude.{ℕ, zero, suc, Bool, true, false, List, Option}
use zmk_usb_bridge.Prelude.Int.{ℤ, pos, negsuc}

-- `zmk_usb_bridge_status_t`, and the `int` results of the Zephyr API that are cast to it.
abbrev pub Status : Type 0
Status = ℤ

abbrev pub ok : Status
ok = pos 0

abbrev pub invalid_argument : Status
invalid_argument = negsuc 0

abbrev pub invalid_state : Status
invalid_state = negsuc 1

abbrev pub not_found : Status
not_found = negsuc 2

abbrev pub no_memory : Status
no_memory = negsuc 3

abbrev pub queue_full : Status
queue_full = negsuc 4

abbrev pub size_mismatch : Status
size_mismatch = negsuc 5

-- `status == ZMK_USB_BRIDGE_STATUS_OK`, and `err == 0`.
abbrev pub is_ok : Status → Bool
is_ok (pos zero) = true
is_ok (pos (suc n)) = false
is_ok (negsuc n) = false

pub data Role : Type 0 where
  unknown keyboard_input consumer_input mouse_input mouse_feature led_output : Role

pub data State : Type 0 where
  boot usb_ready pairing_scan scanning_known_device connecting connected : State
  reconnecting_fast reconnecting_backoff recovery_required bond_erasing fatal_error : State

pub data EventType : Type 0 where
  none usb_ready ble_synced persist_ready_with_bond persist_ready_no_bond : EventType
  scan_started known_device_found pairing_candidate_found connect_success : EventType
  connect_failure security_ready hid_ready hid_failure disconnected host_reset : EventType
  bond_mismatch metadata_fault button_short_press button_long_press : EventType
  bond_erase_complete : EventType

pub data Reason : Type 0 where
  none connect_create_failed security_failed hid_service_missing hid_report_missing : Reason
  hid_subscribe_failed disconnected_remote disconnected_local disconnected_timeout : Reason
  bond_auth_mismatch bond_identity_mismatch bond_store_unavailable : Reason
  metadata_corrupted metadata_version_mismatch ble_bond_erase_failed : Reason
  metadata_erase_failed : Reason

pub data Command : Type 0 where
  none start_pairing_scan start_known_device_scan enter_reconnect_fast : Command
  enter_reconnect_backoff stop_scan erase_bonds : Command

pub record Event : Type 0 where
  pub type : EventType
  pub status_code : ℤ
  pub conn_handle : ℕ
  pub capability_flags : ℕ
  pub reason : Reason
  pub reserved : ℕ

pub record HogProfile : Type 0 where
  pub has_keyboard_input : Bool
  pub has_consumer_input : Bool
  pub has_mouse_input : Bool
  pub has_mouse_feature : Bool
  pub has_led_output : Bool

pub record MouseResolution : Type 0 where
  pub wheel : ℕ
  pub hor_wheel : ℕ

pub record PeerAddrSnapshot : Type 0 where
  pub valid : Bool
  pub addr_type : ℕ
  pub addr : List ℕ

pub record Metadata : Type 0 where
  pub metadata_version : ℕ
  pub identity_snapshot : PeerAddrSnapshot
  pub last_peer_snapshot : PeerAddrSnapshot

pub record KeyboardBody : Type 0 where
  pub modifiers : ℕ
  pub reserved : ℕ
  pub keys : List ℕ

pub record ConsumerBody : Type 0 where
  pub usage : ℕ

pub record MouseBody : Type 0 where
  pub buttons : ℕ
  pub dx : ℤ
  pub dy : ℤ
  pub scroll_y : ℤ
  pub scroll_x : ℤ

-- A candidate for pairing; its name is a pointer that may be NULL.
pub record PairingCandidate : Type 0 where
  pub connectable : Bool
  pub has_hid_service : Bool
  pub has_keyboard_appearance : Bool
  pub local_name : Option (List ℕ)

-- `bt_addr_le_t`.
pub record Addr : Type 0 where
  pub kind : ℕ
  pub val : List ℕ
