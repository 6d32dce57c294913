-- ===== src/Examples.antt =====
-- Concrete states, platforms and services, on which the theorems are applied.
mod MachineRuns
mod UsbRuns
mod RadioRuns
mod HogRuns
mod WholeDiscovery
mod DiscoveryRuns
mod LinkRuns
mod StartupRuns
mod UiRuns
use zmk_usb_bridge.Prelude.{
  ℕ, zero, suc, Bool, true, false, ◌&&◌, List, [], ◌∷◌, Option, none, some, ◌==◌, leb, length,
  if◌then◌else◌, replicate, refl,
}
use zmk_usb_bridge.Prelude.Int.{ℤ, pos}
use zmk_usb_bridge.Types.{
  Status, ok, is_ok, State, Event, EventType, Reason, Command, Addr, HogProfile, MouseResolution,
  Metadata, PeerAddrSnapshot,
}
use zmk_usb_bridge.World.{
  World, Platform, Call, conn_create, ReconnectMode, ReconnectState, HogContext,
}
use zmk_usb_bridge.Bridge.{empty_keyboard, empty_consumer, empty_mouse}
use zmk_usb_bridge.Machine.{Services, Machine, Sys}

abbrev pub keyboard_addr : Addr
keyboard_addr = record { kind = 1; val = 10 ∷ 20 ∷ 30 ∷ 40 ∷ 50 ∷ 60 ∷ [] }

abbrev same_bytes : List ℕ → List ℕ → Bool
same_bytes [] [] = true
same_bytes (a ∷ as_) (b ∷ bs) = a == b && same_bytes as_ bs
same_bytes _ _ = false

abbrev same_addr : Addr → Addr → Bool
same_addr a b = a.kind == b.kind && same_bytes a.val b.val

-- The button is pressed while the log is short.
abbrev level_by : List Call → ℤ
level_by calls = if leb (length calls) 3 then pos 1 else pos 0

-- Everything works, and one keyboard is bonded.
abbrev pub working : Platform
working = record {
  result = λ c calls. pos 0;
  hid_bound = λ calls. true;
  written = λ report calls. length report;
  bonds = λ calls. keyboard_addr ∷ [];
  addr_eq = same_addr;
  new_conn = λ calls. 1;
  conn_index = λ conn. 0;
  conn_dst = λ conn calls. some keyboard_addr;
  security_level = λ conn calls. 1;
  uptime = λ calls. 5000;
  button_level = level_by;
  debounce_ms = 30;
  long_press_ms = 3000;
}

abbrev refuses : Call → ℤ
refuses (conn_create addr) = pos 12
refuses _ = pos 0

-- The stack creates no connection.
abbrev pub refusing : Platform
refusing = record working { result = λ c calls. refuses c }

abbrev no_snapshot : PeerAddrSnapshot
no_snapshot = record { valid = false; addr_type = 0; addr = replicate 6 0 }

abbrev pub no_metadata : Metadata
no_metadata = record {
  metadata_version = 0;
  identity_snapshot = no_snapshot;
  last_peer_snapshot = no_snapshot;
}

-- The firmware after its start, with a host and with the event thread, looking for its keyboard.
abbrev pub world : World
world = record {
  calls = [];
  event_thread_started = true;
  reconnect = record {
    mode = ReconnectMode.fast;
    peer_visible = true;
    attempt_armed = true;
    fast_attempt_index = 0;
    backoff_delay_ms = pos 5000;
  };
  persist = record { metadata = no_metadata; has_metadata = false };
  usb = record { hid_dev = true; usb_configured = true; safe_state_pending = true };
  bridge = record {
    keyboard = empty_keyboard;
    consumer = empty_consumer;
    mouse = empty_mouse;
    input_active = true;
  };
  runtime = record { ready = true; bond_count = 1; auth_info_registered = true };
  scan = record {
    callbacks_registered = true;
    active = true;
    pairing_mode = false;
    cache = [];
    last_known_peer = keyboard_addr;
    last_known_peer_valid = true;
  };
  connection = record {
    active_conn_handle = 0;
    callbacks_registered = true;
    active_conn = none;
    security_ready = false;
    bond_mismatch_streak = 0;
    connect_attempt_pending = false;
  };
  hog = record {
    profile = record {
      has_keyboard_input = true;
      has_consumer_input = true;
      has_mouse_input = true;
      has_mouse_feature = false;
      has_led_output = false;
    };
    ctx = record {
      discovery_active = false;
      finalize_pending = false;
      conn_handle = 0;
      service_start_handle = 0;
      service_end_handle = 0;
      report_count = 0;
      current_report_index = 0;
      pending_subscriptions = 0;
      conn = none;
      reports = [];
    };
    mouse_resolution = record { wheel = 0; hor_wheel = 0 };
    mouse_resolution_from_host = false;
    input_thread_started = true;
  };
  ui = record {
    ui_state = State.connected;
    blink_phase_on = true;
    input_events_enabled = true;
    button_stable_pressed = false;
    button_long_press_fired = false;
  };
  filter = record { entries = [] };
}

-- Services that log the commands, and tell whether there is a bond.
abbrev pub bench : (bonded : Bool) (release : Status) (erase : Status) → Services (List Command)
bench bonded release erase = record {
  bridge_init = λ w. (ok, w);
  release_all = λ w. (release, w);
  execute_command = λ c w. (erase, c ∷ w);
  post_simple_event = λ e w. (ok, w);
  set_ui_state = λ s w. (ok, w);
  is_ready = λ w. true;
  runtime_has_bond = λ w. bonded;
  in_backoff = λ w. false;
  set_ui_state-ok = λ s w. refl;
}

abbrev pub sys : State → Bool → Sys (List Command)
sys state bonded = record {
  machine = record {
    state = state;
    usb_ready = true;
    ble_synced = true;
    persist_ready = false;
    has_bond = bonded;
  };
  rest = [];
}

abbrev pub event : EventType → Event
event type = record {
  type = type;
  status_code = pos 0;
  conn_handle = 1;
  capability_flags = 0;
  reason = Reason.none;
  reserved = 0;
}
