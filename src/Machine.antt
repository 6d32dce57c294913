-- ===== src/Machine.antt =====
-- main/src/state_machine.c. Its five static variables are the record `Machine`; every other module
-- is behind the interface `Services`, over a state `W` of their own: none of them calls back into the
-- state machine, which hears of their events through the queue alone.
pub mod Graph
pub mod Trace
pub mod Gate
pub mod Commands
use zmk_usb_bridge.Prelude.{
  Bool, true, false, not, ◌&&◌, ◌||◌, Option, none, some, ◌≡◌, if◌then◌else◌,
}
use zmk_usb_bridge.Types.{
  Status, ok, invalid_argument, is_ok, State, EventType, Event, Command, Reason,
}
use zmk_usb_bridge.Prelude.Int.{pos}
use zmk_usb_bridge.World.{Op, ◌>>◌, give, effect, branch}

-- What the state machine calls: `bridge_init`, `bridge_release_all`, `ble_manager_execute_command`,
-- `ble_manager_post_simple_event`, `recovery_ui_set_state`, `ble_runtime_is_ready`,
-- `ble_runtime_has_bond` and `ble_reconnect_is_in_backoff_mode`. The law is what the UI promises.
pub record Services (W : Type 0) : Type 0 where
  pub bridge_init : W → Status × W
  pub release_all : W → Status × W
  pub execute_command : Command → W → Status × W
  pub post_simple_event : EventType → W → Status × W
  pub set_ui_state : State → W → Status × W
  pub is_ready : W → Bool
  pub runtime_has_bond : W → Bool
  pub in_backoff : W → Bool
  pub set_ui_state-ok : (s : State) (w : W) → (set_ui_state s w).0 ≡ ok

pub record Machine : Type 0 where
  pub state : State
  pub usb_ready : Bool
  pub ble_synced : Bool
  pub persist_ready : Bool
  pub has_bond : Bool

-- The machine and the rest of the firmware.
pub record Sys (W : Type 0) : Type 0 where
  pub machine : Machine
  pub rest : W

-- The tests of `g_state` and of the arguments.
abbrev pub is_boot : State → Bool
is_boot State.boot = true
is_boot _ = false

abbrev pub is_usb_ready : State → Bool
is_usb_ready State.usb_ready = true
is_usb_ready _ = false

abbrev pub is_recovery : State → Bool
is_recovery State.recovery_required = true
is_recovery _ = false

abbrev pub is_none : EventType → Bool
is_none EventType.none = true
is_none _ = false

-- The events that are dropped while recovery is required.
abbrev pub is_dropped : EventType → Bool
is_dropped EventType.connect_failure = true
is_dropped EventType.disconnected = true
is_dropped EventType.bond_mismatch = true
is_dropped _ = false

module _ {W : Type 0} (svc : Services W) where
  -- A call of a service.
  abbrev pub lift : (W → Status × W) → Op (Sys W)
  lift m s = let (status, rest) = m s.rest in (status, record s { rest = rest })

  abbrev pub set_state : State → Op (Sys W)
  set_state next s =
      lift (svc.set_ui_state next) (record s { machine = record (s.machine) { state = next } })

  abbrev pub dispatch_ble_command : Command → Op (Sys W)
  dispatch_ble_command Command.none s = (ok, s)
  dispatch_ble_command command s = lift (svc.execute_command command) s

  abbrev pub transition_to : State → Command → Op (Sys W)
  transition_to next command = do dispatch_ble_command command; set_state next

  abbrev pub transition_to_reconnect_state : Op (Sys W)
  transition_to_reconnect_state =
      branch (λ s. svc.in_backoff s.rest)
        (transition_to State.reconnecting_backoff Command.enter_reconnect_backoff)
        (transition_to State.reconnecting_fast Command.enter_reconnect_fast)

  abbrev pub transition_to_and_post : State → Command → EventType → Op (Sys W)
  transition_to_and_post next command event = do
    transition_to next command
    branch (λ _. is_none event) (give ok) (lift (svc.post_simple_event event))

  -- The two-way targets of `g_has_bond`.
  abbrev pub by_bond : State → Command → Op (Sys W)
  by_bond bonded command =
      branch (λ s. s.machine.has_bond) (transition_to bonded command)
        (transition_to State.pairing_scan Command.start_pairing_scan)

  abbrev pub advance_startup_gate : Op (Sys W)
  advance_startup_gate =
      branch (λ s. s.machine.usb_ready)
        (do
          branch (λ s. is_boot s.machine.state) (set_state State.usb_ready) (give ok)
          branch
              (λ s. s.machine.ble_synced && s.machine.persist_ready && is_usb_ready s.machine.state)
              (by_bond State.scanning_known_device Command.start_known_device_scan) (give ok))
        (give ok)

  abbrev pub sync_runtime_bond_state : Sys W → Sys W
  sync_runtime_bond_state s =
      if svc.is_ready s.rest
      then record s { machine = record (s.machine) { has_bond = svc.runtime_has_bond s.rest } }
      else s

  -- The `switch` on the event's type. Types with no case of their own are OK.
  unfoldable pub dispatch : EventType → Op (Sys W)
  dispatch EventType.usb_ready = do
    effect (λ s. record s { machine = record (s.machine) { usb_ready = true } })
    advance_startup_gate
  dispatch EventType.ble_synced = do
    effect (λ s. record s { machine = record (s.machine) { ble_synced = true } })
    advance_startup_gate
  dispatch EventType.persist_ready_with_bond = do
    effect
        (λ s. record s { machine = record (s.machine) { persist_ready = true; has_bond = true } })
    advance_startup_gate
  dispatch EventType.persist_ready_no_bond = do
    effect
        (λ s. record s { machine = record (s.machine) { persist_ready = true; has_bond = false } })
    advance_startup_gate
  dispatch EventType.known_device_found = set_state State.connecting
  dispatch EventType.pairing_candidate_found = set_state State.connecting
  dispatch EventType.connect_success = set_state State.connecting
  dispatch EventType.connect_failure =
      branch (λ s. s.machine.has_bond) transition_to_reconnect_state
        (transition_to State.pairing_scan Command.start_pairing_scan)
  dispatch EventType.hid_failure =
      branch (λ s. s.machine.has_bond) transition_to_reconnect_state
        (transition_to State.pairing_scan Command.start_pairing_scan)
  dispatch EventType.hid_ready = do
    effect (λ s. record s {
      machine = record (s.machine) { has_bond = s.machine.has_bond || svc.runtime_has_bond s.rest };
    })
    set_state State.connected
  dispatch EventType.disconnected = do
    lift svc.release_all
    by_bond State.reconnecting_fast Command.enter_reconnect_fast
  dispatch EventType.host_reset = do
    effect (λ s. record s { machine = record (s.machine) { ble_synced = false } })
    lift svc.release_all
    transition_to State.usb_ready Command.stop_scan
  dispatch EventType.bond_mismatch = do
    lift svc.release_all
    transition_to State.recovery_required Command.stop_scan
  dispatch EventType.metadata_fault =
      by_bond State.scanning_known_device Command.start_known_device_scan
  dispatch EventType.button_short_press =
      branch (λ s. is_recovery s.machine.state) (give ok)
        (by_bond State.reconnecting_fast Command.enter_reconnect_fast)
  dispatch EventType.button_long_press = do
    lift svc.release_all
    transition_to_and_post State.bond_erasing Command.erase_bonds EventType.bond_erase_complete
  dispatch EventType.bond_erase_complete = do
    effect
        (λ s. record s { machine = record (s.machine) { has_bond = false; persist_ready = true } })
    transition_to State.pairing_scan Command.start_pairing_scan
  dispatch EventType.none = give ok
  dispatch EventType.scan_started = give ok
  dispatch EventType.security_ready = give ok

  unfoldable pub handle_event : Option Event → Op (Sys W)
  handle_event none s = (invalid_argument, s)
  handle_event (some event) s =
      let synced = sync_runtime_bond_state s in
      if is_recovery synced.machine.state && is_dropped event.type
      then (ok, synced)
      else dispatch event.type synced

  unfoldable pub init : Op (Sys W)
  init = do
    lift svc.bridge_init
    effect (λ s. record s {
      machine = record (s.machine) {
        usb_ready = false;
        ble_synced = false;
        persist_ready = false;
        has_bond = false;
      };
    })
    set_state State.boot

  unfoldable pub start : Op (Sys W)
  unfolding handle_event
  start = handle_event (
      some (record {
        type = EventType.usb_ready;
        status_code = pos 0;
        conn_handle = 0;
        capability_flags = 0;
        reason = Reason.none;
        reserved = 0;
      }))
