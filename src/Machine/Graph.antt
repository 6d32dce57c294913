-- ===== src/Machine/Graph.antt =====
-- The transition diagram of main/src/state_machine.c, with the commands and the services left out.
use zmk_usb_bridge.Prelude.{◌≡◌, inl, inr, Bool, true, false, ◌&&◌, some, arith, Bool-cases}
use mathlib.Core.Path.{subst}
use zmk_usb_bridge.Types.{State, EventType, Event}
use zmk_usb_bridge.Machine.{
  Services, Sys, is_recovery, is_dropped, handle_event, sync_runtime_bond_state, dispatch,
}

-- The events after which the startup gate is tried.
abbrev pub is_gate : EventType → Bool
is_gate EventType.usb_ready = true
is_gate EventType.ble_synced = true
is_gate EventType.persist_ready_with_bond = true
is_gate EventType.persist_ready_no_bond = true
is_gate _ = false

abbrev pub is_found : EventType → Bool
is_found EventType.known_device_found = true
is_found EventType.pairing_candidate_found = true
is_found EventType.connect_success = true
is_found _ = false

abbrev pub is_scan : State → Bool
is_scan State.scanning_known_device = true
is_scan State.pairing_scan = true
is_scan _ = false

-- Where a failed or broken connection leads.
abbrev pub is_retry : State → Bool
is_retry State.reconnecting_fast = true
is_retry State.reconnecting_backoff = true
is_retry State.pairing_scan = true
is_retry _ = false

-- The events that lead to a retry, and that a machine in recovery ignores.
abbrev pub is_loss : EventType → Bool
is_loss EventType.connect_failure = true
is_loss EventType.disconnected = true
is_loss EventType.button_short_press = true
is_loss _ = false

pub data Edge : EventType → State → State → Type 0 where
  stay : {e : EventType} {s : State} → Edge e s s
  power : {e : EventType} → is_gate e ≡ true → Edge e State.boot State.usb_ready
  start : {e : EventType} {t : State} → is_gate e ≡ true → is_scan t ≡ true → Edge e State.boot t
  open_gate :
      {e : EventType} {t : State} → is_gate e ≡ true → is_scan t ≡ true → Edge e State.usb_ready t
  found : {e : EventType} {s : State} → is_found e ≡ true → Edge e s State.connecting
  lose :
      {e : EventType} {s t : State}
      → is_loss e ≡ true
      → is_recovery s ≡ false
      → is_retry t ≡ true
      → Edge e s t
  hid_fail : {s t : State} → is_retry t ≡ true → Edge EventType.hid_failure s t
  connect : {s : State} → Edge EventType.hid_ready s State.connected
  reset : {s : State} → Edge EventType.host_reset s State.usb_ready
  mismatch : {s : State} → Edge EventType.bond_mismatch s State.recovery_required
  fault : {s t : State} → is_scan t ≡ true → Edge EventType.metadata_fault s t
  erase : {s : State} → Edge EventType.button_long_press s State.bond_erasing
  erased : {s : State} → Edge EventType.bond_erase_complete s State.pairing_scan

ruleset edges = (
  stay, power, start, open_gate, found, lose, hid_fail, connect, reset, mismatch, fault, erase,
  erased,
)

module _ {W : Type 0} (svc : Services W) where
  dispatch-Edge :
      (e : EventType) (s : Sys W)
      → (is_recovery s.machine.state && is_dropped e) ≡ false
      → Edge e s.machine.state (dispatch svc e s).1.machine.state
  unfolding dispatch
  dispatch-Edge EventType.none s h = stay
  dispatch-Edge _ s h = grind (arith, edges)

  sync-state : (s : Sys W) → (sync_runtime_bond_state svc s).machine.state ≡ s.machine.state
  sync-state s = ground arith

  -- Every event, in every state and with any answers of the services, follows an edge of the
  -- diagram, or leaves the state as it is.
  pub handle_event-Edge :
      (event : Event) (s : Sys W)
      → Edge event.type s.machine.state (handle_event svc (some event) s).1.machine.state
  unfolding handle_event
  handle_event-Edge event s =
      let synced = sync_runtime_bond_state svc s in
      elim (Bool-cases (is_recovery synced.machine.state && is_dropped event.type)) [
        | inl d ↦ rw (d, sync-state s) stay
        | inr d ↦ rw d (
            subst (λ x. Edge event.type x (dispatch svc event.type synced).1.machine.state)
              (sync-state s) (dispatch-Edge event.type synced d))
      ]
