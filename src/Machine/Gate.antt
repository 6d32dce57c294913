-- ===== src/Machine/Gate.antt =====
-- The startup gate of main/src/state_machine.c.
use zmk_usb_bridge.Prelude.{
  ◌≡◌, ◌⊎◌, inl, inr, Bool, true, false, ◌&&◌, ◌||◌, some, arith, if◌then◌else◌,
}
use zmk_usb_bridge.Types.{Status, is_ok, State, EventType, Event}
use zmk_usb_bridge.Machine.{
  Services, Machine, Sys, is_boot, is_usb_ready, is_recovery, is_dropped, dispatch, handle_event,
  sync_runtime_bond_state, advance_startup_gate,
}
use zmk_usb_bridge.Machine.Graph.{is_gate}

module _ {W : Type 0} (svc : Services W) where
  -- All three inputs of the startup gate are there.
  abbrev pub all_ready : Machine → Bool
  all_ready m = m.usb_ready && m.ble_synced && m.persist_ready

  -- The gate after the flags are set.
  abbrev GateWaits : Sys W → Status × Sys W → Type 0
  GateWaits s out =
      (all_ready s.machine ≡ false
        → (is_boot out.1.machine.state || is_usb_ready out.1.machine.state) ≡ true)
      × (all_ready s.machine ≡ true
          → is_ok out.0 ≡ true
          → out.1.machine.state
            ≡ (if s.machine.has_bond then State.scanning_known_device else State.pairing_scan))
      × (all_ready out.1.machine ≡ all_ready s.machine)
      × (out.1.machine.has_bond ≡ s.machine.has_bond)

  gate_boot : (s : Sys W) → s.machine.state ≡ State.boot → GateWaits s (advance_startup_gate svc s)
  gate_boot s b = ground (arith, svc.set_ui_state-ok State.usb_ready s.rest)

  gate_usb_ready :
      (s : Sys W) → s.machine.state ≡ State.usb_ready → GateWaits s (advance_startup_gate svc s)
  gate_usb_ready s b = ground arith

  gate_cases :
      (st : State)
      → (is_boot st || is_usb_ready st) ≡ true
      → (st ≡ State.boot) ⊎ (st ≡ State.usb_ready)
  gate_cases st h = ground arith

  gate :
      (s : Sys W)
      → (is_boot s.machine.state || is_usb_ready s.machine.state) ≡ true
      → GateWaits s (advance_startup_gate svc s)
  gate s b = elim (gate_cases s.machine.state b) [
    | inl e ↦ gate_boot s e
    | inr e ↦ gate_usb_ready s e
  ]

  abbrev GateEnds : Status × Sys W → Type 0
  GateEnds out =
      (all_ready out.1.machine ≡ false
        → (is_boot out.1.machine.state || is_usb_ready out.1.machine.state) ≡ true)
      × (all_ready out.1.machine ≡ true
          → is_ok out.0 ≡ true
          → out.1.machine.state
            ≡ (if out.1.machine.has_bond then State.scanning_known_device else State.pairing_scan))

  gate_ends : (s : Sys W) (out : Status × Sys W) → GateWaits s out → GateEnds out
  gate_ends s out w = rw (w.2, w.3) (w.0, w.1)

  gate_end :
      (s : Sys W)
      → (is_boot s.machine.state || is_usb_ready s.machine.state) ≡ true
      → GateEnds (advance_startup_gate svc s)
  gate_end s b = gate_ends s (advance_startup_gate svc s) (gate s b)

  gate-dispatch :
      (e : EventType) (s : Sys W)
      → is_gate e ≡ true
      → (is_boot s.machine.state || is_usb_ready s.machine.state) ≡ true
      → GateEnds (dispatch svc e s)
  unfolding dispatch
  gate-dispatch EventType.usb_ready s g b =
      gate_end (record s { machine = record (s.machine) { usb_ready = true } }) b
  gate-dispatch EventType.ble_synced s g b =
      gate_end (record s { machine = record (s.machine) { ble_synced = true } }) b
  gate-dispatch EventType.persist_ready_with_bond s g b =
      gate_end (record s { machine = record (s.machine) { persist_ready = true; has_bond = true } })
        b
  gate-dispatch EventType.persist_ready_no_bond s g b =
      gate_end
        (record s { machine = record (s.machine) { persist_ready = true; has_bond = false } }) b
  gate-dispatch _ s g b = cc

  synced_state : (s : Sys W) → (sync_runtime_bond_state svc s).machine.state ≡ s.machine.state
  synced_state s = ground arith

  not_dropped :
      (e : EventType) (st : State) → is_gate e ≡ true → (is_recovery st && is_dropped e) ≡ false
  not_dropped e st g = ground arith

  gate-handle :
      (event : Event) (s : Sys W)
      → is_gate event.type ≡ true
      → (is_boot s.machine.state || is_usb_ready s.machine.state) ≡ true
      → GateEnds (handle_event svc (some event) s)
  unfolding handle_event
  gate-handle event s g b =
      let synced = sync_runtime_bond_state svc s in
      rw (not_dropped event.type synced.machine.state g)
        (gate-dispatch event.type synced g (rw (synced_state s) b))

  -- The startup gate waits: in boot or USB ready, a readiness event that leaves one of USB, Bluetooth
  -- and the bond inventory missing leaves the machine in boot or USB ready.
  pub gate_waits :
      (event : Event) (s : Sys W)
      → is_gate event.type ≡ true
      → (is_boot s.machine.state || is_usb_ready s.machine.state) ≡ true
      → all_ready (handle_event svc (some event) s).1.machine ≡ false
      → let after = (handle_event svc (some event) s).1 in
        (is_boot after.machine.state || is_usb_ready after.machine.state) ≡ true
  gate_waits event s g b = (gate-handle event s g b).0

  -- The startup gate opens: in boot or USB ready, the readiness event that completes USB, Bluetooth
  -- and the bond inventory, whichever comes last, leaves the machine in a scan if its status is OK,
  -- the known-device scan if there is a bond and the pairing scan if there is none.
  pub gate_opens :
      (event : Event) (s : Sys W)
      → is_gate event.type ≡ true
      → (is_boot s.machine.state || is_usb_ready s.machine.state) ≡ true
      → all_ready (handle_event svc (some event) s).1.machine ≡ true
      → is_ok (handle_event svc (some event) s).0 ≡ true
      → let after = (handle_event svc (some event) s).1 in
        after.machine.state
        ≡ (if after.machine.has_bond then State.scanning_known_device else State.pairing_scan)
  gate_opens event s g b = (gate-handle event s g b).1
