-- ===== src/Machine/Commands.antt =====
-- How main/src/state_machine.c ties its state to the commands, the releases and the bond.
use zmk_usb_bridge.Prelude.{◌≡◌, ◌≢◌, refl, ◌⊎◌, inl, Bool, true, false, ◌&&◌, some, arith}
use zmk_usb_bridge.Types.{is_ok, State, EventType, Event}
use zmk_usb_bridge.Machine.{
  Services, Sys, is_boot, is_usb_ready, is_recovery, is_dropped, dispatch, handle_event,
  sync_runtime_bond_state,
}

-- The state may differ from the one before a failure only by the step from boot to USB ready.
abbrev pub Kept : State → State → Type 0
Kept before after = (after ≡ before) ⊎ ((is_boot before ≡ true) × (is_usb_ready after ≡ true))

module _ {W : Type 0} (svc : Services W) where
  dispatch-failure :
      (e : EventType) (s : Sys W)
      → e ≢ EventType.button_long_press
      → is_ok (dispatch svc e s).0 ≡ false
      → Kept s.machine.state (dispatch svc e s).1.machine.state
  unfolding dispatch
  dispatch-failure EventType.none s n h = inl refl
  dispatch-failure EventType.button_long_press s n h = absurd (n refl)
  dispatch-failure _ s n h = grind (arith, svc.set_ui_state-ok)

  -- A transition that reports an error has not changed the state, the step from boot to USB ready
  -- excepted: the command that comes with a transition is started before the state is set. This
  -- holds of every event but the long press, which posts an event after its transition.
  pub failure_keeps_state :
      (event : Event) (s : Sys W)
      → event.type ≢ EventType.button_long_press
      → is_ok (handle_event svc (some event) s).0 ≡ false
      → Kept s.machine.state (handle_event svc (some event) s).1.machine.state
  unfolding handle_event
  failure_keeps_state event s n h =
      let synced = sync_runtime_bond_state svc s in
      ground (arith, dispatch-failure event.type synced n)

  abbrev pub releases_first : EventType → Bool
  releases_first EventType.disconnected = true
  releases_first EventType.host_reset = true
  releases_first EventType.bond_mismatch = true
  releases_first EventType.button_long_press = true
  releases_first _ = false

  -- Host reset, long press, and outside recovery also disconnection and bond mismatch, release the
  -- host's keys before anything else: if the release fails, its status is returned, the services are
  -- as it left them, no command has been run and no event posted, and the state is unchanged.
  pub release_comes_first :
      (event : Event) (s : Sys W)
      → releases_first event.type ≡ true
      → (is_recovery s.machine.state && is_dropped event.type) ≡ false
      → is_ok (svc.release_all s.rest).0 ≡ false
      → let (status, after) = handle_event svc (some event) s in
        (status ≡ (svc.release_all s.rest).0)
        × (after.rest ≡ (svc.release_all s.rest).1)
        × (after.machine.state ≡ s.machine.state)
  unfolding handle_event dispatch
  release_comes_first event s r d f = ground arith

  -- The states of a machine that looks for a bonded keyboard.
  abbrev pub wants_bond : State → Bool
  wants_bond State.scanning_known_device = true
  wants_bond State.reconnecting_fast = true
  wants_bond State.reconnecting_backoff = true
  wants_bond _ = false

  bond-dispatch :
      (e : EventType) (s : Sys W)
      → s.machine.has_bond ≡ false
      → e ≢ EventType.persist_ready_with_bond
      → wants_bond (dispatch svc e s).1.machine.state ≡ true
      → (dispatch svc e s).1.machine.state ≡ s.machine.state
  unfolding dispatch
  bond-dispatch EventType.none s b n h = refl
  bond-dispatch EventType.persist_ready_with_bond s b n h = absurd (n refl)
  bond-dispatch _ s b n h = ground arith

  pairing-dispatch :
      (e : EventType) (s : Sys W)
      → s.machine.has_bond ≡ true
      → e ≢ EventType.persist_ready_no_bond
      → e ≢ EventType.bond_erase_complete
      → (dispatch svc e s).1.machine.state ≡ State.pairing_scan
      → s.machine.state ≡ State.pairing_scan
  unfolding dispatch
  pairing-dispatch EventType.none s b n m h = h
  pairing-dispatch EventType.persist_ready_no_bond s b n m h = absurd (n refl)
  pairing-dispatch EventType.bond_erase_complete s b n m h = absurd (m refl)
  pairing-dispatch _ s b n m h = ground arith

  -- Once the Bluetooth stack is ready and has no bond, no event but the readiness event that claims
  -- one enters the known-device scan or a reconnect state.
  pub no_bond_no_known_scan :
      (event : Event) (s : Sys W)
      → svc.is_ready s.rest ≡ true
      → svc.runtime_has_bond s.rest ≡ false
      → event.type ≢ EventType.persist_ready_with_bond
      → wants_bond (handle_event svc (some event) s).1.machine.state ≡ true
      → (handle_event svc (some event) s).1.machine.state ≡ s.machine.state
  unfolding handle_event
  no_bond_no_known_scan event s r b n =
      let synced = sync_runtime_bond_state svc s in ground (arith, bond-dispatch event.type synced)

  -- Once the Bluetooth stack is ready and has a bond, no event enters the pairing scan but the
  -- readiness event that denies the bond and the completion of an erasure.
  pub bond_no_pairing_scan :
      (event : Event) (s : Sys W)
      → svc.is_ready s.rest ≡ true
      → svc.runtime_has_bond s.rest ≡ true
      → event.type ≢ EventType.persist_ready_no_bond
      → event.type ≢ EventType.bond_erase_complete
      → (handle_event svc (some event) s).1.machine.state ≡ State.pairing_scan
      → s.machine.state ≡ State.pairing_scan
  unfolding handle_event
  bond_no_pairing_scan event s r b n m =
      let synced = sync_runtime_bond_state svc s in
      ground (arith, pairing-dispatch event.type synced)
