-- ===== src/System/Release.antt =====
-- What a lost link, a reset, a mismatch and an erasure leave of the input in the whole firmware.
use zmk_usb_bridge.Prelude.{
  ◌≡◌, refl, inl, inr, true, false, ◌&&◌, List, some, arith, Bool-cases, ◌∙◌, ap,
}
use zmk_usb_bridge.Types.{ok, is_ok, State, Command, EventType, Event}
use zmk_usb_bridge.World.{World, BridgeState, Platform, ◌>>◌, Op, branch, give}
use zmk_usb_bridge.Bridge
use zmk_usb_bridge.Bridge.{empty_keyboard, empty_consumer, empty_mouse}
use zmk_usb_bridge.Bridge.Gate.{bridge-release_all, Report, handle_all, handle_all_closed}
use zmk_usb_bridge.Machine.{
  Sys, Services, handle_event, transition_to, transition_to_and_post, dispatch_ble_command,
  set_state, lift, by_bond, is_none, is_recovery, is_dropped, dispatch, sync_runtime_bond_state,
}
use zmk_usb_bridge.Machine.Commands.{releases_first}
use zmk_usb_bridge.System.{firmware}
use zmk_usb_bridge.System.Spares.{
  in_sys, Spares, bind-Spares, branch-Spares, post-bridge, set_state-bridge, execute_command-Spares,
}

module _ (p : Platform) where
  abbrev svc : Services World
  svc = firmware p

  command-Spares : (c : Command) → Spares in_sys (dispatch_ble_command svc c)
  unfolding firmware
  command-Spares Command.none s = refl
  command-Spares c s = execute_command-Spares p c s.rest

  state-Spares : (next : State) → Spares in_sys (set_state svc next)
  unfolding firmware
  state-Spares next s = set_state-bridge next s.rest

  transition_to-Spares : (next : State) (c : Command) → Spares in_sys (transition_to svc next c)
  transition_to-Spares next c =
      bind-Spares in_sys (dispatch_ble_command svc c) (set_state svc next) (command-Spares c)
        (state-Spares next)

  erased-Spares :
      (event : EventType)
      → Spares in_sys (transition_to_and_post svc State.bond_erasing Command.erase_bonds event)
  unfolding firmware
  erased-Spares event =
      bind-Spares in_sys (transition_to svc State.bond_erasing Command.erase_bonds)
        (branch (λ _. is_none event) (give ok) (lift svc (svc.post_simple_event event)))
        (transition_to-Spares State.bond_erasing Command.erase_bonds)
        (λ s. elim (Bool-cases (is_none event)) [
          | inl e ↦ rw e refl
          | inr e ↦ rw e (post-bridge p event s.rest)
        ])

  -- What `release_all` leaves in the bridge.
  abbrev pub released : BridgeState
  released = record {
    keyboard = empty_keyboard;
    consumer = empty_consumer;
    mouse = empty_mouse;
    input_active = false;
  }

  after_release :
      (k : Op (Sys World)) (s : Sys World)
      → Spares in_sys k
      → in_sys ((lift svc (svc.release_all) >> k) s).1 ≡ released
  unfolding firmware
  after_release k s spares =
      let first = bridge-release_all p s.rest in
      elim (Bool-cases (is_ok (Bridge.release_all p s.rest).0)) [
        | inl e ↦ rw e (spares (lift svc svc.release_all s).1 ∙ first)
        | inr e ↦ rw e first
      ]

  by_bond-Spares : (next : State) (c : Command) → Spares in_sys (by_bond svc next c)
  by_bond-Spares next c =
      branch-Spares in_sys (λ s. s.machine.has_bond) (transition_to svc next c)
        (transition_to svc State.pairing_scan Command.start_pairing_scan)
        (transition_to-Spares next c)
        (transition_to-Spares State.pairing_scan Command.start_pairing_scan)

  dispatch-released :
      (event : EventType) (s : Sys World)
      → releases_first svc event ≡ true
      → in_sys (dispatch svc event s).1 ≡ released
  unfolding dispatch
  dispatch-released EventType.disconnected s h =
      after_release (by_bond svc State.reconnecting_fast Command.enter_reconnect_fast) s
        (by_bond-Spares State.reconnecting_fast Command.enter_reconnect_fast)
  dispatch-released EventType.host_reset s h =
      after_release (transition_to svc State.usb_ready Command.stop_scan) _
        (transition_to-Spares State.usb_ready Command.stop_scan)
  dispatch-released EventType.bond_mismatch s h =
      after_release (transition_to svc State.recovery_required Command.stop_scan) s
        (transition_to-Spares State.recovery_required Command.stop_scan)
  dispatch-released EventType.button_long_press s h =
      after_release
        (transition_to_and_post svc State.bond_erasing Command.erase_bonds
          EventType.bond_erase_complete)
        s (erased-Spares EventType.bond_erase_complete)
  dispatch-released _ s h = ground arith

-- In the whole firmware, whatever the kernel and the stacks answer and whatever fails on the way, the
-- host's input is cut off after a host reset and a long press, and after a disconnection and a bond
-- mismatch that are not dropped in recovery: the bridge is empty and inactive, and no sequence of
-- input reports that follows changes anything or sends anything.
pub input_cut_off :
    (p : Platform) (event : Event) (s : Sys World) (reports : List Report)
    → releases_first (firmware p) event.type ≡ true
    → (is_recovery s.machine.state && is_dropped event.type) ≡ false
    → let after = (handle_event (firmware p) (some event) s).1.rest in
      (after.bridge ≡ released p) × (handle_all p reports after ≡ after)
unfolding handle_event
input_cut_off p event s reports releases heard =
    let synced = sync_runtime_bond_state (firmware p) s in
    let result = dispatch-released p event.type synced releases in
    elim (Bool-cases (is_recovery synced.machine.state && is_dropped event.type)) [
      | inl b ↦ absurd (ground arith)
      | inr b ↦ rw b (
        result,
        handle_all_closed p reports (dispatch (firmware p) event.type synced).1.rest
            (ap (λ v. v.input_active) result),
      )
    ]
