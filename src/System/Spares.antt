-- ===== src/System/Spares.antt =====
-- Which of the commands, posts and states of the firmware leave the bridge alone.
use zmk_usb_bridge.Prelude.{
  ◌≡◌, refl, inl, inr, Bool, true, false, not, ◌&&◌, List, [], ◌∷◌, arith, Bool-cases, ◌∙◌,
}
use zmk_usb_bridge.Types.{is_ok, State, Command, EventType, Addr}
use zmk_usb_bridge.World.{
  World, BridgeState, Platform, ◌>>◌, accept_list_add, accept_list_clear, log, invoke, Op, branch,
}
use zmk_usb_bridge.Queue.{post_simple_event, post_event}
use zmk_usb_bridge.Persist
use zmk_usb_bridge.Reconnect
use zmk_usb_bridge.Runtime
use zmk_usb_bridge.Scan
use zmk_usb_bridge.Scan.Cache.{reset_candidate_cache}
use zmk_usb_bridge.Manager
use zmk_usb_bridge.Machine.{Sys}
use zmk_usb_bridge.Ui

stop-bridge : (p : Platform) (w : World) → (Scan.stop p w).1.bridge ≡ w.bridge
unfolding Scan.stop reset_candidate_cache
stop-bridge p w = ground arith

erase_bonds-bridge : (p : Platform) (w : World) → (Runtime.erase_bonds p w).1.bridge ≡ w.bridge
unfolding Runtime.erase_bonds
erase_bonds-bridge p w = ground arith

start_scan-bridge :
    (p : Platform) (active filtered pairing : Bool) (w : World)
    → (Scan.start_scan p active filtered pairing w).1.bridge ≡ w.bridge
unfolding Scan.start_scan post_simple_event post_event reset_candidate_cache
start_scan-bridge p active filtered pairing w = ground arith

add_bonds-bridge :
    (p : Platform) (bonds : List Addr) (w : World) → (Scan.add_bonds p bonds w).1.bridge ≡ w.bridge
unfolding Scan.add_bonds
add_bonds-bridge p [] w = refl
add_bonds-bridge p (bond ∷ rest) w =
    elim (Bool-cases (is_ok (p.result (accept_list_add bond) w.calls))) [
      | inl k ↦ rw k (add_bonds-bridge p rest (log (accept_list_add bond) w))
      | inr k ↦ rw k refl
    ]

pub post-bridge :
    (p : Platform) (event : EventType) (w : World)
    → (post_simple_event p event w).1.bridge ≡ w.bridge
unfolding post_simple_event post_event
post-bridge p event w = ground arith

pub set_state-bridge : (s : State) (w : World) → (Ui.set_state s w).1.bridge ≡ w.bridge
unfolding Ui.set_state Ui.led_work_handler
set_state-bridge s w = ground arith

-- The bridge in the state of the firmware, and with the machine.
abbrev pub in_world : World → BridgeState
in_world w = w.bridge

abbrev pub in_sys : Sys World → BridgeState
in_sys s = s.rest.bridge

module _ {S : Type 0} (view : S → BridgeState) where
  -- An operation that leaves the bridge alone.
  abbrev pub Spares : Op S → Type 0
  Spares m = (s : S) → view (m s).1 ≡ view s

  pub bind-Spares : (m k : Op S) → Spares m → Spares k → Spares (m >> k)
  bind-Spares m k fm fk s = elim (Bool-cases (is_ok (m s).0)) [
    | inl e ↦ rw e (fk (m s).1 ∙ fm s)
    | inr e ↦ rw e (fm s)
  ]

  pub branch-Spares :
      (test : S → Bool) (a b : Op S) → Spares a → Spares b → Spares (branch test a b)
  branch-Spares test a b fa fb s = elim (Bool-cases (test s)) [
    | inl e ↦ rw e (fa s)
    | inr e ↦ rw e (fb s)
  ]

add_all : Platform → Op World
add_all p w = Scan.add_bonds p (p.bonds w.calls) w

start_known_device-Spares : (p : Platform) → Spares in_world (Scan.start_known_device p)
unfolding Scan.start_known_device add_all
start_known_device-Spares p w = elim (Bool-cases (w.scan.active && not w.scan.pairing_mode)) [
  | inl a ↦ rw a refl
  | inr a ↦ rw a (
      bind-Spares in_world (invoke p accept_list_clear)
        (do add_all p; Scan.start_scan p false true false) (λ v. refl)
        (bind-Spares in_world (add_all p) (Scan.start_scan p false true false)
          (λ v. add_bonds-bridge p (p.bonds v.calls) v) (start_scan-bridge p false true false))
        w)
]

enter_fast-Spares : Spares in_world Reconnect.enter_fast_mode
unfolding Reconnect.enter_fast_mode
enter_fast-Spares w = ground arith

enter_backoff-Spares : Spares in_world Reconnect.enter_backoff_mode
unfolding Reconnect.enter_backoff_mode
enter_backoff-Spares w = ground arith

erase_all-Spares : Spares in_world Persist.erase_all
unfolding Persist.erase_all
erase_all-Spares w = refl

pub execute_command-Spares :
    (p : Platform) (c : Command) → Spares in_world (Manager.execute_command p c)
unfolding Manager.execute_command Scan.start_pairing
execute_command-Spares p Command.none w = refl
execute_command-Spares p Command.start_pairing_scan w = start_scan-bridge p true false true _
execute_command-Spares p Command.start_known_device_scan w = start_known_device-Spares p w
execute_command-Spares p Command.enter_reconnect_fast w =
    bind-Spares in_world Reconnect.enter_fast_mode (Scan.start_known_device p) enter_fast-Spares
      (start_known_device-Spares p) w
execute_command-Spares p Command.enter_reconnect_backoff w =
    bind-Spares in_world Reconnect.enter_backoff_mode (Scan.start_known_device p)
      enter_backoff-Spares (start_known_device-Spares p) w
execute_command-Spares p Command.stop_scan w = stop-bridge p w
execute_command-Spares p Command.erase_bonds w =
    bind-Spares in_world (Scan.stop p) (do Runtime.erase_bonds p; Persist.erase_all) (stop-bridge p)
      (bind-Spares in_world (Runtime.erase_bonds p) Persist.erase_all (erase_bonds-bridge p)
        erase_all-Spares)
      w
