-- ===== src/Hog/Client/Frame.antt =====
-- What the two ends of a discovery in main/src/hog_client.c leave of the client and the bridge.
use zmk_usb_bridge.Prelude.{
  ℕ, ◌≡◌, refl, ap, ◌∙◌, inl, inr, Bool, true, false, arith, if◌then◌else◌, Option-cases,
}
use zmk_usb_bridge.Prelude.Int.{ℤ, pos}
use zmk_usb_bridge.Types.{Status, not_found, EventType, Reason}
use zmk_usb_bridge.World.{World, BridgeState, Platform}
use zmk_usb_bridge.Bridge
use zmk_usb_bridge.Reconnect
use zmk_usb_bridge.Connection
use zmk_usb_bridge.Queue.{post_event_with_payload}
use zmk_usb_bridge.Hog.Slots.{client_ready, capability_flags}
use zmk_usb_bridge.Hog.Client.{
  set_input_active, store_current_peer_metadata, end_discovery, complete_discovery, fail_discovery,
}
use zmk_usb_bridge.Hog.Client.Completion.{store_frame}

-- Neither the client's state nor the bridge's has changed.
abbrev pub Spares : World → World → Type 0
Spares w after = (after.hog ≡ w.hog) × (after.bridge ≡ w.bridge)

pub post-Spares :
    (p : Platform) (type : EventType) (reason : Reason) (code : ℤ) (conn flags : ℕ) (w : World)
    → Spares w (post_event_with_payload p type reason code conn flags w).1
unfolding post_event_with_payload
post-Spares p type reason code conn flags w = ground arith

pub note_failure-Spares : (w : World) → Spares w (Reconnect.note_failure w).1
unfolding Reconnect.note_failure
note_failure-Spares w = ground arith

pub disconnect_active-Spares :
    (p : Platform) (reason : ℕ) (w : World) → Spares w (Connection.disconnect_active p reason w).1
unfolding Connection.disconnect_active
disconnect_active-Spares p reason w = elim (Option-cases w.connection.active_conn) [
  | inl absent ↦ rw absent (refl, refl)
  | inr (conn, held) ↦ rw held (refl, refl)
]

-- A failure leaves both but for the mark that the discovery is under way.
pub fail_discovery-frame :
    (p : Platform) (conn : ℕ) (reason : Reason) (code : ℤ) (w : World)
    → Spares (end_discovery w) (fail_discovery p conn reason code w).1
unfolding fail_discovery
fail_discovery-frame p conn reason code w =
    let ended = end_discovery w in
    let noted = (Reconnect.note_failure ended).1 in
    let cut = (Connection.disconnect_active p Connection.remote_user_term_conn noted).1 in
    let first = note_failure-Spares ended in
    let second = disconnect_active-Spares p Connection.remote_user_term_conn noted in
    let third = post-Spares p EventType.hid_failure reason code conn (capability_flags cut) cut in
    (third.0 ∙ second.0 ∙ first.0, third.1 ∙ second.1 ∙ first.1)

store-Spares : (p : Platform) (w : World) → Spares w (store_current_peer_metadata p w)
store-Spares p w = rw (store_frame p w) (refl, refl)

-- The client's state but for the mark, and whether input is on.
abbrev Ends : Bool → World → World → Type 0
Ends active w after = (after.hog ≡ (end_discovery w).hog) × (after.bridge.input_active ≡ active)

Ends-choice :
    (ready : Bool) (w : World) (x y : Status × World)
    → Ends true w x.1
    → Ends false w y.1
    → Ends ready w (if ready then x else y).1
Ends-choice true w x y f g = f
Ends-choice false w x y f g = g

switch_on :
    (w : World) → Ends true w (set_input_active true (Reconnect.note_connected (end_discovery w)).1)
unfolding Bridge.set_input_active Reconnect.note_connected
switch_on w = (refl, refl)

switch_off :
    (w : World)
    → Ends false w (set_input_active false (Reconnect.note_connected (end_discovery w)).1)
unfolding Bridge.set_input_active Reconnect.note_connected
switch_off w = (refl, refl)

-- A completion leaves the client too, and switches input on exactly with a keyboard.
pub complete_discovery-frame :
    (p : Platform) (conn : ℕ) (w : World)
    → Ends w.hog.profile.has_keyboard_input w (complete_discovery p conn w).1
unfolding complete_discovery client_ready Reconnect.note_connected
complete_discovery-frame p conn w =
    let noted = (Reconnect.note_connected (end_discovery w)).1 in
    let on = set_input_active true noted in
    let opened = store_current_peer_metadata p on in
    let closed = set_input_active false noted in
    let stored = store-Spares p on in
    let ready_posted =
      post-Spares p EventType.hid_ready Reason.none (pos 0) conn (capability_flags opened) opened in
    let missing_posted =
      post-Spares p EventType.hid_failure Reason.hid_report_missing not_found conn
        (capability_flags closed) closed in
    Ends-choice w.hog.profile.has_keyboard_input w
      (post_event_with_payload p EventType.hid_ready Reason.none (pos 0) conn
        (capability_flags opened) opened)
      (post_event_with_payload p EventType.hid_failure Reason.hid_report_missing not_found conn
        (capability_flags closed) closed)
      (
        ready_posted.0 ∙ stored.0 ∙ (switch_on w).0,
        ap (λ (b : BridgeState). b.input_active) ready_posted.1
            ∙ ap (λ (b : BridgeState). b.input_active) stored.1
            ∙ (switch_on w).1,
      )
      (
        missing_posted.0 ∙ (switch_off w).0,
        ap (λ (b : BridgeState). b.input_active) missing_posted.1 ∙ (switch_off w).1,
      )
