-- ===== src/Hog/Subscribe/Accepted.antt =====
-- The subscriptions of main/src/hog_client.c that the stack has accepted, against the counter of the
-- outstanding ones.
use zmk_usb_bridge.Prelude.{
  ℕ, suc, ◌+◌, ◌≡◌, refl, sym, ap, ◌∙◌, inl, inr, Bool, true, false, not, ◌&&◌, ◌||◌, List, [], ◌∷◌,
  arith, if◌then◌else◌, Bool-cases, Option-cases,
}
use zmk_usb_bridge.Prelude.Int.{ℤ, pos}
use zmk_usb_bridge.Types.{Status, is_ok, not_found, EventType, Reason}
use zmk_usb_bridge.World.{World, HogState, Platform, Op, ReportSlot, Call, gatt_subscribe}
use zmk_usb_bridge.Bridge
use zmk_usb_bridge.Reconnect
use zmk_usb_bridge.Connection
use zmk_usb_bridge.Queue.{post_event_with_payload}
use zmk_usb_bridge.Hog.Slots.{client_ready, capability_flags}
use zmk_usb_bridge.Hog.Client
use zmk_usb_bridge.Hog.Client.Completion.{store_frame}
use zmk_usb_bridge.Hog.Client.Frame.{fail_discovery-frame}
use zmk_usb_bridge.Hog.Subscribe.{
  is_already, SlotUse, slot_use, subscribe, is_keyboard, finalize_subscription_phase,
  subscribed_all, subscribe_usable, subscribe_unusable, subscribe_slot, subscribe_slots,
}
use zmk_usb_bridge.Hog.Subscribe.Once.{waits, ended, ended-hog, marked, waiting, ending}

-- The call subscribes, and the stack accepts it or has the subscription already.
abbrev accepts : Call → ℤ → Bool
accepts (gatt_subscribe conn value ccc) err = is_ok err || is_already err
accepts _ err = false

-- How many subscriptions the stack has accepted.
unfoldable pub accepted : Platform → List Call → ℕ
accepted p [] = 0
accepted p (c ∷ calls) =
    let before = accepted p calls in if accepts c (p.result c calls) then suc before else before

-- No subscription is accepted on the way.
abbrev Same : Platform → World → World → Type 0
Same p w after = accepted p after.calls ≡ accepted p w.calls

post-Same :
    (p : Platform) (type : EventType) (reason : Reason) (code : ℤ) (conn flags : ℕ) (w : World)
    → Same p w (post_event_with_payload p type reason code conn flags w).1
unfolding post_event_with_payload accepted
post-Same p type reason code conn flags w = ground arith

note_failure-Same : (p : Platform) (w : World) → Same p w (Reconnect.note_failure w).1
unfolding Reconnect.note_failure accepted
note_failure-Same p w = ground arith

disconnect_active-Same :
    (p : Platform) (reason : ℕ) (w : World) → Same p w (Connection.disconnect_active p reason w).1
unfolding Connection.disconnect_active accepted
disconnect_active-Same p reason w = elim (Option-cases w.connection.active_conn) [
  | inl absent ↦ rw absent refl
  | inr (conn, held) ↦ rw held refl
]

fail_discovery-Same :
    (p : Platform) (conn : ℕ) (reason : Reason) (code : ℤ) (w : World)
    → Same p w (Client.fail_discovery p conn reason code w).1
unfolding Client.fail_discovery
fail_discovery-Same p conn reason code w =
    let noted = (Reconnect.note_failure (Client.end_discovery w)).1 in
    let cut = (Connection.disconnect_active p Connection.remote_user_term_conn noted).1 in
    post-Same p EventType.hid_failure reason code conn (capability_flags cut) cut
    ∙ disconnect_active-Same p Connection.remote_user_term_conn noted
    ∙ note_failure-Same p (Client.end_discovery w)

either_op-Same :
    (p : Platform) (b : Bool) (w : World) (x y : Status × World)
    → Same p w x.1
    → Same p w y.1
    → Same p w (if b then x else y).1
either_op-Same p true w x y f g = f
either_op-Same p false w x y f g = g

noted-Same :
    (p : Platform) (on : Bool) (w : World)
    → Same p w (Client.set_input_active on (Reconnect.note_connected (Client.end_discovery w)).1)
unfolding Reconnect.note_connected Bridge.set_input_active accepted
noted-Same p true w = refl
noted-Same p false w = refl

store-Same : (p : Platform) (w : World) → Same p w (Client.store_current_peer_metadata p w)
store-Same p w = rw (store_frame p w) refl

complete_discovery-Same :
    (p : Platform) (conn : ℕ) (w : World) → Same p w (Client.complete_discovery p conn w).1
unfolding Client.complete_discovery
complete_discovery-Same p conn w =
    let noted = (Reconnect.note_connected (Client.end_discovery w)).1 in
    let on = Client.set_input_active true noted in
    let opened = Client.store_current_peer_metadata p on in
    let closed = Client.set_input_active false noted in
    either_op-Same p (client_ready noted) w
      (post_event_with_payload p EventType.hid_ready Reason.none (pos 0) conn
        (capability_flags opened) opened)
      (post_event_with_payload p EventType.hid_failure Reason.hid_report_missing not_found conn
        (capability_flags closed) closed)
      (post-Same p EventType.hid_ready Reason.none (pos 0) conn (capability_flags opened) opened
        ∙ store-Same p on
        ∙ noted-Same p true w)
      (post-Same p EventType.hid_failure Reason.hid_report_missing not_found conn
          (capability_flags closed) closed
        ∙ noted-Same p false w)

-- The counter is how many have been accepted beyond `base`.
abbrev pub Counts : Platform → ℕ → World → Type 0
Counts p base w = accepted p w.calls ≡ base + w.hog.ctx.pending_subscriptions

abbrev pub KeepsCount : Platform → ℕ → Op World → Type 0
KeepsCount p base m = (w : World) → Counts p base w → Counts p base (m w).1

fail-Counts :
    (p : Platform) (base : ℕ) (conn : ℕ) (reason : Reason) (code : ℤ)
    → KeepsCount p base (Client.fail_discovery p conn reason code)
fail-Counts p base conn reason code w h =
    fail_discovery-Same p conn reason code w
    ∙ h
    ∙ ap (λ (g : HogState). base + g.ctx.pending_subscriptions)
        (sym (fail_discovery-frame p conn reason code w).0)

either-Same :
    (p : Platform) (b : Bool) (w x y : World)
    → Same p w x
    → Same p w y
    → Same p w (if b then x else y)
either-Same p true w x y f g = f
either-Same p false w x y f g = g

ended-Same : (p : Platform) (w : World) → Same p w (ended p w)
ended-Same p w =
    let conn = w.hog.ctx.conn_handle in
    let reason = Reason.hid_subscribe_failed in
    either-Same p w.hog.profile.has_keyboard_input w (Client.complete_discovery p conn (marked w)).1
      (Client.fail_discovery p conn reason not_found (marked w)).1
      (complete_discovery-Same p conn (marked w))
      (fail_discovery-Same p conn reason not_found (marked w))

finalize-Counts :
    (p : Platform) (base : ℕ) (w : World)
    → Counts p base w
    → Counts p base (finalize_subscription_phase p w)
finalize-Counts p base w h = elim (Bool-cases (waits w)) [
  | inl early ↦ rw (waiting p w early) h
  | inr now ↦ rw (ending p w now) (
      ended-Same p w
      ∙ h
      ∙ ap (λ (g : HogState). base + g.ctx.pending_subscriptions) (sym (ended-hog p w)))
]

either_op-Counts :
    (p : Platform) (base : ℕ) (b : Bool) (x y : Status × World)
    → Counts p base x.1
    → Counts p base y.1
    → Counts p base (if b then x else y).1
either_op-Counts p base true x y f g = f
either_op-Counts p base false x y f g = g

subscribe-Counts :
    (p : Platform) (base : ℕ) (slot : ReportSlot) → KeepsCount p base (subscribe p slot)
unfolding subscribe accepted
subscribe-Counts p base slot w h = ground arith

subscribed_all-Counts :
    (p : Platform) (base : ℕ) (saw : Bool) → KeepsCount p base (subscribed_all p saw)
unfolding subscribed_all
subscribed_all-Counts p base true w h = finalize-Counts p base w h
subscribed_all-Counts p base false w h =
    fail-Counts p base w.hog.ctx.conn_handle Reason.hid_report_missing not_found w h

subscribe_slot-Counts :
    (p : Platform) (base : ℕ) (use_of : SlotUse) (slot : ReportSlot) (rest : Bool → Op World)
    (saw : Bool)
    → ((b : Bool) → KeepsCount p base (rest b))
    → KeepsCount p base (subscribe_slot p use_of slot rest saw)
unfolding subscribe_slot subscribe_usable subscribe_unusable
subscribe_slot-Counts p base SlotUse.skipped slot rest saw goes w h = goes saw w h
subscribe_slot-Counts p base SlotUse.unusable slot rest saw goes w h =
    either_op-Counts p base (is_keyboard slot)
      (Client.fail_discovery p w.hog.ctx.conn_handle Reason.hid_subscribe_failed not_found w)
      (rest saw w)
      (fail-Counts p base w.hog.ctx.conn_handle Reason.hid_subscribe_failed not_found w h)
      (goes saw w h)
subscribe_slot-Counts p base SlotUse.usable slot rest saw goes w h =
    let (err, after) = subscribe p slot w in
    let counted = subscribe-Counts p base slot w h in
    either_op-Counts p base (not (is_ok err) && is_keyboard slot)
      (Client.fail_discovery p after.hog.ctx.conn_handle Reason.hid_subscribe_failed err after)
      (rest (saw || is_keyboard slot) after)
      (fail-Counts p base after.hog.ctx.conn_handle Reason.hid_subscribe_failed err after counted)
      (goes (saw || is_keyboard slot) after counted)

pub subscribe_slots-Counts :
    (p : Platform) (base : ℕ) (slots : List ReportSlot) (saw : Bool)
    → KeepsCount p base (subscribe_slots p slots saw)
unfolding subscribe_slots
subscribe_slots-Counts p base [] saw = subscribed_all-Counts p base saw
subscribe_slots-Counts p base (slot ∷ slots) saw =
    subscribe_slot-Counts p base (slot_use slot) slot (subscribe_slots p slots) saw
      (subscribe_slots-Counts p base slots)
