-- ===== src/Queue.antt =====
-- The event queue of main/src/ble_manager.c, how every module posts to the state machine, and the
-- short press of the recovery button. The queue itself is the kernel's; `posted` reads off the log
-- which events it took.
use zmk_usb_bridge.Prelude.{ℕ, ◌≡◌, true, List, [], ◌∷◌, Option, none, some, arith, if◌then◌else◌}
use zmk_usb_bridge.Prelude.Int.{ℤ, pos}
use zmk_usb_bridge.Types.{
  ok, invalid_argument, invalid_state, queue_full, is_ok, Event, EventType, Reason,
}
use zmk_usb_bridge.World.{World, Platform, Call, event_put, Op, ◌>>◌, invoke, log}
use zmk_usb_bridge.Reconnect

unfoldable pub make_event : EventType → Reason → ℤ → ℕ → ℕ → Event
make_event type reason status_code conn_handle capability_flags = record {
  type = type;
  status_code = status_code;
  conn_handle = conn_handle;
  capability_flags = capability_flags;
  reason = reason;
  reserved = 0;
}

unfoldable pub post_event : Platform → Option Event → Op World
post_event p none w = (invalid_argument, w)
post_event p (some event) w =
    let (err, after) = invoke p (event_put event) w in
    if w.event_thread_started
    then (if is_ok err then ok else queue_full, after)
    else (invalid_state, w)

unfoldable pub post_event_with_payload : Platform → EventType → Reason → ℤ → ℕ → ℕ → Op World
unfolding make_event post_event
post_event_with_payload p type reason status_code conn_handle capability_flags =
    post_event p (some (make_event type reason status_code conn_handle capability_flags))

unfoldable pub post_simple_event : Platform → EventType → Op World
unfolding make_event post_event
post_simple_event p type = post_event p (some (make_event type Reason.none (pos 0) 0 0))

unfoldable pub reset_fast_reconnect : Platform → Op World
unfolding post_simple_event make_event post_event
reset_fast_reconnect p = do
  Reconnect.reset_fast_reconnect
  post_simple_event p EventType.button_short_press

-- The events that the queue took, newest first.
abbrev put_event : Call → Option Event
put_event (event_put event) = some event
put_event _ = none

unfoldable pub posted : Platform → List Call → List Event
posted p [] = []
posted p (c ∷ calls) =
    let before = posted p calls in
    elim (put_event c) [
      | none ↦ before
      | some event ↦ if is_ok (p.result c calls) then event ∷ before else before
    ]

-- The queue takes every event.
abbrev pub QueueTakes : Platform → Type 0
QueueTakes p = (event : Event) (calls : List Call) → p.result (event_put event) calls ≡ pos 0

pub post_event_with_payload-taken :
    (p : Platform) (type : EventType) (reason : Reason) (status_code : ℤ)
    (conn_handle capability_flags : ℕ) (w : World)
    → QueueTakes p
    → w.event_thread_started ≡ true
    → post_event_with_payload p type reason status_code conn_handle capability_flags w
      ≡ (ok, log (event_put (make_event type reason status_code conn_handle capability_flags)) w)
unfolding post_event_with_payload
post_event_with_payload-taken p type reason status_code conn_handle capability_flags w takes
      started =
    rw (started, takes _ w.calls)

pub posted-taken :
    (p : Platform) (event : Event) (calls : List Call)
    → QueueTakes p
    → posted p (event_put event ∷ calls) ≡ event ∷ posted p calls
unfolding posted
posted-taken p event calls takes = rw (takes event calls)

-- `post_event` returns OK exactly when it has put the event into the queue; on every error, no event
-- thread or a full queue, the queue holds what it held. It changes nothing but the log.
pub post_event_lem :
    (p : Platform) (event : Event) (w : World)
    → let (status, after) = post_event p (some event) w in
      (posted p after.calls ≡ (if is_ok status then event ∷ posted p w.calls else posted p w.calls))
      × (after ≡ record w { calls = after.calls })
unfolding post_event posted
post_event_lem p event w = ground arith
