-- ===== src/Scan/Stall.antt =====
-- What main/src/ble_scan.c and main/src/ble_connection.c leave behind when the stack refuses to create
-- a connection to the bonded keyboard.
use zmk_usb_bridge.Prelude.{
  ◌≡◌, refl, inl, inr, true, false, List, ◌∷◌, none, some, arith, Bool-cases, ◌∙◌, ap,
}
use zmk_usb_bridge.Prelude.Int.{ℤ, pos}
use zmk_usb_bridge.Types.{Status, ok, is_ok, EventType, Event, Reason, Addr}
use zmk_usb_bridge.World.{
  World, Platform, Call, conn_create, event_put, scan_stop, log, cancel, attempt_work,
}
use zmk_usb_bridge.Queue.{
  post_simple_event, make_event, posted, QueueTakes, post_event_with_payload-taken, posted-taken,
}
use zmk_usb_bridge.Reconnect
use zmk_usb_bridge.Reconnect.Schedule.{is_scheduled}
use zmk_usb_bridge.Connection
use zmk_usb_bridge.Connection.{clear_connect_attempt_timeout}
use zmk_usb_bridge.Scan.Cache.{reset_candidate_cache}
use zmk_usb_bridge.Scan.{maybe_start_connect, stop}

-- The event of a connection that could not be created.
abbrev pub failure_event : ℤ → Event
failure_event err = record {
  type = EventType.connect_failure;
  status_code = err;
  conn_handle = 0;
  capability_flags = 0;
  reason = Reason.connect_create_failed;
  reserved = 0;
}

abbrev pub found_event : Event
found_event = record {
  type = EventType.known_device_found;
  status_code = pos 0;
  conn_handle = 0;
  capability_flags = 0;
  reason = Reason.none;
  reserved = 0;
}

-- What concerns the events and the connection is as it was.
record Quiet (p : Platform) (w after : World) : Type 0 where
  events : posted p after.calls ≡ posted p w.calls
  started : after.event_thread_started ≡ w.event_thread_started
  conn : after.connection.active_conn ≡ w.connection.active_conn

stop-Quiet : (p : Platform) (w : World) → Quiet p w (stop p w).1
unfolding stop posted reset_candidate_cache
stop-Quiet p w = elim (Bool-cases w.scan.active) [
  | inr a ↦ rw a (record { events = refl; started = refl; conn = refl })
  | inl a ↦ elim (Bool-cases (is_ok (p.result scan_stop w.calls))) [
    | inr k ↦ rw (a, k) (record { events = refl; started = refl; conn = refl })
    | inl k ↦ elim (Bool-cases w.scan.pairing_mode) [
      | inl m ↦ rw (a, k, m) (record { events = refl; started = refl; conn = refl })
      | inr m ↦ rw (a, k, m) (record { events = refl; started = refl; conn = refl })
    ]
  ]
]

note_failure-Quiet : (p : Platform) (w : World) → Quiet p w (Reconnect.note_failure w).1
unfolding Reconnect.note_failure posted
note_failure-Quiet p w = ground arith

taken_simple :
    (p : Platform) (type : EventType) (w : World)
    → QueueTakes p
    → w.event_thread_started ≡ true
    → post_simple_event p type w ≡ (ok, log (event_put (make_event type Reason.none (pos 0) 0 0)) w)
unfolding post_simple_event
taken_simple p type w takes started = rw (started, takes _ w.calls)

posted-cancel :
    (p : Platform) (calls : List Call) → posted p (cancel attempt_work ∷ calls) ≡ posted p calls
unfolding posted
posted-cancel p calls = refl

posted-create :
    (p : Platform) (addr : Addr) (calls : List Call)
    → posted p (conn_create addr ∷ calls) ≡ posted p calls
unfolding posted
posted-create p addr calls = refl

-- What `on_connect_failure` has done when it posts its event.
abbrev failure_noted : World → World
failure_noted w = (Reconnect.note_failure (clear_connect_attempt_timeout w)).1

failure_noted-Quiet : (p : Platform) (w : World) → Quiet p w (failure_noted w)
unfolding posted
failure_noted-Quiet p w =
    let q = note_failure-Quiet p (clear_connect_attempt_timeout w) in
    record { events = q.events; started = q.started; conn = q.conn }

refused :
    (p : Platform) (addr : Addr) (w : World)
    → w.connection.active_conn ≡ none
    → is_ok (p.result (conn_create addr) w.calls) ≡ false
    → Connection.connect_peer p (some addr) w
      ≡ Connection.on_connect_failure p Reason.connect_create_failed
          (p.result (conn_create addr) w.calls)
          (log (conn_create addr) w)
unfolding Connection.connect_peer
refused p addr w free failed = rw (free, failed)

reported :
    (p : Platform) (reason : Reason) (err : ℤ) (w : World)
    → QueueTakes p
    → w.event_thread_started ≡ true
    → Connection.on_connect_failure p reason err w ≡ (
      ok,
      log (event_put (make_event EventType.connect_failure reason err 0 0)) (failure_noted w),
    )
unfolding Connection.on_connect_failure
reported p reason err w takes started =
    post_event_with_payload-taken p EventType.connect_failure reason err 0 0 (failure_noted w) takes
      ((failure_noted-Quiet p w).started ∙ started)

-- What is left after the connection could not be created.
record Stalled (p : Platform) (err : ℤ) (events : List Event) (result : Status × World)
    : Type 0 where
  status : result.0 ≡ ok
  conn : result.1.connection.active_conn ≡ none
  unarmed : result.1.reconnect.attempt_armed ≡ false
  unscheduled : is_scheduled result.1.calls ≡ false
  posts : posted p result.1.calls ≡ found_event ∷ failure_event err ∷ events

-- The rest of `maybe_start_connect` for the bonded keyboard, once `connect_peer` has said OK.
finish : Platform → World → Status × World
unfolding Reconnect.note_attempt_started
finish p w = post_simple_event p EventType.known_device_found (Reconnect.note_attempt_started w).1

finish-Stalled :
    (p : Platform) (err : ℤ) (w : World)
    → QueueTakes p
    → w.event_thread_started ≡ true
    → w.connection.active_conn ≡ none
    → Stalled p err (posted p w.calls) (finish p (log (event_put (failure_event err)) w))
unfolding finish make_event
finish-Stalled p err w takes started free =
    let failed = log (event_put (failure_event err)) w in
    rw
      (taken_simple p EventType.known_device_found (Reconnect.note_attempt_started failed).1 takes
        started)
      (record {
        status = refl;
        conn = free;
        unarmed = refl;
        unscheduled = refl;
        posts =
            posted-taken p found_event _ takes
            ∙ ap (λ l. found_event ∷ l)
                (posted-cancel p _ ∙ posted-taken p (failure_event err) w.calls takes);
      })

not_busy : (w : World) → w.connection.active_conn ≡ none → Connection.is_busy w ≡ false
unfolding Connection.is_busy
not_busy w free = rw free

to_finish :
    (p : Platform) (addr : Addr) (w : World) (err : ℤ) (noted : World)
    → Connection.is_busy w ≡ false
    → is_ok (stop p w).0 ≡ true
    → Connection.connect_peer p (some addr) (stop p w).1
      ≡ (ok, log (event_put (failure_event err)) noted)
    → maybe_start_connect p addr true w ≡ finish p (log (event_put (failure_event err)) noted)
unfolding maybe_start_connect finish
to_finish p addr w err noted free stopped refusal = rw (free, stopped, refusal)

-- When the stack refuses to create the connection to the bonded keyboard, the attempt nevertheless
-- ends with status OK: a connection failure and then a found keyboard are posted, there is no
-- connection, and the retry that the failure had scheduled is cancelled again: no attempt is armed,
-- and the attempt timer does not run. Conditions: no connection existed, the scan could be stopped,
-- and the queue takes events.
pub failed_create_stalls :
    (p : Platform) (addr : Addr) (w : World)
    → w.connection.active_conn ≡ none
    → w.event_thread_started ≡ true
    → QueueTakes p
    → is_ok (stop p w).0 ≡ true
    → is_ok (p.result (conn_create addr) (stop p w).1.calls) ≡ false
    → let (status, after) = maybe_start_connect p addr true w in
      let err = p.result (conn_create addr) (stop p w).1.calls in
      (status ≡ ok)
      × (after.connection.active_conn ≡ none)
      × (after.reconnect.attempt_armed ≡ false)
      × (is_scheduled after.calls ≡ false)
      × (posted p after.calls ≡ found_event ∷ failure_event err ∷ posted p w.calls)
unfolding make_event
failed_create_stalls p addr w free started takes stopped failed =
    let quiet = stop-Quiet p w in
    let begun = log (conn_create addr) (stop p w).1 in
    let noted = failure_noted-Quiet p begun in
    let err = p.result (conn_create addr) (stop p w).1.calls in
    let refusal =
      refused p addr (stop p w).1 (quiet.conn ∙ free) failed
      ∙ reported p Reason.connect_create_failed err begun takes (quiet.started ∙ started) in
    let stalled =
      finish-Stalled p err (failure_noted begun) takes (noted.started ∙ quiet.started ∙ started)
        (noted.conn ∙ quiet.conn ∙ free) in
    rw (to_finish p addr w err (failure_noted begun) (not_busy w free) stopped refusal) (
      stalled.status,
      stalled.conn,
      stalled.unarmed,
      stalled.unscheduled,
      stalled.posts
          ∙ ap (λ l. found_event ∷ failure_event err ∷ l)
              (noted.events ∙ posted-create p addr _ ∙ quiet.events),
    )
