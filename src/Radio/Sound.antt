-- ===== src/Radio/Sound.antt =====
-- The state of main/src/hog_client.c over every run of the radio's steps.
use zmk_usb_bridge.Prelude.{
  ℕ, refl, inl, inr, Bool, true, false, List, [], ◌∷◌, Option, none, some, arith, ◌==◌,
  if◌then◌else◌, Option-cases,
}
use zmk_usb_bridge.Prelude.Int.{ℤ, pos}
use zmk_usb_bridge.Types.{Status, ok, invalid_state, is_ok, Addr, EventType, Reason}
use zmk_usb_bridge.World.{World, Platform, invoke, conn_create}
use zmk_usb_bridge.Reconnect
use zmk_usb_bridge.Bridge
use zmk_usb_bridge.Hog.Slots.{find_slot_by_subscribe_params}
use zmk_usb_bridge.Hog.Client
use zmk_usb_bridge.Hog.Client.Frame.{Spares, note_failure-Spares, disconnect_active-Spares}
use zmk_usb_bridge.Hog.Input.{on_report_notify}
use zmk_usb_bridge.Hog.Reads.Run.{IsSound, either_op-IsSound, reset-IsSound, callback-IsSound}
use zmk_usb_bridge.Connection.{
  clear_connect_attempt_timeout, conn_handle_of, on_connect_failure, connect_peer, attempt_begun,
  is_absent, connect_timeout_work_handler,
}
use zmk_usb_bridge.Connection.Security.{on_security_failure}
use zmk_usb_bridge.Connection.Events.{
  unref_active, closed, on_disconnected, disconnected_cb, disconnect_reason_from_hci,
}
use zmk_usb_bridge.Connection.Established.{
  on_security_ready, drop_active, connected_cb, security_changed_cb, security_err,
  on_connect_success,
}
use zmk_usb_bridge.Connection.Established.Sound.{
  spared-IsSound, post-IsSound, on_security_ready-IsSound, on_security_failure-IsSound,
  on_connect_success-IsSound,
}
use zmk_usb_bridge.Radio.{Step, step, run}

either-IsSound : (b : Bool) (x y : World) → IsSound x → IsSound y → IsSound (if b then x else y)
either-IsSound true x y f g = f
either-IsSound false x y f g = g

unref_active-IsSound : (conn : Option ℕ) (w : World) → IsSound w → IsSound (unref_active conn w)
unref_active-IsSound none w s = s
unref_active-IsSound (some conn) w s = s

drop_active-IsSound : (conn : Option ℕ) (w : World) → IsSound w → IsSound (drop_active conn w)
drop_active-IsSound none w s = s
drop_active-IsSound (some conn) w s = s

on_connect_failure-IsSound :
    (p : Platform) (reason : Reason) (code : ℤ) (w : World)
    → IsSound w
    → IsSound (on_connect_failure p reason code w).1
unfolding on_connect_failure
on_connect_failure-IsSound p reason code w s =
    let cleared = clear_connect_attempt_timeout w in
    let noted = (Reconnect.note_failure cleared).1 in
    post-IsSound p EventType.connect_failure reason code 0 0 noted
      (spared-IsSound cleared noted (note_failure-Spares cleared) s)

connected_cb-IsSound :
    (p : Platform) (conn : Option ℕ) (err : ℕ) (w : World)
    → IsSound w
    → IsSound (connected_cb p conn err w)
unfolding connected_cb
connected_cb-IsSound p conn err w s =
    let cleared = clear_connect_attempt_timeout w in
    let dropped = drop_active cleared.connection.active_conn cleared in
    either-IsSound (err == 0) (on_connect_success p (conn_handle_of p conn) cleared).1
      (on_connect_failure p Reason.connect_create_failed (pos err) dropped).1
      (on_connect_success-IsSound p (conn_handle_of p conn) cleared s)
      (on_connect_failure-IsSound p Reason.connect_create_failed (pos err) dropped
        (drop_active-IsSound cleared.connection.active_conn cleared s))

security_changed_cb-IsSound :
    (p : Platform) (conn : Option ℕ) (err : ℕ) (w : World)
    → IsSound w
    → IsSound (security_changed_cb p conn err w)
unfolding security_changed_cb
security_changed_cb-IsSound p conn err w s =
    let handle = conn_handle_of p conn in
    either-IsSound (err == 0) (on_security_ready p handle w).1
      (on_security_failure p handle (security_err (pos err)) (pos err) w).1
      (on_security_ready-IsSound p handle w s)
      (on_security_failure-IsSound p handle (security_err (pos err)) (pos err) w s)

closed-IsSound : (conn_handle : ℕ) (w : World) → IsSound (closed conn_handle w)
unfolding closed
closed-IsSound conn_handle w =
    let reset = (Client.reset (clear_connect_attempt_timeout w)).1 in
    let insecure = record reset {
      connection = record (reset.connection) { security_ready = false };
    } in
    let alone = unref_active insecure.connection.active_conn insecure in
    let s =
      unref_active-IsSound insecure.connection.active_conn insecure
        (reset-IsSound (clear_connect_attempt_timeout w)) in
    either-IsSound (alone.connection.active_conn_handle == conn_handle)
      (record alone { connection = record (alone.connection) { active_conn_handle = 0 } }) alone s s

disconnected_cb-IsSound :
    (p : Platform) (conn : Option ℕ) (reason : ℕ) (w : World)
    → IsSound (disconnected_cb p conn reason w)
unfolding disconnected_cb on_disconnected
disconnected_cb-IsSound p conn reason w =
    let handle = conn_handle_of p conn in
    post-IsSound p EventType.disconnected (disconnect_reason_from_hci reason) (pos reason) handle 0
      (closed handle w) (closed-IsSound handle w)

connect_timeout-Spares : (p : Platform) (w : World) → Spares w (connect_timeout_work_handler p w)
unfolding connect_timeout_work_handler
connect_timeout-Spares p w = elim (Option-cases w.connection.active_conn) [
  | inl e ↦ rw e (ground arith)
  | inr (conn, e) ↦ rw e (ground arith)
]

connect_peer-IsSound :
    (p : Platform) (addr : Option Addr) (w : World) → IsSound w → IsSound (connect_peer p addr w).1
unfolding connect_peer
connect_peer-IsSound p none w s = s
connect_peer-IsSound p (some addr) w s =
    let (err, after) = invoke p (conn_create addr) w in
    let failed = on_connect_failure p Reason.connect_create_failed err after in
    let begun : Status × World = (ok, attempt_begun (p.new_conn w.calls) after) in
    either_op-IsSound (is_absent w.connection.active_conn) (if is_ok err then begun else failed)
      (invalid_state, w)
      (either_op-IsSound (is_ok err) begun failed s
        (on_connect_failure-IsSound p Reason.connect_create_failed err after s))
      s

on_report_notify-Spares :
    (p : Platform) (conn : ℕ) (slot : Option ℕ) (payload : List ℕ) (w : World)
    → Spares w (on_report_notify p conn slot (some payload) w).1
unfolding on_report_notify
on_report_notify-Spares p conn none payload w = (refl, refl)
on_report_notify-Spares p conn (some i) payload w =
    elim (Option-cases (find_slot_by_subscribe_params (some i) w)) [
      | inl e ↦ rw e (ground arith)
      | inr (slot, e) ↦ rw e (ground arith)
    ]

init-IsSound : (p : Platform) (w : World) → IsSound (Client.init p w).1
unfolding Client.init Bridge.set_input_active
init-IsSound p w = ground arith

step-IsSound : (p : Platform) (t : Step) (w : World) → IsSound w → IsSound (step p t w)
step-IsSound p (Step.link_up conn err) w s = connected_cb-IsSound p conn err w s
step-IsSound p (Step.link_secured conn err) w s = security_changed_cb-IsSound p conn err w s
step-IsSound p (Step.link_down conn reason) w s = disconnected_cb-IsSound p conn reason w
step-IsSound p Step.attempt_over w s =
    spared-IsSound w (connect_timeout_work_handler p w) (connect_timeout-Spares p w) s
step-IsSound p (Step.client_called c) w s = callback-IsSound p c w s
step-IsSound p (Step.notified conn slot payload) w s =
    spared-IsSound w (on_report_notify p conn slot (some payload) w).1
      (on_report_notify-Spares p conn slot payload w) s
step-IsSound p (Step.connect_asked addr) w s = connect_peer-IsSound p addr w s
step-IsSound p (Step.disconnect_asked reason) w s =
    let same = disconnect_active-Spares p reason w in rw (same.0, same.1) s
step-IsSound p Step.reset_asked w s = reset-IsSound w

run-IsSound : (p : Platform) (steps : List Step) (w : World) → IsSound w → IsSound (run p steps w)
run-IsSound p [] w s = s
run-IsSound p (t ∷ steps) w s = run-IsSound p steps (step p t w) (step-IsSound p t w s)

-- From the client's start on, whatever the Bluetooth stack calls, the timer of the attempt does and the
-- other modules ask of the connection and the client, in whatever order, the client's state stays
-- sound: the slots of the reports are as many as the count says, eight at most, so no write leaves the
-- array, and input is on only while the profile has the keyboard and the client holds a connection.
-- Conditions: every notification carries a payload. The call that tells that a subscription has ended
-- has none, and clears the keyboard of the profile while input stays on.
pub start_run-IsSound :
    (p : Platform) (steps : List Step) (w : World) → IsSound (run p steps (Client.init p w).1)
start_run-IsSound p steps w = run-IsSound p steps (Client.init p w).1 (init-IsSound p w)
