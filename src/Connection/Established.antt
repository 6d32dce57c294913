-- ===== src/Connection/Established.antt =====
-- The way of main/src/ble_connection.c from a new connection to the discovery: the security of the
-- link, which a bonded peer need not wait for, and the callbacks of the stack.
pub mod Once
pub mod Sound
use zmk_usb_bridge.Prelude.{
  ℕ, Bool, true, false, not, ◌&&◌, ◌||◌, Option, none, some, ◌==◌, leb, if◌then◌else◌,
}
use zmk_usb_bridge.Prelude.Int.{ℤ, pos, negsuc}
use zmk_usb_bridge.Types.{Status, ok, invalid_state, is_ok, EventType, Reason}
use zmk_usb_bridge.World.{World, Platform, Op, ◌>>◌, log, invoke, conn_unref, set_security}
use zmk_usb_bridge.Queue.{post_event_with_payload}
use zmk_usb_bridge.Runtime
use zmk_usb_bridge.Connection.{clear_connect_attempt_timeout, conn_handle_of, on_connect_failure}
use zmk_usb_bridge.Connection.Security.{SecurityErr, on_security_failure}
use zmk_usb_bridge.Hog.Discovery.{start_discovery}

-- `(enum bt_security_err)status_code`, with the values that Zephyr gives the errors.
abbrev pub security_err : ℤ → SecurityErr
security_err (negsuc n) = SecurityErr.other
security_err (pos n) =
    if n == 1
    then SecurityErr.auth_fail
    else if n == 2
    then SecurityErr.pin_or_key_missing
    else if n == 9
    then SecurityErr.unspecified
    else SecurityErr.other

abbrev pub with_security : World → World
with_security w = record w {
  connection = record (w.connection) { security_ready = true; bond_mismatch_streak = 0 };
}

unfoldable pub on_security_ready : Platform → ℕ → Op World
on_security_ready p conn_handle w =
    let opened =
      (post_event_with_payload p EventType.security_ready Reason.none (pos 0) conn_handle 0 >> λ t.
      start_discovery p t.connection.active_conn conn_handle t)
        (with_security w) in
    if w.connection.active_conn_handle == conn_handle && w.connection.security_ready
    then (ok, w)
    else opened

-- `BT_SECURITY_L2`.
abbrev pub security_l2 : ℕ
security_l2 = 2

raise_security : Platform → ℕ → ℕ → Op World
raise_security p conn conn_handle w =
    let (err, after) = invoke p (set_security conn) w in
    let failed = on_security_failure p conn_handle (security_err err) err after in
    if is_ok err then (ok, after) else failed

link_security : Platform → Option ℕ → ℕ → Op World
unfolding raise_security
link_security p none conn_handle w = (invalid_state, w)
link_security p (some conn) conn_handle w =
    if not (w.connection.active_conn_handle == conn_handle)
    then (invalid_state, w)
    else if w.connection.security_ready
    then (ok, w)
    else if leb security_l2 (p.security_level conn w.calls)
    then on_security_ready p conn_handle w
    else raise_security p conn conn_handle w

unfoldable pub request_link_security : Platform → ℕ → Op World
unfolding link_security
request_link_security p conn_handle w = link_security p w.connection.active_conn conn_handle w

-- Whether the peer of the active connection is bonded.
unfoldable pub active_bonded : Platform → Option ℕ → World → Bool
active_bonded p none w = false
active_bonded p (some conn) w = Runtime.is_peer_bonded p (p.conn_dst conn w.calls) w

unfoldable pub secure_or_discover : Platform → Bool → ℕ → Option ℕ → Op World
secure_or_discover p bonded conn_handle none w = (invalid_state, w)
secure_or_discover p bonded conn_handle (some conn) w =
    if bonded
    then start_discovery p (some conn) conn_handle w
    else request_link_security p conn_handle w

abbrev pub connected : ℕ → World → World
connected conn_handle w =
    let cleared = clear_connect_attempt_timeout w in
    record cleared {
      connection = record (cleared.connection) {
        active_conn_handle = conn_handle;
        security_ready = false;
      };
    }

unfoldable pub on_connect_success : Platform → ℕ → Op World
unfolding active_bonded secure_or_discover
on_connect_success p conn_handle w =
    let fresh = connected conn_handle w in
    let bonded = active_bonded p fresh.connection.active_conn fresh in
    (post_event_with_payload p EventType.connect_success Reason.none (pos 0) conn_handle 0 >> λ t.
    secure_or_discover p bonded conn_handle t.connection.active_conn t)
      fresh

abbrev pub drop_active : Option ℕ → World → World
drop_active none w = w
drop_active (some conn) w =
    let dropped = log (conn_unref conn) w in
    record dropped { connection = record (dropped.connection) { active_conn = none } }

-- The callback of the stack, `on_connected`.
unfoldable pub connected_cb : Platform → Option ℕ → ℕ → World → World
connected_cb p conn err w =
    let cleared = clear_connect_attempt_timeout w in
    let failed =
      (on_connect_failure p Reason.connect_create_failed (pos err)
        (drop_active cleared.connection.active_conn cleared)).1 in
    let succeeded = (on_connect_success p (conn_handle_of p conn) cleared).1 in
    if err == 0 then succeeded else failed

-- The callback of the stack, `on_security_changed`.
unfoldable pub security_changed_cb : Platform → Option ℕ → ℕ → World → World
security_changed_cb p conn err w =
    let conn_handle = conn_handle_of p conn in
    let ready = (on_security_ready p conn_handle w).1 in
    let failed = (on_security_failure p conn_handle (security_err (pos err)) (pos err) w).1 in
    if err == 0 then ready else failed
