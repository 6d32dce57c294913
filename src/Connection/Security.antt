-- ===== src/Connection/Security.antt =====
-- The failure of the link's security in main/src/ble_connection.c, and the confirmation of a bond
-- mismatch.
use zmk_usb_bridge.Prelude.{
  ℕ, ◌+◌, Bool, true, false, not, ◌&&◌, ◌||◌, Option, none, some, ltb, leb, if◌then◌else◌,
}
use zmk_usb_bridge.Prelude.Int.{ℤ}
use zmk_usb_bridge.Types.{EventType, Event, Reason}
use zmk_usb_bridge.World.{World, Platform, Op, invoke, conn_disconnect}
use zmk_usb_bridge.Queue.{post_event_with_payload}
use zmk_usb_bridge.Reconnect
use zmk_usb_bridge.Runtime
use zmk_usb_bridge.Connection.{remote_user_term_conn}

abbrev pub confirmation_count : ℕ
confirmation_count = 2

-- `enum bt_security_err`, as far as the code tells its values apart.
pub data SecurityErr : Type 0 where
  auth_fail pin_or_key_missing unspecified other : SecurityErr

abbrev pub is_key_error : SecurityErr → Bool
is_key_error auth_fail = true
is_key_error pin_or_key_missing = true
is_key_error unspecified = true
is_key_error other = false

unfoldable pub security_failure_looks_like_bond_mismatch : SecurityErr → World → Bool
security_failure_looks_like_bond_mismatch err w =
    if Runtime.has_bond w then is_key_error err else false

-- The streak is a byte that stops at 255.
unfoldable pub next_streak : Bool → ℕ → ℕ
next_streak true streak = if ltb streak 255 then streak + 1 else streak
next_streak false streak = 0

abbrev drop_link : Platform → Option ℕ → World → World
drop_link p none w = w
drop_link p (some conn) w = (invoke p (conn_disconnect conn remote_user_term_conn) w).1

-- The state when the event is posted.
unfoldable pub failure_handled : Platform → Bool → Bool → World → World
failure_handled p mismatch confirmed w =
    let streaked = record w {
      connection = record (w.connection) {
        security_ready = false;
        bond_mismatch_streak = next_streak mismatch w.connection.bond_mismatch_streak;
      };
    } in
    let noted =
      if not mismatch || not confirmed then (Reconnect.note_failure streaked).1 else streaked in
    drop_link p w.connection.active_conn noted

-- `err` is `status_code` cast to the enumeration.
unfoldable pub on_security_failure : Platform → ℕ → SecurityErr → ℤ → Op World
on_security_failure p conn_handle err status_code w =
    let mismatch = security_failure_looks_like_bond_mismatch err w in
    let streak = next_streak mismatch w.connection.bond_mismatch_streak in
    let confirmed = mismatch && leb confirmation_count streak in
    let after = failure_handled p mismatch confirmed w in
    if confirmed
    then post_event_with_payload p EventType.bond_mismatch Reason.bond_auth_mismatch status_code
        conn_handle 0 after
    else post_event_with_payload p EventType.connect_failure Reason.security_failed status_code
        conn_handle 0 after

-- The failure is the second in a row that looks like a bond mismatch, or a later one.
abbrev pub is_confirmed : SecurityErr → World → Bool
is_confirmed err w =
    security_failure_looks_like_bond_mismatch err w && leb 1 w.connection.bond_mismatch_streak

-- The event of a failure that is confirmed as a bond mismatch, and of one that is not.
abbrev event_if : Bool → ℕ → ℤ → Event
event_if confirmed conn_handle status_code = record {
  type = if confirmed then EventType.bond_mismatch else EventType.connect_failure;
  status_code = status_code;
  conn_handle = conn_handle;
  capability_flags = 0;
  reason = if confirmed then Reason.bond_auth_mismatch else Reason.security_failed;
  reserved = 0;
}

-- The event that the failure posts.
abbrev pub failure_event : ℕ → SecurityErr → ℤ → World → Event
failure_event conn_handle err status_code w = record {
  type = if is_confirmed err w then EventType.bond_mismatch else EventType.connect_failure;
  status_code = status_code;
  conn_handle = conn_handle;
  capability_flags = 0;
  reason = if is_confirmed err w then Reason.bond_auth_mismatch else Reason.security_failed;
  reserved = 0;
}
