-- ===== src/Connection.antt =====
-- The part of main/src/ble_connection.c that the scan and the HID client call: the attempt to connect,
-- its watchdog, its failure, and what is known of the active connection.
pub mod Security
pub mod Events
pub mod Established
pub mod Ended
use zmk_usb_bridge.Prelude.{
  ℕ, ◌+◌, Bool, true, false, not, Option, none, some, if◌then◌else◌, replicate,
}
use zmk_usb_bridge.Prelude.Int.{ℤ}
use zmk_usb_bridge.Types.{
  Status, ok, invalid_argument, invalid_state, not_found, is_ok, EventType, Reason,
  PeerAddrSnapshot, Metadata, Addr,
}
use zmk_usb_bridge.World.{
  World, Platform, Op, ◌>>◌, effect, ignoring, log, invoke, connect_timeout_work, reschedule,
  cancel, conn_create, conn_cb_register, conn_disconnect,
}
use zmk_usb_bridge.Queue.{post_event_with_payload}
use zmk_usb_bridge.Reconnect

-- `BT_HCI_ERR_REMOTE_USER_TERM_CONN`.
abbrev pub remote_user_term_conn : ℕ
remote_user_term_conn = 19

abbrev pub connect_attempt_timeout_ms : ℕ
connect_attempt_timeout_ms = 4000

abbrev pub is_absent : Option ℕ → Bool
is_absent none = true
is_absent (some conn) = false

abbrev pub set_pending : Bool → World → World
set_pending b w = record w { connection = record (w.connection) { connect_attempt_pending = b } }

unfoldable pub fill_snapshot_from_addr : Addr → PeerAddrSnapshot
fill_snapshot_from_addr addr = record { valid = true; addr_type = addr.kind; addr = addr.val }

abbrev pub clear_connect_attempt_timeout : World → World
clear_connect_attempt_timeout w = log (cancel connect_timeout_work) (set_pending false w)

timed_out : Platform → Option ℕ → World → World
timed_out p none w = w
timed_out p (some conn) w =
    (invoke p (conn_disconnect conn remote_user_term_conn) (set_pending false w)).1

unfoldable pub connect_timeout_work_handler : Platform → World → World
unfolding timed_out
connect_timeout_work_handler p w =
    if not w.connection.connect_attempt_pending then w else timed_out p w.connection.active_conn w

unfoldable pub conn_handle_of : Platform → Option ℕ → ℕ
conn_handle_of p none = 0
conn_handle_of p (some conn) = p.conn_index conn + 1

unfoldable pub init : Op World
init w =
    let fresh = record w {
      connection = record (w.connection) {
        active_conn_handle = 0;
        active_conn = none;
        security_ready = false;
        bond_mismatch_streak = 0;
        connect_attempt_pending = false;
      };
    } in
    if w.connection.callbacks_registered then (ok, fresh) else (
      ok,
      log conn_cb_register
          (record fresh { connection = record (fresh.connection) { callbacks_registered = true } }),
    )

unfoldable pub on_connect_failure : Platform → Reason → ℤ → Op World
on_connect_failure p reason status_code = do
  effect clear_connect_attempt_timeout
  ignoring Reconnect.note_failure
  post_event_with_payload p EventType.connect_failure reason status_code 0 0

-- What `connect_peer` sets once the connection is being made.
abbrev pub attempt_begun : ℕ → World → World
attempt_begun conn w = log (reschedule connect_timeout_work connect_attempt_timeout_ms) (record w {
  connection = record (w.connection) { active_conn = some conn; connect_attempt_pending = true };
})

-- The address is a pointer that may be NULL.
unfoldable pub connect_peer : Platform → Option Addr → Op World
connect_peer p none w = (invalid_argument, w)
connect_peer p (some addr) w =
    let (err, after) = invoke p (conn_create addr) w in
    let failed = on_connect_failure p Reason.connect_create_failed err after in
    if is_absent w.connection.active_conn
    then if is_ok err then (ok, attempt_begun (p.new_conn w.calls) after) else failed
    else (invalid_state, w)

disconnect : Platform → Option ℕ → ℕ → Op World
disconnect p none reason w = (ok, w)
disconnect p (some conn) reason w = invoke p (conn_disconnect conn reason) w

unfoldable pub disconnect_active : Platform → ℕ → Op World
unfolding disconnect
disconnect_active p reason w = disconnect p w.connection.active_conn reason w

unfoldable pub is_busy : World → Bool
is_busy w = not (is_absent w.connection.active_conn)

abbrev no_snapshot : PeerAddrSnapshot
no_snapshot = record { valid = false; addr_type = 0; addr = replicate 6 0 }

snapshot_of : Option Addr → Status × Option Metadata
unfolding fill_snapshot_from_addr
snapshot_of none = (not_found, none)
snapshot_of (some dst) = (
  ok,
  some (record {
    metadata_version = 0;
    identity_snapshot = no_snapshot;
    last_peer_snapshot = fill_snapshot_from_addr dst;
  }),
)

captured : Platform → Option ℕ → World → Status × Option Metadata
unfolding snapshot_of
captured p none w = (invalid_state, none)
captured p (some conn) w = snapshot_of (p.conn_dst conn w.calls)

-- The status, and what the pointer, which is not NULL, then points to if it is OK.
unfoldable pub capture_metadata : Platform → World → Status × Option Metadata
unfolding captured
capture_metadata p w = captured p w.connection.active_conn w
