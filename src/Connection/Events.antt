-- ===== src/Connection/Events.antt =====
-- The end of a connection in main/src/ble_connection.c.
use zmk_usb_bridge.Prelude.{ℕ, false, Option, none, some, ◌==◌, if◌then◌else◌}
use zmk_usb_bridge.Prelude.Int.{ℤ, pos}
use zmk_usb_bridge.Types.{EventType, Reason}
use zmk_usb_bridge.World.{World, Platform, Op, log, conn_unref}
use zmk_usb_bridge.Queue.{post_event_with_payload}
use zmk_usb_bridge.Connection.{clear_connect_attempt_timeout, conn_handle_of}
use zmk_usb_bridge.Hog.Client

-- `BT_HCI_ERR_CONN_TIMEOUT`.
abbrev conn_timeout : ℕ
conn_timeout = 8

unfoldable pub disconnect_reason_from_hci : ℕ → Reason
disconnect_reason_from_hci reason =
    if reason == conn_timeout then Reason.disconnected_timeout else Reason.disconnected_remote

abbrev pub unref_active : Option ℕ → World → World
unref_active none w = w
unref_active (some conn) w =
    log (conn_unref conn) (record w { connection = record (w.connection) { active_conn = none } })

-- The state when the event is posted.
unfoldable pub closed : ℕ → World → World
closed conn_handle w =
    let reset = (Client.reset (clear_connect_attempt_timeout w)).1 in
    let insecure = record reset {
      connection = record (reset.connection) { security_ready = false };
    } in
    let alone = unref_active insecure.connection.active_conn insecure in
    if alone.connection.active_conn_handle == conn_handle
    then record alone { connection = record (alone.connection) { active_conn_handle = 0 } }
    else alone

unfoldable pub on_disconnected : Platform → ℕ → Reason → ℤ → Op World
unfolding closed
on_disconnected p conn_handle reason status_code w =
    post_event_with_payload p EventType.disconnected reason status_code conn_handle 0
      (closed conn_handle w)

-- The callback of the stack, `on_disconnected`.
unfoldable pub disconnected_cb : Platform → Option ℕ → ℕ → World → World
disconnected_cb p conn reason w =
    (on_disconnected p (conn_handle_of p conn) (disconnect_reason_from_hci reason) (pos reason) w).1
