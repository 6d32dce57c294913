-- ===== src/Connection/Established/Sound.antt =====
-- What the callbacks of main/src/ble_connection.c do to the state of main/src/hog_client.c: they leave
-- it, reset it, or begin a discovery.
use zmk_usb_bridge.Prelude.{
  ℕ, inl, inr, Bool, true, false, Option, none, some, arith, ◌==◌, leb, not, ◌&&◌, if◌then◌else◌,
  Bool-cases,
}
use zmk_usb_bridge.Prelude.Int.{ℤ, pos}
use zmk_usb_bridge.Types.{ok, invalid_state, is_ok, EventType, Reason}
use zmk_usb_bridge.World.{World, Platform, Op, ◌>>◌, invoke, set_security}
use zmk_usb_bridge.Queue.{post_event_with_payload}
use zmk_usb_bridge.Reconnect
use zmk_usb_bridge.Hog.Client.Frame.{Spares, post-Spares}
use zmk_usb_bridge.Hog.Discovery.{start_discovery}
use zmk_usb_bridge.Hog.Reads.Run.{IsSound, either_op-IsSound, start_discovery-IsSound}
use zmk_usb_bridge.Connection.Security.{
  SecurityErr, security_failure_looks_like_bond_mismatch, confirmation_count, next_streak,
  failure_handled, on_security_failure,
}
use zmk_usb_bridge.Connection.Established.{
  with_security, security_l2, on_security_ready, raise_security, link_security,
  request_link_security, secure_or_discover, security_err, connected, active_bonded,
  on_connect_success,
}

-- What spares the client's state keeps it sound.
pub spared-IsSound : (w after : World) → Spares w after → IsSound w → IsSound after
spared-IsSound w after same s = rw (same.0, same.1) s

pub post-IsSound :
    (p : Platform) (type : EventType) (reason : Reason) (code : ℤ) (conn flags : ℕ) (w : World)
    → IsSound w
    → IsSound (post_event_with_payload p type reason code conn flags w).1
post-IsSound p type reason code conn flags w s =
    let same = post-Spares p type reason code conn flags w in rw (same.0, same.1) s

either-IsSound : (b : Bool) (x y : World) → IsSound x → IsSound y → IsSound (if b then x else y)
either-IsSound true x y f g = f
either-IsSound false x y f g = g

then_op-IsSound :
    (m k : Op World) (w : World) → IsSound (m w).1 → IsSound (k (m w).1).1 → IsSound ((m >> k) w).1
then_op-IsSound m k w f g = elim (Bool-cases (is_ok (m w).0)) [ inl e ↦ rw e g | inr e ↦ rw e f ]

pub on_security_ready-IsSound :
    (p : Platform) (conn_handle : ℕ) (w : World)
    → IsSound w
    → IsSound (on_security_ready p conn_handle w).1
unfolding on_security_ready
on_security_ready-IsSound p conn_handle w s =
    let secure = with_security w in
    let post =
      post_event_with_payload p EventType.security_ready Reason.none (pos 0) conn_handle 0 in
    let start : Op World = λ t. start_discovery p t.connection.active_conn conn_handle t in
    let told = post-IsSound p EventType.security_ready Reason.none (pos 0) conn_handle 0 secure s in
    let started =
      start_discovery-IsSound p (post secure).1.connection.active_conn conn_handle (post secure).1
        told in
    either_op-IsSound
      (w.connection.active_conn_handle == conn_handle && w.connection.security_ready) (ok, w)
      ((post >> start) secure) s (then_op-IsSound post start secure told started)

failure_handled-Spares :
    (p : Platform) (mismatch confirmed : Bool) (w : World)
    → Spares w (failure_handled p mismatch confirmed w)
unfolding failure_handled Reconnect.note_failure
failure_handled-Spares p mismatch confirmed w = ground arith

failure_handled-IsSound :
    (p : Platform) (mismatch confirmed : Bool) (w : World)
    → IsSound w
    → IsSound (failure_handled p mismatch confirmed w)
failure_handled-IsSound p mismatch confirmed w =
    spared-IsSound w (failure_handled p mismatch confirmed w)
      (failure_handled-Spares p mismatch confirmed w)

post_either-IsSound :
    (p : Platform) (b : Bool) (code : ℤ) (conn_handle : ℕ) (w : World)
    → IsSound w
    → IsSound
        (if b
          then post_event_with_payload p EventType.bond_mismatch Reason.bond_auth_mismatch code
              conn_handle 0 w
          else post_event_with_payload p EventType.connect_failure Reason.security_failed code
              conn_handle 0 w).1
post_either-IsSound p true code conn_handle w s =
    post-IsSound p EventType.bond_mismatch Reason.bond_auth_mismatch code conn_handle 0 w s
post_either-IsSound p false code conn_handle w s =
    post-IsSound p EventType.connect_failure Reason.security_failed code conn_handle 0 w s

pub on_security_failure-IsSound :
    (p : Platform) (conn_handle : ℕ) (err : SecurityErr) (code : ℤ) (w : World)
    → IsSound w
    → IsSound (on_security_failure p conn_handle err code w).1
unfolding on_security_failure
on_security_failure-IsSound p conn_handle err code w s =
    let mismatch = security_failure_looks_like_bond_mismatch err w in
    let confirmed =
      mismatch && leb confirmation_count (next_streak mismatch w.connection.bond_mismatch_streak) in
    post_either-IsSound p confirmed code conn_handle (failure_handled p mismatch confirmed w)
      (failure_handled-IsSound p mismatch confirmed w s)

raise_security-IsSound :
    (p : Platform) (conn conn_handle : ℕ) (w : World)
    → IsSound w
    → IsSound (raise_security p conn conn_handle w).1
unfolding raise_security
raise_security-IsSound p conn conn_handle w s =
    let (err, after) = invoke p (set_security conn) w in
    either_op-IsSound (is_ok err) (ok, after)
      (on_security_failure p conn_handle (security_err err) err after) s
      (on_security_failure-IsSound p conn_handle (security_err err) err after s)

link_security-IsSound :
    (p : Platform) (conn : Option ℕ) (conn_handle : ℕ) (w : World)
    → IsSound w
    → IsSound (link_security p conn conn_handle w).1
unfolding link_security
link_security-IsSound p none conn_handle w s = s
link_security-IsSound p (some conn) conn_handle w s =
    let ready = on_security_ready p conn_handle w in
    let raised = raise_security p conn conn_handle w in
    let strong = if leb security_l2 (p.security_level conn w.calls) then ready else raised in
    let known = if w.connection.security_ready then (ok, w) else strong in
    either_op-IsSound (not (w.connection.active_conn_handle == conn_handle)) (invalid_state, w)
      known s
      (either_op-IsSound w.connection.security_ready (ok, w) strong s
        (either_op-IsSound (leb security_l2 (p.security_level conn w.calls)) ready raised
          (on_security_ready-IsSound p conn_handle w s)
          (raise_security-IsSound p conn conn_handle w s)))

secure_or_discover-IsSound :
    (p : Platform) (bonded : Bool) (conn_handle : ℕ) (conn : Option ℕ) (w : World)
    → IsSound w
    → IsSound (secure_or_discover p bonded conn_handle conn w).1
unfolding secure_or_discover request_link_security
secure_or_discover-IsSound p bonded conn_handle none w s = s
secure_or_discover-IsSound p true conn_handle (some conn) w s =
    start_discovery-IsSound p (some conn) conn_handle w s
secure_or_discover-IsSound p false conn_handle (some conn) w s =
    link_security-IsSound p w.connection.active_conn conn_handle w s

pub on_connect_success-IsSound :
    (p : Platform) (conn_handle : ℕ) (w : World)
    → IsSound w
    → IsSound (on_connect_success p conn_handle w).1
unfolding on_connect_success
on_connect_success-IsSound p conn_handle w s =
    let fresh = connected conn_handle w in
    let bonded = active_bonded p fresh.connection.active_conn fresh in
    let post =
      post_event_with_payload p EventType.connect_success Reason.none (pos 0) conn_handle 0 in
    let go : Op World = λ t. secure_or_discover p bonded conn_handle t.connection.active_conn t in
    let told = post-IsSound p EventType.connect_success Reason.none (pos 0) conn_handle 0 fresh s in
    then_op-IsSound post go fresh told (
      secure_or_discover-IsSound p bonded conn_handle (post fresh).1.connection.active_conn
        (post fresh).1 told)
