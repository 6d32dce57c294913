-- ===== src/Scan/Connect.antt =====
-- When main/src/ble_scan.c starts a connection to the bonded keyboard.
use zmk_usb_bridge.Prelude.{
  ℕ, suc, ◌+◌, ◌≡◌, refl, ◌⊎◌, inl, inr, Bool, true, not, ◌&&◌, ◌||◌, List, [], ◌∷◌, some, arith,
  Bool-cases, ◌∙◌, ap, sym,
}
use zmk_usb_bridge.Types.{is_ok, EventType, Addr}
use zmk_usb_bridge.World.{World, Platform, Call, conn_create, scan_stop}
use zmk_usb_bridge.Queue.{post_simple_event, post_event_with_payload, post_event, make_event}
use zmk_usb_bridge.Reconnect
use zmk_usb_bridge.Reconnect.{is_idle}
use zmk_usb_bridge.Connection
use zmk_usb_bridge.Scan.Cache.{with_scan, reset_candidate_cache}
use zmk_usb_bridge.Scan.{recv_known, ScanInfo, maybe_start_connect, stop}

abbrev creates : Call → ℕ
creates (conn_create addr) = 1
creates _ = 0

-- How many connections the stack was asked to create.
unfoldable pub attempts : List Call → ℕ
attempts [] = 0
attempts (c ∷ calls) = creates c + attempts calls

-- The test that decides whether an advertisement of the bonded keyboard is an occasion to connect.
abbrev pub is_due : ScanInfo → World → Bool
is_due info w =
    info.connectable
    && w.reconnect.peer_visible
    && (is_idle w.reconnect.mode || w.reconnect.attempt_armed)
    && not (Connection.is_busy w)

-- One more attempt at most, and none if `test` fails.
abbrev AtMostOne : Bool → World → World → Type 0
AtMostOne test w after =
    (attempts after.calls ≡ attempts w.calls)
    ⊎ ((attempts after.calls ≡ suc (attempts w.calls)) × (test ≡ true))

attempts-stop :
    (p : Platform) (w : World)
    → (attempts (stop p w).1.calls ≡ attempts w.calls) × ((stop p w).1.connection ≡ w.connection)
unfolding stop attempts reset_candidate_cache
attempts-stop p w = elim (Bool-cases w.scan.active) [
  | inr a ↦ rw a (refl, refl)
  | inl a ↦ elim (Bool-cases (is_ok (p.result scan_stop w.calls))) [
    | inr k ↦ rw (a, k) (omega arith, refl)
    | inl k ↦ elim (Bool-cases w.scan.pairing_mode) [
      | inl m ↦ rw (a, k, m) (omega arith, refl)
      | inr m ↦ rw (a, k, m) (omega arith, refl)
    ]
  ]
]

attempts-connect_peer :
    (p : Platform) (addr : Addr) (w : World)
    → AtMostOne true w (Connection.connect_peer p (some addr) w).1
unfolding Connection.connect_peer Connection.on_connect_failure Reconnect.note_failure
    post_event_with_payload post_event make_event attempts
attempts-connect_peer p addr w = ground arith

attempts-post :
    (p : Platform) (type : EventType) (w : World)
    → attempts (post_simple_event p type w).1.calls ≡ attempts w.calls
unfolding post_simple_event post_event make_event attempts
attempts-post p type w = ground arith

attempts-maybe_start_connect :
    (p : Platform) (addr : Addr) (w : World)
    → AtMostOne (not (Connection.is_busy w)) w (maybe_start_connect p addr true w).1
unfolding maybe_start_connect attempts Reconnect.note_attempt_started
attempts-maybe_start_connect p addr w = grind (
  arith,
  attempts-stop p w,
  attempts-connect_peer p addr (stop p w).1,
  attempts-post p EventType.known_device_found,
)

and_last : (a b c : Bool) → (a && b) ≡ true → c ≡ true → (a && b && c) ≡ true
and_last a b c h k = ground arith

note_seen :
    (w : World)
    → let seen = (Reconnect.note_known_peer_seen w).1 in
      (attempts seen.calls ≡ attempts w.calls)
      × (Connection.is_busy seen ≡ Connection.is_busy w)
      × (Reconnect.should_attempt_now seen
          ≡ (w.reconnect.peer_visible && (is_idle w.reconnect.mode || w.reconnect.attempt_armed)))
unfolding Reconnect.note_known_peer_seen Reconnect.should_attempt_now Reconnect.schedule_attempt_in
    Reconnect.arm_visibility_timeout Connection.is_busy attempts
note_seen w = ground arith

-- While the bonded keyboard is looked for, an advertisement asks the stack for at most one connection,
-- and for none unless it is connectable, the keyboard was visible before, the schedule is idle or the
-- attempt armed, and no connection exists. The first sighting therefore never connects.
pub known_connects_when_due :
    (p : Platform) (info : ScanInfo) (w : World)
    → let before = attempts w.calls in
      let after = attempts (recv_known p info w).calls in
      (after ≡ before) ⊎ ((after ≡ suc before) × (is_due info w ≡ true))
unfolding recv_known attempts Connection.is_busy
known_connects_when_due p info w =
    let known =
      with_scan (λ s. record s { last_known_peer = info.addr; last_known_peer_valid = true }) w in
    let seen = (Reconnect.note_known_peer_seen known).1 in
    let (same_count, same_busy, due) = note_seen known in
    elim (Bool-cases info.connectable) [
      | inr c ↦ rw c (inl refl)
      | inl c ↦ elim (Bool-cases (Reconnect.should_attempt_now seen)) [
        | inr d ↦ rw (c, d) (inl same_count)
        | inl d ↦ elim (attempts-maybe_start_connect p info.addr seen) [
          | inl none_made ↦ rw (c, d) (inl (none_made ∙ same_count))
          | inr made ↦
              rw (c, d)
                (inr (
                  made.0 ∙ ap suc same_count,
                  and_last w.reconnect.peer_visible
                      (is_idle w.reconnect.mode || w.reconnect.attempt_armed) _ (sym due ∙ d)
                      (ap not (sym same_busy) ∙ made.1),
                ))
        ]
      ]
    ]
