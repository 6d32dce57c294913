-- ===== src/Scan/Pairing.antt =====
-- Which connections main/src/ble_scan.c asks for while it looks for a keyboard to pair with.
use zmk_usb_bridge.Prelude.{
  ℕ, ◌≡◌, refl, ap, ◌∙◌, inl, inr, Bool, true, false, not, ◌&&◌, ◌||◌, List, [], ◌∷◌, some, arith,
  if◌then◌else◌, Bool-cases,
}
use zmk_usb_bridge.Types.{is_ok, EventType, Addr}
use zmk_usb_bridge.World.{World, CandidateSlot, Platform, Call, conn_create, scan_stop}
use zmk_usb_bridge.PairingFilter.{Config, accept_unbonded_candidate}
use zmk_usb_bridge.Queue.{post_simple_event, post_event_with_payload, post_event, make_event}
use zmk_usb_bridge.Reconnect
use zmk_usb_bridge.Connection
use zmk_usb_bridge.Scan.Cache.{put_slot, reset_candidate_cache}
use zmk_usb_bridge.Scan.{
  candidate_of, maybe_log_pairing_candidate, recv_pairing, maybe_start_connect, stop,
}

-- The addresses that the stack was asked to connect to, newest first.
unfoldable pub asked : List Call → List Addr
asked [] = []
asked (conn_create addr ∷ calls) = addr ∷ asked calls
asked (_ ∷ calls) = asked calls

-- Nothing stands in the way of a connection: the scan can be stopped, and there is no other connection.
abbrev pub can_start : Platform → World → Bool
can_start p w =
    (not w.scan.active || is_ok (p.result scan_stop w.calls)) && not (Connection.is_busy w)

asked-stop :
    (p : Platform) (w : World)
    → let (status, after) = stop p w in
      (asked after.calls ≡ asked w.calls)
      × (after.connection ≡ w.connection)
      × (is_ok status ≡ (not w.scan.active || is_ok (p.result scan_stop w.calls)))
unfolding stop asked reset_candidate_cache
asked-stop p w = elim (Bool-cases w.scan.active) [
  | inr a ↦ rw a (refl, refl, refl)
  | inl a ↦ elim (Bool-cases (is_ok (p.result scan_stop w.calls))) [
    | inr k ↦ rw (a, k) (refl, refl, k)
    | inl k ↦ elim (Bool-cases w.scan.pairing_mode) [
      | inl m ↦ rw (a, k, m) (refl, refl, refl)
      | inr m ↦ rw (a, k, m) (refl, refl, refl)
    ]
  ]
]

asked-connect_peer :
    (p : Platform) (addr : Addr) (w : World)
    → asked (Connection.connect_peer p (some addr) w).1.calls
      ≡ (if Connection.is_busy w then asked w.calls else addr ∷ asked w.calls)
unfolding Connection.connect_peer Connection.on_connect_failure Connection.is_busy
    Reconnect.note_failure post_event_with_payload post_event make_event asked
asked-connect_peer p addr w = ground arith

asked-post :
    (p : Platform) (type : EventType) (w : World)
    → asked (post_simple_event p type w).1.calls ≡ asked w.calls
unfolding post_simple_event post_event make_event asked
asked-post p type w = ground arith

asked-maybe_start_connect :
    (p : Platform) (addr : Addr) (w : World)
    → asked (maybe_start_connect p addr false w).1.calls
      ≡ (if can_start p w then addr ∷ asked w.calls else asked w.calls)
unfolding maybe_start_connect Connection.is_busy
asked-maybe_start_connect p addr w =
    let connect = asked-connect_peer p addr (stop p w).1 in
    grind (arith, asked-stop p w, connect, asked-post p EventType.pairing_candidate_found)

-- An advertiser that is not reported yet is reported if the filter accepts it.
recv_pairing_lem :
    (p : Platform) (cfg : Config) (addr : Addr) (i : ℕ) (slot : CandidateSlot) (w : World)
    → slot.reported ≡ false
    → recv_pairing p cfg addr i slot w ≡ (
        if accept_unbonded_candidate cfg (some (candidate_of slot)) w
        then (maybe_start_connect p addr false (put_slot i (record slot { reported = true }) w)).1
        else put_slot i slot w)
unfolding recv_pairing maybe_log_pairing_candidate accept_unbonded_candidate
recv_pairing_lem p cfg addr i slot w r = ground arith

reported_lem :
    (p : Platform) (cfg : Config) (addr : Addr) (i : ℕ) (slot : CandidateSlot) (w : World)
    → slot.reported ≡ true
    → recv_pairing p cfg addr i slot w ≡ (maybe_start_connect p addr false (put_slot i slot w)).1
unfolding recv_pairing maybe_log_pairing_candidate
reported_lem p cfg addr i slot w r = ground arith

was_reported :
    {A : Type 0} (reported accept c : Bool) (x y : A)
    → reported ≡ true
    → (if c then x else y) ≡ (if (reported || accept) && c then x else y)
was_reported true accept c x y r = refl
was_reported false accept c x y r = cc

asked-choice :
    (reported accept c : Bool) (x y : List Addr) (u v : World)
    → reported ≡ false
    → asked u.calls ≡ (if c then x else y)
    → asked v.calls ≡ y
    → asked (if accept then u else v).calls ≡ (if (reported || accept) && c then x else y)
asked-choice true accept c x y u v r f g = cc
asked-choice false true c x y u v r f g = f
asked-choice false false c x y u v r f g = g

-- While pairing, an advertisement asks the stack for a connection to its address, one and no other,
-- exactly if its slot was reported before or the pairing filter accepts what is known of it, the scan
-- can be stopped, and no connection exists. Otherwise the stack is asked for none.
pub recv_pairing-asks :
    (p : Platform) (cfg : Config) (addr : Addr) (i : ℕ) (slot : CandidateSlot) (w : World)
    → asked (recv_pairing p cfg addr i slot w).calls ≡ (
        if (slot.reported || accept_unbonded_candidate cfg (some (candidate_of slot)) w)
          && can_start p w
        then addr ∷ asked w.calls
        else asked w.calls)
unfolding Connection.is_busy
recv_pairing-asks p cfg addr i slot w =
    let accept = accept_unbonded_candidate cfg (some (candidate_of slot)) w in
    let can = can_start p w in
    elim (Bool-cases slot.reported) [
      | inl r ↦
          ap (λ (v : World). asked v.calls) (reported_lem p cfg addr i slot w r)
          ∙ asked-maybe_start_connect p addr (put_slot i slot w)
          ∙ was_reported slot.reported accept can (addr ∷ asked w.calls) (asked w.calls) r
      | inr r ↦
          let stored = put_slot i (record slot { reported = true }) w in
          ap (λ (v : World). asked v.calls) (recv_pairing_lem p cfg addr i slot w r)
          ∙ asked-choice slot.reported accept can (addr ∷ asked w.calls) (asked w.calls)
              (maybe_start_connect p addr false stored).1 (put_slot i slot w) r
              (asked-maybe_start_connect p addr stored) refl
    ]
