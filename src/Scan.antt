-- ===== src/Scan.antt =====
-- main/src/ble_scan.c: the cache of advertisers, the scan for a keyboard to pair with and the scan for
-- the bonded one, and the start of a connection; with the attempt timer of main/src/ble_reconnect.c.
pub mod Cache
pub mod Connect
pub mod Pairing
pub mod Bonds
pub mod Stall
use zmk_usb_bridge.Prelude.{
  ℕ, zero, suc, ◌+◌, Bool, true, false, not, ◌&&◌, ◌||◌, List, [], ◌∷◌, Option, none, some, ◌==◌,
  ltb, leb, if◌then◌else◌, replicate, same,
}
use zmk_usb_bridge.Prelude.Int.{ℤ}
use zmk_usb_bridge.Types.{
  Status, ok, invalid_state, not_found, is_ok, EventType, PairingCandidate, Addr,
}
use zmk_usb_bridge.World.{
  World, CandidateSlot, ScanState, Platform, Op, ◌>>◌, give, effect, ignoring, branch, log, invoke,
  scan_cb_register, scan_start, scan_stop, accept_list_clear, accept_list_add,
}
use zmk_usb_bridge.PairingFilter.{Config, name_allowed, accept_unbonded_candidate}
use zmk_usb_bridge.Queue.{post_simple_event}
use zmk_usb_bridge.Reconnect
use zmk_usb_bridge.Runtime
use zmk_usb_bridge.Connection
use zmk_usb_bridge.Scan.Cache.{
  with_scan, reset_candidate_cache, find_candidate_slot, AdElement, parse_ad_elements, slot_at,
  put_slot, no_addr,
}

abbrev pub clear_last_known_peer_addr : World → World
clear_last_known_peer_addr w =
    with_scan (λ s. record s { last_known_peer = no_addr; last_known_peer_valid = false }) w

-- `bt_foreach_bond` with `add_bond_to_accept_list`: the error stays once there is one.
unfoldable pub add_bonds : Platform → List Addr → Op World
add_bonds p [] w = (ok, w)
add_bonds p (bond ∷ rest) w =
    let (err, after) = invoke p (accept_list_add bond) w in
    let more = add_bonds p rest after in if is_ok err then more else (err, after)

abbrev pub set_active : Bool → World → World
set_active b w = with_scan (λ s. record s { active = b }) w

-- The start of a scan that does not run yet. `param` is whether it is active and whether it is
-- filtered by the accept list.
fresh_scan : Platform → Bool → Bool → Bool → Op World
fresh_scan p active filtered pairing_mode = do
  effect reset_candidate_cache
  invoke p (scan_start active filtered)
  effect (with_scan (λ s. record s { active = true; pairing_mode = pairing_mode }))
  post_simple_event p EventType.scan_started

unfoldable pub start_scan : Platform → Bool → Bool → Bool → Op World
unfolding fresh_scan
start_scan p active filtered pairing_mode =
    branch (λ w. Runtime.is_ready w)
      (branch (λ w. w.scan.active)
        (branch (λ w. same w.scan.pairing_mode pairing_mode) (give ok)
          (do
            invoke p scan_stop
            effect (set_active false)
            fresh_scan p active filtered pairing_mode))
        (fresh_scan p active filtered pairing_mode))
      (give invalid_state)

unfoldable pub init : Op World
init w =
    let registered =
      if w.scan.callbacks_registered
      then w
      else with_scan (λ s. record s { callbacks_registered = true }) (log scan_cb_register w) in
    let idle = with_scan (λ s. record s { active = false; pairing_mode = false }) registered in
    (ok, clear_last_known_peer_addr (reset_candidate_cache idle))

unfoldable pub start_pairing : Platform → Op World
start_pairing p = do effect clear_last_known_peer_addr; start_scan p true false true

unfoldable pub start_known_device : Platform → Op World
start_known_device p =
    branch (λ w. w.scan.active && not w.scan.pairing_mode) (give ok)
      (do
        invoke p accept_list_clear
        (λ w. add_bonds p (p.bonds w.calls) w)
        start_scan p false true false)

unfoldable pub stop : Platform → Op World
stop p =
    branch (λ w. w.scan.active)
      (do
        invoke p scan_stop
        effect (set_active false)
        branch (λ w. w.scan.pairing_mode) (give ok) (ignoring (invoke p accept_list_clear))
        effect reset_candidate_cache)
      (give ok)

unfoldable pub on_scan_timeout : World → World
on_scan_timeout w = set_active false w

unfoldable pub maybe_start_connect : Platform → Addr → Bool → Op World
maybe_start_connect p addr known_device =
    branch (λ w. known_device && Connection.is_busy w) (give invalid_state)
      (do
        stop p
        Connection.connect_peer p (some addr)
        branch (λ _. known_device) (ignoring Reconnect.note_attempt_started) (give ok)
        post_simple_event p (
            if known_device
            then EventType.known_device_found
            else EventType.pairing_candidate_found))

abbrev pub candidate_of : CandidateSlot → PairingCandidate
candidate_of slot = record {
  connectable = slot.connectable;
  has_hid_service = slot.has_hid_service;
  has_keyboard_appearance = slot.has_keyboard_appearance;
  local_name = if slot.has_local_name then some slot.local_name else none;
}

-- The slot after it was looked at: whether it is to be connected to.
unfoldable pub maybe_log_pairing_candidate : Config → World → CandidateSlot → CandidateSlot
maybe_log_pairing_candidate cfg w slot =
    let candidate = candidate_of slot in
    if slot.reported
    then slot
    else if not slot.connectable || not slot.has_hid_service || not slot.has_keyboard_appearance
    then slot
    else if not (name_allowed cfg candidate.local_name w)
    then slot
    else if not (accept_unbonded_candidate cfg (some candidate) w)
    then slot
    else record slot { reported = true }

-- What the stack tells of a received advertisement: its address, and whether it is connectable.
pub record ScanInfo : Type 0 where
  pub addr : Addr
  pub connectable : Bool

-- The part of `on_scan_recv` for a scan that pairs.
unfoldable pub recv_pairing : Platform → Config → Addr → ℕ → CandidateSlot → World → World
recv_pairing p cfg addr i slot w =
    let looked_at = maybe_log_pairing_candidate cfg w slot in
    let stored = put_slot i looked_at w in
    if looked_at.reported then (maybe_start_connect p addr false stored).1 else stored

-- The part for a scan for the bonded keyboard.
unfoldable pub recv_known : Platform → ScanInfo → World → World
recv_known p info w =
    let known =
      with_scan (λ s. record s { last_known_peer = info.addr; last_known_peer_valid = true }) w in
    let seen = (Reconnect.note_known_peer_seen known).1 in
    if info.connectable
    then if Reconnect.should_attempt_now seen
      then (maybe_start_connect p info.addr true seen).1
      else seen
    else w

recv_slot : Platform → Config → ScanInfo → List AdElement → ℕ → CandidateSlot → World → World
unfolding recv_pairing recv_known
recv_slot p cfg info elements i slot w =
    let parsed =
      parse_ad_elements elements
        (record slot { connectable = slot.connectable || info.connectable }) in
    let stored = put_slot i parsed w in
    if w.scan.pairing_mode
    then recv_pairing p cfg info.addr i parsed stored
    else recv_known p info stored

recv_at : Platform → Config → ScanInfo → List AdElement → Option ℕ → World → World
unfolding recv_slot
recv_at p cfg info elements none w = w
recv_at p cfg info elements (some i) w = elim (slot_at i w) [
  | none ↦ w
  | some slot ↦ recv_slot p cfg info elements i slot w
]

-- An advertisement: its information, and the elements that `bt_data_parse` finds in its data.
unfoldable pub on_scan_recv : Platform → Config → ScanInfo → List AdElement → World → World
unfolding recv_at
on_scan_recv p cfg info elements w =
    let (found, after) = find_candidate_slot p info.addr w in
    recv_at p cfg info elements found after

unfoldable pub trigger_known_device_attempt : Platform → Op World
trigger_known_device_attempt p =
    branch (λ w. w.scan.pairing_mode || not w.scan.active) (give invalid_state)
      (branch (λ w. not w.scan.last_known_peer_valid) (give not_found)
        (λ w. maybe_start_connect p w.scan.last_known_peer true w))

-- `attempt_timer_fired` of main/src/ble_reconnect.c.
unfoldable pub attempt_timer_fired : Platform → World → World
attempt_timer_fired p w =
    let armed = Reconnect.arm_attempt w in
    if not w.reconnect.peer_visible then armed else (trigger_known_device_attempt p armed).1
