-- ===== src/Scan/Bonds.antt =====
-- Which advertisers the scan for the bonded keyboard in main/src/ble_scan.c hears.
use zmk_usb_bridge.Prelude.{
  ◌≡◌, refl, inl, inr, Bool, true, false, not, ◌&&◌, List, [], ◌∷◌, arith, if◌then◌else◌,
  Bool-cases, ◌∙◌, ap,
}
use zmk_usb_bridge.Types.{is_ok, Addr}
use zmk_usb_bridge.World.{World, Platform, Call, accept_list_clear, accept_list_add, log}
use zmk_usb_bridge.Queue.{post_simple_event, post_event}
use zmk_usb_bridge.Scan.Cache.{reset_candidate_cache}
use zmk_usb_bridge.Scan.{add_bonds, start_scan, start_known_device}

-- The accept list of the controller after the calls, newest first; a call that fails does nothing.
unfoldable pub accept_list : Platform → List Call → List Addr
accept_list p [] = []
accept_list p (accept_list_clear ∷ calls) =
    if is_ok (p.result accept_list_clear calls) then [] else accept_list p calls
accept_list p (accept_list_add addr ∷ calls) =
    let before = accept_list p calls in
    if is_ok (p.result (accept_list_add addr) calls) then addr ∷ before else before
accept_list p (c ∷ calls) = accept_list p calls

-- The addresses on top of a list, the last of them first.
unfoldable pub onto : List Addr → List Addr → List Addr
onto [] list = list
onto (addr ∷ rest) list = onto rest (addr ∷ list)

add_bonds-list :
    (p : Platform) (bonds : List Addr) (w : World)
    → is_ok (add_bonds p bonds w).0 ≡ true
    → accept_list p (add_bonds p bonds w).1.calls ≡ onto bonds (accept_list p w.calls)
unfolding add_bonds accept_list onto
add_bonds-list p [] w h = refl
add_bonds-list p (bond ∷ rest) w h =
    elim (Bool-cases (is_ok (p.result (accept_list_add bond) w.calls))) [
      | inl k ↦ rw k (
          add_bonds-list p rest (log (accept_list_add bond) w) (rw k at h)
          ∙ ap (onto rest) (rw k refl))
      | inr k ↦ absurd (ground arith)
    ]

start_scan-list :
    (p : Platform) (active filtered pairing : Bool) (w : World)
    → accept_list p (start_scan p active filtered pairing w).1.calls ≡ accept_list p w.calls
unfolding start_scan accept_list post_simple_event post_event reset_candidate_cache
start_scan-list p active filtered pairing w = ground arith

-- When the scan for the bonded keyboard starts with status OK, not having run before, the accept list
-- of the controller holds exactly the bonds that the stack visits, each once, and nothing that was in
-- it before: an unbonded advertiser is not heard.
pub start_known_device-accepts :
    (p : Platform) (w : World)
    → (w.scan.active && not w.scan.pairing_mode) ≡ false
    → is_ok (start_known_device p w).0 ≡ true
    → accept_list p (start_known_device p w).1.calls
      ≡ onto (p.bonds (accept_list_clear ∷ w.calls)) []
unfolding start_known_device accept_list
start_known_device-accepts p w fresh o =
    let cleared = log accept_list_clear w in
    let bonds = p.bonds cleared.calls in
    elim (Bool-cases (is_ok (p.result accept_list_clear w.calls))) [
      | inr k ↦ let bad = rw (fresh, k) at o in absurd (ground arith)
      | inl k ↦ elim (Bool-cases (is_ok (add_bonds p bonds cleared).0)) [
        | inr a ↦ let bad = rw (fresh, k, a) at o in absurd (ground arith)
        | inl a ↦
            rw (fresh, k, a)
              (start_scan-list p false true false (add_bonds p bonds cleared).1
                ∙ add_bonds-list p bonds cleared a
                ∙ ap (onto bonds) (rw k refl))
      ]
    ]
