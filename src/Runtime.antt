-- ===== src/Runtime.antt =====
-- main/src/ble_runtime.c: the start of the Bluetooth stack and the inventory of its bonds.
use zmk_usb_bridge.Prelude.{
  ℕ, Bool, true, false, ◌||◌, List, [], ◌∷◌, Option, none, some, ltb, if◌then◌else◌, length,
}
use zmk_usb_bridge.Types.{ok, invalid_state, Addr}
use zmk_usb_bridge.World.{
  World, Platform, Op, ◌>>◌, give, effect, branch, invoke, bt_enable, settings_load,
  auth_info_register, unpair,
}

-- `bt_foreach_bond` with `count_bond`.
unfoldable pub refresh_bond_inventory : Platform → World → World
refresh_bond_inventory p w = record w {
  runtime = record (w.runtime) { bond_count = length (p.bonds w.calls) };
}

unfoldable pub on_pairing_complete : Platform → Bool → World → World
unfolding refresh_bond_inventory
on_pairing_complete p bonded w = if bonded then refresh_bond_inventory p w else w

unfoldable pub on_bond_deleted : Platform → World → World
unfolding refresh_bond_inventory
on_bond_deleted p w = refresh_bond_inventory p w

unfoldable pub init : Platform → Op World
unfolding refresh_bond_inventory
init p =
    branch (λ w. w.runtime.ready) (effect (refresh_bond_inventory p))
      (do
        invoke p bt_enable
        invoke p settings_load
        branch (λ w. w.runtime.auth_info_registered) (give ok)
            (do
              invoke p auth_info_register
              effect
                  (λ w. record w { runtime = record (w.runtime) { auth_info_registered = true } }))
        effect (λ w. record w { runtime = record (w.runtime) { ready = true } })
        effect (refresh_bond_inventory p))

unfoldable pub erase_bonds : Platform → Op World
unfolding refresh_bond_inventory
erase_bonds p =
    branch (λ w. w.runtime.ready) (do invoke p unpair; effect (refresh_bond_inventory p))
      (give invalid_state)

unfoldable pub is_ready : World → Bool
is_ready w = w.runtime.ready

unfoldable pub has_bond : World → Bool
has_bond w = ltb 0 w.runtime.bond_count

-- `bt_foreach_bond` with `find_bond`.
find_bond : Platform → Addr → List Addr → Bool
find_bond p peer [] = false
find_bond p peer (a ∷ rest) = p.addr_eq a peer || find_bond p peer rest

unfoldable pub is_peer_bonded : Platform → Option Addr → World → Bool
unfolding find_bond
is_peer_bonded p none w = false
is_peer_bonded p (some peer) w =
    if w.runtime.ready then find_bond p peer (p.bonds w.calls) else false

abbrev bond_count : World → ℕ
bond_count w = w.runtime.bond_count
