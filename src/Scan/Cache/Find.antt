-- ===== src/Scan/Cache/Find.antt =====
-- The choice of a slot of the cache in main/src/ble_scan.c.
use zmk_usb_bridge.Prelude.{
  ℕ, zero, suc, ◌≡◌, ◌<◌, refl, ◌⊎◌, inl, inr, true, false, not, ◌||◌, List, [], ◌∷◌, Option, none,
  some, arith, length, get_elem?, set, get_elem?-set_self, get_elem?-set_ne, ℕ_discrete,
}
use zmk_usb_bridge.Types.{Addr}
use zmk_usb_bridge.World.{CandidateSlot, Platform}
use zmk_usb_bridge.Scan.Cache.{
  Search, search_slots, choose_slot, place, nothing_found, initialize_candidate_slot, is_missing,
  use_slot,
}
use zmk_usb_bridge.Scan.Cache.Loop.{
  AreTimed, IsBelow, IsSound, has_one, holds, Searched, search_slots-Searched,
}

module _ (p : Platform) (addr : Addr) where
  -- The address has a slot of the cache, fresh, and the slot `j` is another one only if it is as before.
  record Placed (now j : ℕ) (cache : List CandidateSlot) (result : Option ℕ × List CandidateSlot)
      : Type 0 where
    index : ℕ
    slot : CandidateSlot
    chosen : result.0 ≡ some index
    stored : get_elem? result.1 index ≡ some slot
    held : holds p addr slot ≡ true
    fresh : slot.last_seen_ms ≡ now
    others : (index ≡ j) ⊎ (get_elem? result.1 j ≡ get_elem? cache j)

  set-others :
      (i j : ℕ) (slot : CandidateSlot) (cache : List CandidateSlot)
      → (i ≡ j) ⊎ (get_elem? (set cache i slot) j ≡ get_elem? cache j)
  set-others i j slot cache = elim (ℕ_discrete i j) [
    | yes e ↦ inl e
    | no n ↦ inr (get_elem?-set_ne cache slot n)
  ]

  inside :
      (cache : List CandidateSlot) (i : ℕ) (slot : CandidateSlot)
      → get_elem? cache i ≡ some slot
      → i < length cache
  inside [] i slot h = ground arith
  inside (x ∷ rest) zero slot h = omega arith
  inside (x ∷ rest) (suc i) slot h = omega (arith, inside rest i slot h)

  place_own :
      (now j i : ℕ) (cache : List CandidateSlot) (slot : CandidateSlot)
      → get_elem? cache i ≡ some slot
      → holds p addr slot ≡ true
      → Placed now j cache (some i, use_slot addr now true (some i) cache)
  unfolding use_slot
  place_own now j i cache slot at h = rw at (record {
    index = i;
    slot = record slot { last_seen_ms = now };
    chosen = refl;
    stored = get_elem?-set_self cache i _ (inside cache i slot at);
    held = h;
    fresh = refl;
    others = set-others i j _ cache;
  })

  place_new :
      (now j i : ℕ) (cache : List CandidateSlot)
      → p.addr_eq addr addr ≡ true
      → i < length cache
      → Placed now j cache (some i, use_slot addr now false (some i) cache)
  unfolding use_slot initialize_candidate_slot
  place_new now j i cache reflexive below = record {
    index = i;
    slot = initialize_candidate_slot addr now;
    chosen = refl;
    stored = get_elem?-set_self cache i _ below;
    held = reflexive;
    fresh = refl;
    others = set-others i j _ cache;
  }

  pick_below :
      (n seen : ℕ) (free stale oldest : Option ℕ)
      → IsBelow n free
      → IsBelow n stale
      → IsBelow n oldest
      → (not (is_missing free) || not (is_missing oldest)) ≡ true
      → let found : Search = record {
        free_slot = free;
        stale_slot = stale;
        oldest_slot = oldest;
        oldest_seen_ms = seen;
      } in
        (i : ℕ) × (choose_slot none found ≡ some i) × (i < n)
  unfolding choose_slot
  pick_below n seen (some i) stale oldest f s o h = (i, refl, f)
  pick_below n seen none (some i) oldest f s o h = (i, refl, s)
  pick_below n seen none none (some i) f s o h = (i, refl, o)
  pick_below n seen none none none f s o h = ground arith

  choose_below :
      (n : ℕ) (found : Search)
      → IsSound n found
      → has_one found ≡ true
      → (i : ℕ) × (choose_slot none found ≡ some i) × (i < n)
  choose_below n found sound h =
      pick_below n found.oldest_seen_ms found.free_slot found.stale_slot found.oldest_slot
        sound.free sound.stale sound.oldest h

  placed :
      (now j : ℕ) (cache : List CandidateSlot) (own : Option ℕ) (found : Search)
      → p.addr_eq addr addr ≡ true
      → Searched p addr (length cache) 0 cache (own, found)
      → Placed now j cache (
        choose_slot own found,
        use_slot addr now (not (is_missing own)) (choose_slot own found) cache,
      )
  unfolding choose_slot
  placed now j cache (some i) found reflexive s =
      let (k, slot, e, at, h) = s.own in
      let same_index : i ≡ k = omega arith in place_own now j i cache slot (rw same_index at) h
  placed now j cache none found reflexive s =
      let (i, chosen, below) = choose_below (length cache) found s.sound (ground arith) in
      rw chosen (place_new now j i cache reflexive below)

-- The search for the slot of an address always ends with a slot: one that is in use by that address
-- and was seen now, while every other slot is as before. An advertiser is therefore never dropped for
-- want of space. The cache is not empty, and its times are below `INT64_MAX`.
pub place-total :
    (p : Platform) (addr : Addr) (now j : ℕ) (cache : List CandidateSlot)
    → p.addr_eq addr addr ≡ true
    → AreTimed cache
    → 0 < length cache
    → let (choice, after) = place p addr now cache in
      (i : ℕ) × (slot : CandidateSlot) × (choice ≡ some i)
      × (get_elem? after i ≡ some slot)
      × (holds p addr slot ≡ true)
      × (slot.last_seen_ms ≡ now)
      × ((i ≡ j) ⊎ (get_elem? after j ≡ get_elem? cache j))
unfolding place
place-total p addr now j cache reflexive timed nonempty =
    let searched =
      search_slots-Searched p addr now (length cache) 0 cache nothing_found (omega arith) timed
        (record { free = tt; stale = tt; oldest = tt; start = inr refl }) (inr nonempty) in
    let placed_slot =
      placed p addr now j cache _ (search_slots p addr now 0 cache nothing_found).1 reflexive
        searched in
    (
      placed_slot.index, placed_slot.slot, placed_slot.chosen, placed_slot.stored, placed_slot.held,
      placed_slot.fresh, placed_slot.others,
    )
