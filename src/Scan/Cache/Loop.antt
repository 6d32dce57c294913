-- ===== src/Scan/Cache/Loop.antt =====
-- The loop over the slots of the cache in main/src/ble_scan.c.
use zmk_usb_bridge.Prelude.{
  ℕ, suc, ◌+◌, ◌≡◌, ◌≤◌, ◌<◌, refl, ◌⊎◌, inl, inr, Bool, true, false, not, ◌&&◌, ◌||◌, List, [],
  ◌∷◌, Option, none, some, arith, Bool-cases, length, get_elem?,
}
use zmk_usb_bridge.Types.{Addr}
use zmk_usb_bridge.World.{CandidateSlot, Platform}
use zmk_usb_bridge.Scan.Cache.{Search, search_slots, note_slot, int64_max, is_missing}

-- Times are below `INT64_MAX`.
abbrev pub AreTimed : List CandidateSlot → Type 0
AreTimed [] = Unit
AreTimed (s ∷ rest) = (s.last_seen_ms < int64_max) × AreTimed rest

-- A slot of a choice is below `n`.
abbrev pub IsBelow : ℕ → Option ℕ → Type 0
IsBelow n none = Unit
IsBelow n (some i) = i < n

-- What the loop keeps: the slots noted are in the array, and no slot is the oldest only while the
-- oldest time is the start value.
pub record IsSound (n : ℕ) (s : Search) : Type 0 where
  pub free : IsBelow n s.free_slot
  pub stale : IsBelow n s.stale_slot
  pub oldest : IsBelow n s.oldest_slot
  pub start : (is_missing s.oldest_slot ≡ false) ⊎ (s.oldest_seen_ms ≡ int64_max)

-- Some slot was noted.
abbrev pub has_one : Search → Bool
has_one s = not (is_missing s.free_slot) || not (is_missing s.oldest_slot)

note_slot-IsSound :
    (now i n : ℕ) (slot : CandidateSlot) (s : Search)
    → i < n
    → IsSound n s
    → IsSound n (note_slot now i slot s)
unfolding note_slot
note_slot-IsSound now i n slot s below sound = ground arith

note_slot-has_one :
    (now i n : ℕ) (slot : CandidateSlot) (s : Search)
    → slot.last_seen_ms < int64_max
    → IsSound n s
    → has_one (note_slot now i slot s) ≡ true
unfolding note_slot
note_slot-has_one now i n slot s timed sound = ground arith

note_slot-keeps :
    (now i : ℕ) (slot : CandidateSlot) (s : Search)
    → has_one s ≡ true
    → has_one (note_slot now i slot s) ≡ true
unfolding note_slot
note_slot-keeps now i slot s h = ground arith

module _ (p : Platform) (addr : Addr) where
  -- The slot is in use by the address.
  abbrev pub holds : CandidateSlot → Bool
  holds slot = slot.in_use && p.addr_eq slot.addr addr

  -- The address's own slot, of the cache that starts at index `i`.
  abbrev pub IsOwn : ℕ → List CandidateSlot → Option ℕ → Type 0
  IsOwn i cache none = Unit
  IsOwn i cache (some j) =
      (k : ℕ) × (slot : CandidateSlot) × (j ≡ i + k)
      × (get_elem? cache k ≡ some slot)
      × (holds slot ≡ true)

  IsOwn-later :
      (i : ℕ) (slot : CandidateSlot) (rest : List CandidateSlot) (own : Option ℕ)
      → IsOwn (suc i) rest own
      → IsOwn i (slot ∷ rest) own
  IsOwn-later i slot rest none o = tt
  IsOwn-later i slot rest (some j) (k, found, e, at, h) = (suc k, found, omega arith, at, h)

  pub record Searched (n i : ℕ) (cache : List CandidateSlot) (result : Option ℕ × Search)
      : Type 0 where
    pub own : IsOwn i cache result.0
    pub sound : IsSound n result.1
    pub some_slot : (is_missing result.0 ≡ false) ⊎ (has_one result.1 ≡ true)

  pub search_slots-Searched :
      (now n i : ℕ) (cache : List CandidateSlot) (s : Search)
      → i + length cache ≤ n
      → AreTimed cache
      → IsSound n s
      → (has_one s ≡ true) ⊎ (0 < length cache)
      → Searched n i cache (search_slots p addr now i cache s)
  unfolding search_slots
  search_slots-Searched now n i [] s fits timed sound (inl h) = record {
    own = tt;
    sound = sound;
    some_slot = inr h;
  }
  search_slots-Searched now n i [] s fits timed sound (inr h) = absurd (omega arith)
  search_slots-Searched now n i (slot ∷ rest) s fits timed sound h =
      elim (Bool-cases (holds slot)) [
        | inl own ↦ rw own (record {
          own = (0, slot, omega arith, refl, own);
          sound = sound;
          some_slot = inl refl;
        })
        | inr other ↦
            let next = note_slot now i slot s in
            let later =
              search_slots-Searched now n (suc i) rest next (omega arith) timed.1
                (note_slot-IsSound now i n slot s (omega arith) sound)
                (inl (note_slot-has_one now i n slot s timed.0 sound)) in
            rw other (record {
              own = IsOwn-later i slot rest _ later.own;
              sound = later.sound;
              some_slot = later.some_slot;
            })
      ]
