-- ===== src/Scan/Cache.antt =====
-- The cache of advertisers of main/src/ble_scan.c. A pointer to a slot is its index.
pub mod Loop
pub mod Find
use zmk_usb_bridge.Prelude.{
  ℕ, zero, suc, ◌+◌, ◌*◌, Bool, true, false, not, ◌&&◌, ◌||◌, List, [], ◌∷◌, Option, none, some,
  ◌==◌, ltb, leb, if◌then◌else◌, get_or, get_elem?, set, take, length, replicate, min,
}
use zmk_usb_bridge.Bytes.{le16}
use zmk_usb_bridge.Types.{Addr}
use zmk_usb_bridge.World.{World, CandidateSlot, ScanState, Platform, log, uptime_get}

abbrev pub cache_size : ℕ
cache_size = 8

abbrev pub scan_name_max : ℕ
scan_name_max = 32

abbrev pub candidate_stale_ms : ℕ
candidate_stale_ms = 3000

-- `INT64_MAX`.
abbrev pub int64_max : ℕ
int64_max = 9223372036854775807

-- `BT_UUID_HIDS_VAL`, `BT_APPEARANCE_GENERIC_HID` and `BT_APPEARANCE_HID_KEYBOARD`.
abbrev pub uuid_hids : ℕ
uuid_hids = 6162

abbrev pub appearance_generic_hid : ℕ
appearance_generic_hid = 960

abbrev pub appearance_hid_keyboard : ℕ
appearance_hid_keyboard = 961

abbrev pub no_addr : Addr
no_addr = record { kind = 0; val = replicate 6 0 }

abbrev pub empty_slot : CandidateSlot
empty_slot = record {
  in_use = false;
  reported = false;
  addr = no_addr;
  connectable = false;
  has_hid_service = false;
  has_keyboard_appearance = false;
  has_local_name = false;
  last_seen_ms = 0;
  local_name = [];
}

abbrev pub with_scan : (ScanState → ScanState) → World → World
with_scan f w = record w { scan = f w.scan }

abbrev pub slot_at : ℕ → World → Option CandidateSlot
slot_at i w = get_elem? w.scan.cache i

abbrev pub put_slot : ℕ → CandidateSlot → World → World
put_slot i slot w = with_scan (λ s. record s { cache = set s.cache i slot }) w

unfoldable pub reset_candidate_cache : World → World
reset_candidate_cache w = with_scan (λ s. record s { cache = replicate cache_size empty_slot }) w

unfoldable pub initialize_candidate_slot : Addr → ℕ → CandidateSlot
initialize_candidate_slot addr now_ms = record {
  in_use = true;
  reported = false;
  addr = addr;
  connectable = false;
  has_hid_service = false;
  has_keyboard_appearance = false;
  has_local_name = false;
  last_seen_ms = now_ms;
  local_name = [];
}

-- The local variables of the search.
pub record Search : Type 0 where
  pub free_slot : Option ℕ
  pub stale_slot : Option ℕ
  pub oldest_slot : Option ℕ
  pub oldest_seen_ms : ℕ

abbrev pub is_missing : Option ℕ → Bool
is_missing none = true
is_missing (some i) = false

-- The body of the loop for a slot that is not the address's.
unfoldable pub note_slot : ℕ → ℕ → CandidateSlot → Search → Search
note_slot now_ms i slot found =
    let stale =
      if slot.in_use
        && leb (slot.last_seen_ms + candidate_stale_ms) now_ms
        && is_missing found.stale_slot
      then some i
      else found.stale_slot in
    let older = slot.in_use && ltb slot.last_seen_ms found.oldest_seen_ms in
    if not slot.in_use && is_missing found.free_slot
    then record found { free_slot = some i }
    else record found {
      stale_slot = stale;
      oldest_slot = if older then some i else found.oldest_slot;
      oldest_seen_ms = if older then slot.last_seen_ms else found.oldest_seen_ms;
    }

-- The loop from the slot `i` on: the slot of the address, and the other slots that were noted.
unfoldable pub search_slots :
    Platform → Addr → ℕ → ℕ → List CandidateSlot → Search → Option ℕ × Search
unfolding note_slot
search_slots p addr now_ms i [] found = (none, found)
search_slots p addr now_ms i (slot ∷ rest) found =
    let later = search_slots p addr now_ms (suc i) rest (note_slot now_ms i slot found) in
    if slot.in_use && p.addr_eq slot.addr addr then (some i, found) else later

-- The slot to be used: the address's own, a free one, a stale one, or the oldest.
unfoldable pub choose_slot : Option ℕ → Search → Option ℕ
choose_slot (some i) found = some i
choose_slot none found = elim found.free_slot [
  | some i ↦ some i
  | none ↦ elim found.stale_slot [ some i ↦ some i | none ↦ found.oldest_slot ]
]

abbrev nothing_found : Search
nothing_found = record {
  free_slot = none;
  stale_slot = none;
  oldest_slot = none;
  oldest_seen_ms = int64_max;
}

-- The slot is refreshed if it is the address's own, and given to the address if it is not.
unfoldable pub use_slot : Addr → ℕ → Bool → Option ℕ → List CandidateSlot → List CandidateSlot
unfolding initialize_candidate_slot
use_slot addr now_ms own none cache = cache
use_slot addr now_ms own (some i) cache =
    if own
    then elim (get_elem? cache i) [
      | none ↦ cache
      | some slot ↦ set cache i (record slot { last_seen_ms = now_ms })
    ]
    else set cache i (initialize_candidate_slot addr now_ms)

-- The choice and the cache after it.
unfoldable pub place : Platform → Addr → ℕ → List CandidateSlot → Option ℕ × List CandidateSlot
unfolding search_slots choose_slot use_slot
place p addr now_ms cache =
    let (own, found) = search_slots p addr now_ms 0 cache nothing_found in
    let choice = choose_slot own found in
    (choice, use_slot addr now_ms (not (is_missing own)) choice cache)

unfoldable pub find_candidate_slot : Platform → Addr → World → Option ℕ × World
unfolding place
find_candidate_slot p addr w =
    let (choice, cache) = place p addr (p.uptime w.calls) w.scan.cache in
    (choice, with_scan (λ s. record s { cache = cache }) (log uptime_get w))

-- `bt_data` by its type, as far as the code tells the types apart.
pub data AdElement : Type 0 where
  uuid16_some uuid16_all gap_appearance name_complete name_shortened other : List ℕ → AdElement

unfoldable pub appearance_is_keyboard_family : ℕ → Bool
appearance_is_keyboard_family appearance =
    appearance == appearance_hid_keyboard || appearance == appearance_generic_hid

-- The loop over the 16-bit words of the data.
unfoldable pub lists_hid_service : List ℕ → Bool
lists_hid_service [] = false
lists_hid_service (low ∷ []) = false
lists_hid_service (low ∷ high ∷ rest) =
    if le16 low high == uuid_hids then true else lists_hid_service rest

-- The C string at the start of an array.
unfoldable pub c_string : List ℕ → List ℕ
c_string [] = []
c_string (c ∷ rest) = if c == 0 then [] else c ∷ c_string rest

name_element : List ℕ → CandidateSlot → CandidateSlot
unfolding c_string
name_element bytes slot =
    let copied = take scan_name_max bytes in
    record slot { local_name = c_string copied; has_local_name = ltb 0 (length copied) }

uuid_element : List ℕ → CandidateSlot → CandidateSlot
unfolding lists_hid_service
uuid_element bytes slot = record slot {
  has_hid_service = slot.has_hid_service || lists_hid_service bytes;
}

appearance_element : List ℕ → CandidateSlot → CandidateSlot
unfolding appearance_is_keyboard_family
appearance_element bytes slot =
    if leb 2 (length bytes)
    then record slot {
      has_keyboard_appearance =
          slot.has_keyboard_appearance
          || appearance_is_keyboard_family (le16 (get_or bytes 0 0) (get_or bytes 1 0));
    }
    else slot

unfoldable pub parse_ad_element : AdElement → CandidateSlot → CandidateSlot
unfolding uuid_element appearance_element name_element
parse_ad_element (uuid16_some bytes) slot = uuid_element bytes slot
parse_ad_element (uuid16_all bytes) slot = uuid_element bytes slot
parse_ad_element (gap_appearance bytes) slot = appearance_element bytes slot
parse_ad_element (name_complete bytes) slot = name_element bytes slot
parse_ad_element (name_shortened bytes) slot = name_element bytes slot
parse_ad_element (other bytes) slot = slot

-- `bt_data_parse` calls it on one element after the other, since it always asks for more.
unfoldable pub parse_ad_elements : List AdElement → CandidateSlot → CandidateSlot
parse_ad_elements [] slot = slot
parse_ad_elements (e ∷ rest) slot = parse_ad_elements rest (parse_ad_element e slot)
