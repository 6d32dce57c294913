-- ===== src/Persist.antt =====
-- main/src/persist.c: the metadata of the last peer, kept in memory with its version.
use zmk_usb_bridge.Prelude.{
  ℕ, ◌≡◌, ◌≢◌, ◌⊎◌, inl, inr, refl, Bool, true, false, List, [], ◌∷◌, Option, none, some, arith,
  ◌==◌, if◌then◌else◌, replicate,
}
use zmk_usb_bridge.Types.{
  Status, ok, invalid_argument, not_found, size_mismatch, Metadata, PeerAddrSnapshot,
}
use zmk_usb_bridge.World.{World, Op}

abbrev pub metadata_version_current : ℕ
metadata_version_current = 1

abbrev pub empty_snapshot : PeerAddrSnapshot
empty_snapshot = record { valid = false; addr_type = 0; addr = replicate 6 0 }

abbrev pub empty_metadata : Metadata
empty_metadata = record {
  metadata_version = 0;
  identity_snapshot = empty_snapshot;
  last_peer_snapshot = empty_snapshot;
}

metadata_version_supported : Metadata → Bool
metadata_version_supported m = m.metadata_version == metadata_version_current

unfoldable pub init : Op World
init w = (ok, record w { persist = record { metadata = empty_metadata; has_metadata = false } })

-- The status, and what is written through the pointer. `none` is the pointer NULL.
unfoldable pub load_metadata : Option Metadata → World → Status × Option Metadata
unfolding metadata_version_supported
load_metadata none w = (invalid_argument, none)
load_metadata (some out) w =
    if w.persist.has_metadata
    then if metadata_version_supported w.persist.metadata
      then (ok, some w.persist.metadata)
      else (size_mismatch, some out)
    else (not_found, some out)

unfoldable pub store_metadata : Option Metadata → Op World
store_metadata none w = (invalid_argument, w)
store_metadata (some m) w = (
  ok,
  record w {
    persist = record {
      metadata = record m { metadata_version = metadata_version_current };
      has_metadata = true;
    };
  },
)

unfoldable pub discard_metadata : Op World
discard_metadata w =
    (ok, record w { persist = record { metadata = empty_metadata; has_metadata = false } })

unfoldable pub erase_all : Op World
unfolding discard_metadata
erase_all w = discard_metadata w

-- What the operations keep: stored metadata has the current version.
unfoldable pub IsVersioned : World → Type 0
IsVersioned w = (w.persist.has_metadata ≡ false) ⊎ (w.persist.metadata.metadata_version ≡ 1)

pub data Action : Type 0 where
  load : Option Metadata → Action
  store : Option Metadata → Action
  discard erase : Action

unfoldable pub act : Action → World → Status × World
act (load out) w = ((load_metadata out w).0, w)
act (store m) w = store_metadata m w
act discard w = discard_metadata w
act erase w = erase_all w

pub act_all : List Action → World → World
act_all [] w = w
act_all (a ∷ rest) w = act_all rest (act a w).1

act-IsVersioned : (a : Action) (w : World) → IsVersioned w → IsVersioned (act a w).1
unfolding IsVersioned act load_metadata store_metadata discard_metadata erase_all
act-IsVersioned (load out) w v = v
act-IsVersioned (store none) w v = v
act-IsVersioned (store (some m)) w v = inr refl
act-IsVersioned discard w v = ground arith
act-IsVersioned erase w v = ground arith

act_all-IsVersioned :
    (actions : List Action) (w : World) → IsVersioned w → IsVersioned (act_all actions w)
unfolding act_all
act_all-IsVersioned [] w v = v
act_all-IsVersioned (a ∷ rest) w v = act_all-IsVersioned rest (act a w).1 (act-IsVersioned a w v)

load-ne-mismatch :
    (m : Metadata) (w : World) → IsVersioned w → (load_metadata (some m) w).0 ≢ size_mismatch
unfolding IsVersioned load_metadata
load-ne-mismatch m w v = ground arith

-- From `init` on, no sequence of loads, stores, discards and erasures makes a load report a version
-- mismatch.
pub load_never_mismatches :
    (actions : List Action) (w : World) (out : Metadata)
    → (load_metadata (some out) (act_all actions (init w).1)).0 ≢ size_mismatch
unfolding init IsVersioned
load_never_mismatches actions w out =
    load-ne-mismatch out (act_all actions (init w).1)
      (act_all-IsVersioned actions (init w).1 (inl refl))

-- Metadata that is stored is what the next load returns, with the current version put in, also
-- after further loads; after a discard or an erasure nothing is found.
pub load-store :
    (m out : Metadata) (probe : Option Metadata) (w : World)
    → let stored = (act (load probe) (store_metadata (some m) w).1).1 in
      (load_metadata (some out) stored ≡ (ok, some (record m { metadata_version = 1 })))
      × (load_metadata (some out) (discard_metadata stored).1 ≡ (not_found, some out))
      × (load_metadata (some out) (erase_all stored).1 ≡ (not_found, some out))
unfolding act load_metadata store_metadata discard_metadata erase_all
load-store m out probe w = (refl, refl, refl)
