-- ===== src/Examples/RadioRuns.antt =====
-- Runs of the reconnect schedule, of the scan and of the pairing filter.
use zmk_usb_bridge.Prelude.{
  ℕ, ◌≡◌, ◌≢◌, ◌↔◌, ◌⊎◌, ◌||◌, ◌&&◌, inl, refl, true, false, List, [], ◌∷◌, some, none,
  if◌then◌else◌, arith, get_elem?,
}
use zmk_usb_bridge.Prelude.Int.{pos}
use zmk_usb_bridge.Types.{Status, ok, size_mismatch, PairingCandidate}
use zmk_usb_bridge.World.{World, CandidateSlot, reschedule, attempt_work, ReconnectMode}
use zmk_usb_bridge.Reconnect
use zmk_usb_bridge.Reconnect.Schedule.{
  Action, act, act_all, IsValid, HasRetry, is_scheduled, fail_times, last_call, run-IsValid,
  HasRetry-act, failure_schedule,
}
use zmk_usb_bridge.PairingFilter.{
  Config, accept_unbonded_candidate, configured_entries, parse_entries, trim_in_place,
}
use zmk_usb_bridge.PairingFilter.Names.{NamePasses, accept_candidate_iff}
use zmk_usb_bridge.PairingFilter.Entries.{
  Ending, IsName, configured_entries_total, entries_of_joined,
}
use zmk_usb_bridge.Scan.Cache.{place}
use zmk_usb_bridge.Scan.Cache.Loop.{holds}
use zmk_usb_bridge.Scan.Cache.Find.{place-total}
use zmk_usb_bridge.Scan.{
  candidate_of, recv_pairing, recv_known, ScanInfo, maybe_start_connect, stop,
}
use zmk_usb_bridge.Scan.Pairing.{asked, can_start, recv_pairing-asks}
use zmk_usb_bridge.Scan.Connect.{attempts, is_due, known_connects_when_due}
use zmk_usb_bridge.Scan.Stall.{failure_event, found_event, failed_create_stalls}
use zmk_usb_bridge.Queue.{posted}
use zmk_usb_bridge.Connection.Security
use zmk_usb_bridge.Persist
use zmk_usb_bridge.Persist.{load_never_mismatches}
use zmk_usb_bridge.Examples.{working, refusing, world, keyboard_addr, no_metadata}

abbrev bad_day : List Action
bad_day =
    Action.peer_seen ∷ Action.failure ∷ Action.failure ∷ Action.attempt_expired ∷ Action.failure
    ∷ []

run-IsValid_example : IsValid (act_all bad_day (Reconnect.init world).1).reconnect
run-IsValid_example = run-IsValid bad_day world

HasRetry-act_example : HasRetry (act Action.failure world)
HasRetry-act_example = HasRetry-act Action.failure world (inl refl)

failure_schedule_example :
    let after = fail_times 4 world in
    (last_call after.calls ≡ some (reschedule attempt_work 5000))
    × (after.reconnect.mode ≡ ReconnectMode.backoff)
failure_schedule_example = failure_schedule 3 world refl refl refl

-- "Corne", "CORNE" and "Lily".
abbrev corne : List ℕ
corne = b'C' ∷ b'o' ∷ b'r' ∷ b'n' ∷ b'e' ∷ []

abbrev corne_upper : List ℕ
corne_upper = b'C' ∷ b'O' ∷ b'R' ∷ b'N' ∷ b'E' ∷ []

abbrev lily : List ℕ
lily = b'L' ∷ b'i' ∷ b'l' ∷ b'y' ∷ []

abbrev listing : List ℕ
listing = b'C' ∷ b'o' ∷ b'r' ∷ b'n' ∷ b'e' ∷ b',' ∷ b'L' ∷ b'i' ∷ b'l' ∷ b'y' ∷ []

abbrev config : Config
config = record { allowlist_enabled = true; allowlist = listing }

abbrev candidate : PairingCandidate
candidate = record {
  connectable = true;
  has_hid_service = true;
  has_keyboard_appearance = true;
  local_name = some corne;
}

accept_candidate_iff_example :
    (accept_unbonded_candidate config (some candidate) world ≡ true)
    ↔ ((true ≡ true) × (true ≡ true) × (true ≡ true) × NamePasses config (some corne) [])
accept_candidate_iff_example = accept_candidate_iff config candidate world

configured_entries_total_example :
    Ending (configured_entries config)
    × ((r : Status × List (List ℕ)) × (parse_entries 11 listing [] ≡ some r))
configured_entries_total_example = configured_entries_total config

corne-IsName : IsName corne
unfolding trim_in_place
corne-IsName = record { entry = ground arith; no_comma = ground arith; trimmed = refl }

lily-IsName : IsName lily
unfolding trim_in_place
lily-IsName = record { entry = ground arith; no_comma = ground arith; trimmed = refl }

entries_of_joined_example : configured_entries config ≡ (ok, corne ∷ lily ∷ [])
entries_of_joined_example =
    entries_of_joined (corne ∷ lily ∷ []) (corne-IsName, (lily-IsName, tt)) (omega arith)
      (omega arith)

abbrev slot : CandidateSlot
slot = record {
  in_use = true;
  reported = false;
  addr = keyboard_addr;
  connectable = true;
  has_hid_service = true;
  has_keyboard_appearance = true;
  has_local_name = true;
  last_seen_ms = 10;
  local_name = corne;
}

recv_pairing-asks_example : asked (recv_pairing working config keyboard_addr 0 slot world).calls ≡ (
    if (false || accept_unbonded_candidate config (some (candidate_of slot)) world)
      && can_start working world
    then keyboard_addr ∷ []
    else [])
unfolding asked
recv_pairing-asks_example = recv_pairing-asks working config keyboard_addr 0 slot world

abbrev info : ScanInfo
info = record { addr = keyboard_addr; connectable = true }

known_connects_when_due_example :
    let after = attempts (recv_known working info world).calls in
    (after ≡ 0) ⊎ ((after ≡ 1) × (is_due info world ≡ true))
unfolding attempts
known_connects_when_due_example = known_connects_when_due working info world

failed_create_stalls_example :
    let (status, after) = maybe_start_connect refusing keyboard_addr true world in
    (status ≡ ok)
    × (after.connection.active_conn ≡ none)
    × (after.reconnect.attempt_armed ≡ false)
    × (is_scheduled after.calls ≡ false)
    × (posted refusing after.calls ≡ found_event ∷ failure_event (pos 12) ∷ [])
unfolding posted
failed_create_stalls_example =
    failed_create_stalls refusing keyboard_addr world refl refl (λ e calls. refl)
      (unfold stop in refl) refl

abbrev resting : World
resting = record world { scan = record (world.scan) { active = false } }

place-total_example :
    let (choice, after) = place working keyboard_addr 5000 (slot ∷ []) in
    (i : ℕ) × (chosen : CandidateSlot) × (choice ≡ some i)
    × (get_elem? after i ≡ some chosen)
    × (holds working keyboard_addr chosen ≡ true)
    × (chosen.last_seen_ms ≡ 5000)
    × ((i ≡ 0) ⊎ (get_elem? after 0 ≡ some slot))
place-total_example =
    place-total working keyboard_addr 5000 0 (slot ∷ []) refl (omega arith, tt) (omega arith)

load_never_mismatches_example :
    (Persist.load_metadata
      (some no_metadata)
      (Persist.act_all (Persist.Action.store (some no_metadata) ∷ []) (Persist.init world).1)).0
    ≢ size_mismatch
load_never_mismatches_example =
    load_never_mismatches (Persist.Action.store (some no_metadata) ∷ []) world no_metadata

abbrev suspicious : World
suspicious = record world { connection = record (world.connection) { bond_mismatch_streak = 1 } }
