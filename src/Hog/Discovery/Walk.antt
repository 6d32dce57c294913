-- ===== src/Hog/Discovery/Walk.antt =====
-- The walk of main/src/hog_client.c over the report slots: `advance_after_report_ref` and
-- `start_descriptor_discovery`, which call each other.
use zmk_usb_bridge.Prelude.{
  ℕ, zero, suc, ◌+◌, ◌-◌, ◌<◌, ◌≡◌, refl, ◌∙◌, inl, inr, true, false, List, [], ◌∷◌, Option, none,
  some, arith, ltb, leb, length, drop, get_elem?, if◌then◌else◌, Bool-cases,
}
use zmk_usb_bridge.World.{World, Platform, ReportSlot, Op, invoke, discover_descriptors}
use zmk_usb_bridge.Hog.Discovery.{
  next_handle, all_described, at_index, describe, advance, advance_after_report_ref,
  start_descriptor_discovery,
}

-- What a slot skips to matters only at the state at hand.
describe_local :
    (p : Platform) (f g : Op World) (index : ℕ) (slot : Option ReportSlot) (w : World)
    → f w ≡ g w
    → describe p f index slot w ≡ describe p g index slot w
unfolding describe
describe_local p f g index none w h = refl
describe_local p f g index (some slot) w h = ground (arith, h)

-- The two functions satisfy the equations by which the source defines them in terms of each other, so
-- the calls end whatever the slots are: the next index past the last slot ends the walk, and any
-- other index is handed to `start_descriptor_discovery`.
pub advance_after_report_ref_lem :
    (p : Platform) (w : World)
    → let index = suc w.hog.ctx.current_report_index in
      advance_after_report_ref p w ≡ (
        if leb w.hog.ctx.report_count index
        then all_described p (at_index index w)
        else start_descriptor_discovery p index (at_index index w))
unfolding advance_after_report_ref start_descriptor_discovery advance
advance_after_report_ref_lem p w =
    let index = suc w.hog.ctx.current_report_index in
    let count = w.hog.ctx.report_count in
    elim (Bool-cases (leb count index)) [
      | inl past ↦ let none_left : count - index ≡ 0 = ground arith in rw (past, none_left) refl
      | inr within ↦
          let some_left : count - index ≡ suc (count - suc index) = ground arith in
          rw (within, some_left)
            (describe_local p _ _ index (get_elem? w.hog.ctx.reports index) (at_index index w) refl)
    ]

-- The first slot with room for a descriptor behind its value, and its index.
unfoldable pub first_described : ℕ → List ReportSlot → Option (ℕ × ReportSlot)
first_described i [] = none
first_described i (s ∷ slots) =
    let rest = first_described (suc i) slots in
    if ltb s.binding.value_handle s.end_handle then some (i, s) else rest

-- What the walk does from index `i` on, having found a slot or not.
abbrev pub arrive : Platform → ℕ → Option (ℕ × ReportSlot) → Op World
arrive p count none w = all_described p (at_index count w)
arrive p count (some (i, slot)) w =
    invoke p
      (discover_descriptors w.hog.ctx.conn (next_handle slot.binding.value_handle) slot.end_handle)
      (at_index i w)

arrive_again :
    (p : Platform) (count index : ℕ) (found : Option (ℕ × ReportSlot)) (w : World)
    → arrive p count found (at_index index w) ≡ arrive p count found w
arrive_again p count index none w = refl
arrive_again p count index (some (i, slot)) w = refl

-- A slot is taken, or the walk goes on as it does from the next index.
describe-arrive :
    (p : Platform) (skip : Op World) (count index : ℕ) (slot : ReportSlot)
    (rest : Option (ℕ × ReportSlot)) (w : World)
    → skip (at_index index w) ≡ arrive p count rest (at_index index w)
    → describe p skip index (some slot) (at_index index w)
      ≡ arrive p count
          (if ltb slot.binding.value_handle slot.end_handle then some (index, slot) else rest)
          w
unfolding describe
describe-arrive p skip count index slot rest w h =
    elim (Bool-cases (leb slot.end_handle slot.binding.value_handle)) [
      | inl full ↦
          let no_room : ltb slot.binding.value_handle slot.end_handle ≡ false = ground arith in
          rw (full, describe, no_room) (h ∙ arrive_again p count index rest w)
      | inr open_range ↦
          let room : ltb slot.binding.value_handle slot.end_handle ≡ true = ground arith in
          rw (open_range, describe, room) refl
    ]

drop-get_elem? :
    (slots : List ReportSlot) (i : ℕ)
    → i < length slots
    → (slot : ReportSlot) × (get_elem? slots i ≡ some slot)
      × (drop i slots ≡ slot ∷ drop (suc i) slots)
drop-get_elem? [] i h = elim h [ ]
drop-get_elem? (s ∷ slots) zero h = (s, refl, refl)
drop-get_elem? (s ∷ slots) (suc i) h = drop-get_elem? slots i (omega arith)

drop-length : (slots : List ReportSlot) (i : ℕ) → length slots ≡ i → drop i slots ≡ []
drop-length [] zero h = refl
drop-length [] (suc i) h = refl
drop-length (s ∷ slots) zero h = absurd (omega arith)
drop-length (s ∷ slots) (suc i) h = drop-length slots i (omega arith)

advance-arrive :
    (p : Platform) (left count : ℕ) (w : World)
    → left + suc w.hog.ctx.current_report_index ≡ count
    → length w.hog.ctx.reports ≡ count
    → advance p left w
      ≡ arrive p count
          (first_described
            (suc w.hog.ctx.current_report_index)
            (drop (suc w.hog.ctx.current_report_index) w.hog.ctx.reports))
          w
unfolding advance describe first_described
advance-arrive p zero count w e len =
    let here : suc w.hog.ctx.current_report_index ≡ count = omega arith in
    rw (drop-length w.hog.ctx.reports (suc w.hog.ctx.current_report_index) (omega arith), here) refl
advance-arrive p (suc left) count w e len =
    let index = suc w.hog.ctx.current_report_index in
    let (slot, found, split) = drop-get_elem? w.hog.ctx.reports index (omega arith) in
    let ih = advance-arrive p left count (at_index index w) (omega arith) len in
    rw (found, split)
      (describe-arrive p (advance p left) count index slot
        (first_described (suc index) (drop (suc index) w.hog.ctx.reports)) w ih)

-- After a report's reference the walk goes on to the first later report whose range of handles holds
-- more than its value, and asks for the descriptors behind that value, up to the end of the range. If
-- there is none, it goes on to the mouse feature and the subscriptions. Conditions: the slots are as
-- many as the count says, and the current index is one of theirs.
pub advance_after_report_ref-finds :
    (p : Platform) (w : World)
    → length w.hog.ctx.reports ≡ w.hog.ctx.report_count
    → w.hog.ctx.current_report_index < w.hog.ctx.report_count
    → advance_after_report_ref p w
      ≡ arrive p w.hog.ctx.report_count
          (first_described
            (suc w.hog.ctx.current_report_index)
            (drop (suc w.hog.ctx.current_report_index) w.hog.ctx.reports))
          w
unfolding advance_after_report_ref
advance_after_report_ref-finds p w len within =
    advance-arrive p (w.hog.ctx.report_count - suc w.hog.ctx.current_report_index)
      w.hog.ctx.report_count w (omega arith) len
