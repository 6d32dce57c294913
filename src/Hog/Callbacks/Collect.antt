-- ===== src/Hog/Callbacks/Collect.antt =====
-- What `on_report_characteristic_discovered` of main/src/hog_client.c makes of the characteristics of
-- the HID service, which the GATT client hands to it one by one.
use mathlib.Core.List.{append_assoc}
use native.Mathlib.Nat.{add_assoc}
use zmk_usb_bridge.Prelude.{
  ℕ, ◌+◌, ◌<◌, ◌≡◌, refl, ap, ◌∙◌, inl, inr, Bool, true, false, List, [], ◌∷◌, ◌++◌, some, arith,
  leb, if◌then◌else◌, Bool-cases,
}
use zmk_usb_bridge.World.{World, Platform, ReportSlot}
use zmk_usb_bridge.Hog.Slots.{with_ctx, conn_matches}
use zmk_usb_bridge.Hog.Callbacks.{
  Characteristic, max_reports, previous_handle, set_last_end, new_slot, enter_characteristic,
  on_report_characteristic_discovered,
}

abbrev pub proceed : (World → World) → Bool × World → World
proceed next (true, w) = next w
proceed next (false, w) = w

-- The GATT client's loop over what it has discovered: it ends when the callback returns STOP.
unfoldable pub visit : Platform → ℕ → List Characteristic → World → World
visit p conn [] w = w
visit p conn (c ∷ cs) w =
    proceed (visit p conn cs) (on_report_characteristic_discovered p conn (some c) w)

unfoldable pub reports_in : List Characteristic → ℕ
reports_in [] = 0
reports_in (c ∷ cs) = (if c.is_report then 1 else 0) + reports_in cs

-- The end of a report's range, from the characteristics after it: the handle before the next report,
-- or before the last characteristic if no report follows.
unfoldable pub range_end : ℕ → List Characteristic → ℕ
range_end end_handle [] = end_handle
range_end end_handle (c ∷ cs) =
    let later = range_end (previous_handle c.handle) cs in
    if c.is_report then previous_handle c.handle else later

-- The slots of the reports among the characteristics of a service.
unfoldable pub layout : ℕ → List Characteristic → List ReportSlot
unfolding range_end new_slot
layout service_end [] = []
layout service_end (c ∷ cs) =
    let slots = layout service_end cs in
    if c.is_report
    then record (new_slot service_end c) { end_handle = range_end service_end cs } ∷ slots
    else slots

abbrev pub EndsBefore : ℕ → List Characteristic → Type 0
EndsBefore service_end [] = Unit
EndsBefore service_end (c ∷ cs) = (c.value_handle < service_end) × EndsBefore service_end cs

-- The slots after more characteristics.
enter_slots : ℕ → List Characteristic → List ReportSlot → List ReportSlot
enter_slots service_end [] slots = slots
enter_slots service_end (c ∷ cs) slots =
    let bounded = set_last_end (previous_handle c.handle) slots in
    enter_slots service_end cs
      (if c.is_report then bounded ++ (new_slot service_end c ∷ []) else bounded)

set_last_end-snoc :
    (end_handle : ℕ) (init : List ReportSlot) (s : ReportSlot)
    → set_last_end end_handle (init ++ (s ∷ []))
      ≡ init ++ (record s { end_handle = end_handle } ∷ [])
unfolding set_last_end
set_last_end-snoc end_handle [] s = refl
set_last_end-snoc end_handle (t ∷ []) s = refl
set_last_end-snoc end_handle (t ∷ u ∷ init) s =
    ap (λ l. t ∷ l) (set_last_end-snoc end_handle (u ∷ init) s)

enter_slots-snoc :
    (service_end : ℕ) (cs : List Characteristic) (init : List ReportSlot) (s : ReportSlot)
    → enter_slots service_end cs (init ++ (s ∷ []))
      ≡ init ++ (record s { end_handle = range_end s.end_handle cs } ∷ layout service_end cs)
unfolding enter_slots range_end layout
enter_slots-snoc service_end [] init s = refl
enter_slots-snoc service_end (c ∷ cs) init s =
    let close = λ (t : ReportSlot). record t { end_handle = previous_handle c.handle } in
    elim (Bool-cases c.is_report) [
      | inl is_report ↦
          rw (set_last_end-snoc (previous_handle c.handle) init s, is_report)
            (enter_slots-snoc service_end cs (init ++ (close s ∷ [])) (new_slot service_end c)
              ∙ append_assoc init (close s ∷ []) _)
      | inr other ↦
          rw (set_last_end-snoc (previous_handle c.handle) init s, other)
            (enter_slots-snoc service_end cs init (close s))
    ]

enter_slots-layout :
    (service_end : ℕ) (cs : List Characteristic)
    → enter_slots service_end cs [] ≡ layout service_end cs
unfolding enter_slots layout set_last_end
enter_slots-layout service_end [] = refl
enter_slots-layout service_end (c ∷ cs) = elim (Bool-cases c.is_report) [
  | inl is_report ↦ rw is_report (enter_slots-snoc service_end cs [] (new_slot service_end c))
  | inr other ↦ rw other (enter_slots-layout service_end cs)
]

-- Whenever a characteristic comes, the array of the reports, which holds `count`, has room for one.
abbrev pub Fits : ℕ → List Characteristic → Type 0
Fits count [] = Unit
Fits count (c ∷ cs) = (count < max_reports) × Fits (count + (if c.is_report then 1 else 0)) cs

abbrev pub collected : ℕ → List ReportSlot → World → World
collected count slots w = with_ctx (λ c. record c { reports = slots; report_count = count }) w

pub entered_slots : Characteristic → World → List ReportSlot
entered_slots c w =
    let bounded = set_last_end (previous_handle c.handle) w.hog.ctx.reports in
    if c.is_report then bounded ++ (new_slot w.hog.ctx.service_end_handle c ∷ []) else bounded

entered :
    (c : Characteristic) (w : World)
    → enter_characteristic c w
      ≡ collected (w.hog.ctx.report_count + (if c.is_report then 1 else 0)) (entered_slots c w) w
unfolding enter_characteristic entered_slots
entered c w = ground arith

step :
    (p : Platform) (conn : ℕ) (c : Characteristic) (w : World)
    → conn_matches conn w ≡ true
    → c.value_handle < w.hog.ctx.service_end_handle
    → w.hog.ctx.report_count < max_reports
    → on_report_characteristic_discovered p conn (some c) w ≡ (true, enter_characteristic c w)
unfolding on_report_characteristic_discovered
step p conn c w matches before room =
    let inside : leb w.hog.ctx.service_end_handle c.value_handle ≡ false = ground arith in
    let open_array : leb max_reports w.hog.ctx.report_count ≡ false = ground arith in
    rw (matches, inside, open_array) refl

pub visit-step :
    (p : Platform) (conn : ℕ) (c : Characteristic) (cs : List Characteristic) (w : World)
    → conn_matches conn w ≡ true
    → c.value_handle < w.hog.ctx.service_end_handle
    → w.hog.ctx.report_count < max_reports
    → visit p conn (c ∷ cs) w
      ≡ visit p conn cs (
          collected (w.hog.ctx.report_count + (if c.is_report then 1 else 0)) (entered_slots c w) w)
unfolding visit
visit-step p conn c cs w matches before room =
    ap (proceed (visit p conn cs)) (step p conn c w matches before room)
    ∙ ap (visit p conn cs) (entered c w)

visit-collected :
    (p : Platform) (conn : ℕ) (cs : List Characteristic) (w : World)
    → conn_matches conn w ≡ true
    → EndsBefore w.hog.ctx.service_end_handle cs
    → Fits w.hog.ctx.report_count cs
    → visit p conn cs w
      ≡ collected
          (w.hog.ctx.report_count + reports_in cs)
          (enter_slots w.hog.ctx.service_end_handle cs w.hog.ctx.reports)
          w
unfolding visit enter_slots reports_in entered_slots
visit-collected p conn [] w matches before room =
    ap (λ n. collected n w.hog.ctx.reports w) (omega arith)
visit-collected p conn (c ∷ cs) w matches before room =
    let count = w.hog.ctx.report_count + (if c.is_report then 1 else 0) in
    visit-step p conn c cs w matches before.0 room.0
    ∙ visit-collected p conn cs (collected count (entered_slots c w) w) matches before.1 room.1
    ∙ ap (λ n. collected n (enter_slots w.hog.ctx.service_end_handle cs (entered_slots c w)) w)
        (add_assoc w.hog.ctx.report_count (if c.is_report then 1 else 0) (reports_in cs))

-- The slots of the reports are exactly the reports of the service, in their order, each with the
-- range of handles that `range_end` names, and their count is the number of reports. Nothing else of
-- the state changes: no request is made and no event is posted. Conditions: no report was known, the
-- callback is for the client's connection, no characteristic ends the service, and the array has room
-- whenever one comes.
pub visit-layout :
    (p : Platform) (conn : ℕ) (cs : List Characteristic) (w : World)
    → conn_matches conn w ≡ true
    → w.hog.ctx.reports ≡ []
    → w.hog.ctx.report_count ≡ 0
    → EndsBefore w.hog.ctx.service_end_handle cs
    → Fits 0 cs
    → visit p conn cs w ≡ collected (reports_in cs) (layout w.hog.ctx.service_end_handle cs) w
visit-layout p conn cs w matches fresh zero_count before room =
    visit-collected p conn cs w matches before (rw zero_count room)
    ∙ rw (fresh, zero_count, enter_slots-layout w.hog.ctx.service_end_handle cs)
        (ap (λ n. collected n (layout w.hog.ctx.service_end_handle cs) w) (omega arith))
