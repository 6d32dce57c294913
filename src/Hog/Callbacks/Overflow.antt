-- ===== src/Hog/Callbacks/Overflow.antt =====
-- The discovery of more reports than the array of main/src/hog_client.c holds.
use zmk_usb_bridge.Prelude.{
  ℕ, ◌+◌, ◌≡◌, refl, sym, ap, ◌∙◌, inl, inr, true, List, [], ◌∷◌, ◌++◌, if◌then◌else◌, Bool-cases,
}
use zmk_usb_bridge.World.{World, Platform}
use zmk_usb_bridge.Hog.Slots.{conn_matches}
use zmk_usb_bridge.Hog.Callbacks.{Characteristic, max_reports, on_report_characteristic_discovered}
use zmk_usb_bridge.Hog.Callbacks.Collect.{
  visit, reports_in, layout, EndsBefore, Fits, collected, entered_slots, visit-step, visit-layout,
}

visit-append :
    (p : Platform) (conn : ℕ) (cs ds : List Characteristic) (w : World)
    → conn_matches conn w ≡ true
    → EndsBefore w.hog.ctx.service_end_handle cs
    → Fits w.hog.ctx.report_count cs
    → visit p conn (cs ++ ds) w ≡ visit p conn ds (visit p conn cs w)
unfolding visit
visit-append p conn [] ds w matches before room = refl
visit-append p conn (c ∷ cs) ds w matches before room =
    let count = w.hog.ctx.report_count + (if c.is_report then 1 else 0) in
    visit-step p conn c (cs ++ ds) w matches before.0 room.0
    ∙ visit-append p conn cs ds (collected count (entered_slots c w) w) matches before.1 room.1
    ∙ ap (visit p conn ds) (sym (visit-step p conn c cs w matches before.0 room.0))

full :
    (p : Platform) (conn : ℕ) (c : Characteristic) (cs : List Characteristic) (w : World)
    → w.hog.ctx.report_count ≡ max_reports
    → visit p conn (c ∷ cs) w ≡ w
unfolding visit on_report_characteristic_discovered
full p conn c cs w count =
    rw (count, visit)
      (elim (Bool-cases (conn_matches conn w)) [
        | inl matches ↦ rw (matches, on_report_characteristic_discovered) refl
        | inr other ↦ rw (other, on_report_characteristic_discovered) refl
      ])

-- When the eight slots are full, one more characteristic of any kind ends the discovery without a
-- word: the state holds the eight reports, and no call is made after that, so nothing is asked for and
-- no event is posted. Conditions: as for `visit-layout`, and the characteristics before hold eight
-- reports.
pub full_array_stalls :
    (p : Platform) (conn : ℕ) (cs : List Characteristic) (c : Characteristic)
    (rest : List Characteristic) (w : World)
    → conn_matches conn w ≡ true
    → w.hog.ctx.reports ≡ []
    → w.hog.ctx.report_count ≡ 0
    → EndsBefore w.hog.ctx.service_end_handle cs
    → Fits 0 cs
    → reports_in cs ≡ max_reports
    → visit p conn (cs ++ (c ∷ rest)) w
      ≡ collected max_reports (layout w.hog.ctx.service_end_handle cs) w
full_array_stalls p conn cs c rest w matches fresh zero_count before room eight =
    visit-append p conn cs (c ∷ rest) w matches before (rw zero_count room)
    ∙ ap (visit p conn (c ∷ rest))
        (visit-layout p conn cs w matches fresh zero_count before room ∙ rw eight refl)
    ∙ full p conn c rest (collected max_reports (layout w.hog.ctx.service_end_handle cs) w) refl
