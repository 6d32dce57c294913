-- ===== src/Hog/Reads/Invariant.antt =====
-- The callbacks of main/src/hog_client.c for the service and its characteristics keep the invariant of
-- the state of the client.
use zmk_usb_bridge.Prelude.{
  ℕ, suc, ◌<◌, ◌≡◌, refl, ap, ◌∙◌, inl, inr, Bool, true, false, not, ◌&&◌, ◌||◌, List, [], ◌∷◌,
  ◌++◌, Option, none, some, arith, ◌==◌, ltb, leb, length, length-append, if◌then◌else◌, Bool-cases,
}
use zmk_usb_bridge.Types.{is_ok, invalid_state, not_found, Reason}
use zmk_usb_bridge.World.{World, Platform, Op, ReportSlot}
use zmk_usb_bridge.Hog.Slots.{with_ctx, conn_matches}
use zmk_usb_bridge.Hog.Client
use zmk_usb_bridge.Hog.Discovery.{start_report_discovery, start_descriptor_discovery, at_index}
use zmk_usb_bridge.Hog.Callbacks.{
  Service, Characteristic, or_fail, set_last_end, new_slot, max_reports, previous_handle,
  enter_characteristic, start_descriptors, on_hids_service_discovered,
  on_report_characteristic_discovered,
}
use zmk_usb_bridge.Hog.Reads.Valid.{HogValid, either-HogValid, fail_discovery-HogValid}
use zmk_usb_bridge.Hog.Reads.Steps.{Keeps, start_descriptor_discovery-HogValid}

pub or_fail-HogValid :
    {k : ℕ} (p : Platform) (reason : Reason) (m : Op World) (w : World)
    → Keeps k m
    → HogValid k w
    → HogValid k (or_fail p reason m w)
unfolding or_fail
or_fail-HogValid p reason m w keeps v =
    let (status, after) = m w in
    either-HogValid (is_ok status) after
      (Client.fail_discovery p after.hog.ctx.conn_handle reason invalid_state after).1
      (λ fine. keeps w v)
      (λ failed.
        fail_discovery-HogValid p after.hog.ctx.conn_handle reason invalid_state after (keeps w v))

start_report_discovery-HogValid : {k : ℕ} (p : Platform) → Keeps k (start_report_discovery p)
unfolding start_report_discovery
start_report_discovery-HogValid p w v = v

pub service-HogValid :
    {k : ℕ} (p : Platform) (conn : ℕ) (attr : Option Service) (w : World)
    → HogValid k w
    → HogValid k (on_hids_service_discovered p conn attr w).1
unfolding on_hids_service_discovered
service-HogValid p conn none w v =
    either-HogValid (conn_matches conn w)
      (Client.fail_discovery p w.hog.ctx.conn_handle Reason.hid_service_missing not_found w).1 w
      (λ matches.
        fail_discovery-HogValid p w.hog.ctx.conn_handle Reason.hid_service_missing not_found w v)
      (λ other. v)
service-HogValid p conn (some service) w v =
    let found =
      with_ctx
        (λ c. record c {
          service_start_handle = service.handle;
          service_end_handle = service.end_handle;
        })
        w in
    either-HogValid (conn_matches conn w)
      (or_fail p Reason.hid_service_missing (start_report_discovery p) found) w
      (λ matches.
        or_fail-HogValid p Reason.hid_service_missing (start_report_discovery p) found
          (start_report_discovery-HogValid p) v)
      (λ other. v)

length-set_last_end :
    (end_handle : ℕ) (slots : List ReportSlot)
    → length (set_last_end end_handle slots) ≡ length slots
unfolding set_last_end
length-set_last_end end_handle [] = refl
length-set_last_end end_handle (s ∷ []) = refl
length-set_last_end end_handle (s ∷ t ∷ slots) = ap suc (length-set_last_end end_handle (t ∷ slots))

entered_length :
    (c : Characteristic) (w : World)
    → length (
        set_last_end (previous_handle c.handle) w.hog.ctx.reports
        ++ (new_slot w.hog.ctx.service_end_handle c ∷ []))
      ≡ suc (length w.hog.ctx.reports)
entered_length c w =
    length-append (set_last_end (previous_handle c.handle) w.hog.ctx.reports)
      (new_slot w.hog.ctx.service_end_handle c ∷ [])
    ∙ rw (length-set_last_end (previous_handle c.handle) w.hog.ctx.reports) (omega arith)

enter-HogValid :
    {k : ℕ} (c : Characteristic) (w : World)
    → w.hog.ctx.report_count < max_reports
    → HogValid k w
    → HogValid k (enter_characteristic c w)
unfolding enter_characteristic
enter-HogValid c w room v = elim (Bool-cases c.is_report) [
  | inl is_report ↦
      rw is_report (v.0, omega (arith, v.1, entered_length c w), ground (arith, v.2), v.3)
  | inr other ↦
      rw other
        (v.0, length-set_last_end (previous_handle c.handle) w.hog.ctx.reports ∙ v.1, v.2, v.3)
]

-- The outcomes of a characteristic: refused, the last one, or one of several.
turn-HogValid :
    {k : ℕ} (refused ends : Bool) (w entered started : World)
    → HogValid k w
    → (refused ≡ false → HogValid k entered)
    → (HogValid k entered → HogValid k started)
    → HogValid k
        (if◌then◌else◌ {A = Bool × World} refused
          (false, w)
          (if ends then (false, started) else (true, entered))).1
turn-HogValid true ends w entered started v f g = v
turn-HogValid false true w entered started v f g = g (f refl)
turn-HogValid false false w entered started v f g = f refl

room :
    (conn : ℕ) (w : World)
    → (not (conn_matches conn w) || leb max_reports w.hog.ctx.report_count) ≡ false
    → w.hog.ctx.report_count < max_reports
room conn w h = ground arith

start_descriptors-HogValid :
    {k : ℕ} (p : Platform) (w : World) → HogValid k w → HogValid k (start_descriptors p w)
unfolding start_descriptors
start_descriptors-HogValid p w v =
    or_fail-HogValid p Reason.hid_report_missing (start_descriptor_discovery p 0) (at_index 0 w)
      (start_descriptor_discovery-HogValid p 0) v

pub characteristic-HogValid :
    {k : ℕ} (p : Platform) (conn : ℕ) (attr : Option Characteristic) (w : World)
    → HogValid k w
    → HogValid k (on_report_characteristic_discovered p conn attr w).1
unfolding on_report_characteristic_discovered
characteristic-HogValid p conn none w v =
    let failed =
      (Client.fail_discovery p w.hog.ctx.conn_handle Reason.hid_report_missing not_found w).1 in
    either-HogValid (conn_matches conn w)
      (if w.hog.ctx.report_count == 0 then failed else start_descriptors p w) w
      (λ matches.
        either-HogValid (w.hog.ctx.report_count == 0) failed (start_descriptors p w)
          (λ empty.
            fail_discovery-HogValid p w.hog.ctx.conn_handle Reason.hid_report_missing not_found w v)
          (λ some_found. start_descriptors-HogValid p w v))
      (λ other. v)
characteristic-HogValid p conn (some c) w v =
    let entered = enter_characteristic c w in
    let is_last = leb w.hog.ctx.service_end_handle c.value_handle in
    let refused = not (conn_matches conn w) || leb max_reports w.hog.ctx.report_count in
    let ends = is_last && (c.is_report || ltb 0 w.hog.ctx.report_count) in
    turn-HogValid refused ends w entered (start_descriptors p entered) v
      (λ open_array. enter-HogValid c w (room conn w open_array) v)
      (λ u. start_descriptors-HogValid p entered u)
