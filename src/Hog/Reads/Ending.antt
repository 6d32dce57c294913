-- ===== src/Hog/Reads/Ending.antt =====
-- The end of the subscriptions in main/src/hog_client.c: the answers that are outstanding end the
-- discovery.
use zmk_usb_bridge.Prelude.{
  ℕ, zero, suc, ◌-◌, ◌<◌, ◌≡◌, refl, sym, ◌∙◌, inl, inr, Bool, true, false, List, [], ◌∷◌, some,
  arith, ◌==◌, lt→ltb, length, get_elem?, length-set, if◌then◌else◌, Option-cases,
}
use mathlib.Core.Path.{subst}
use zmk_usb_bridge.Prelude.Int.{pos}
use zmk_usb_bridge.Types.{Reason}
use zmk_usb_bridge.World.{World, Platform, ReportSlot, HogContext}
use zmk_usb_bridge.Hog.Slots.{
  conn_matches, update_slot, set_profile_capability, find_slot_by_subscribe_params,
}
use zmk_usb_bridge.Hog.Client
use zmk_usb_bridge.Hog.Client.Frame.{fail_discovery-frame}
use zmk_usb_bridge.Hog.Subscribe.{finalize_subscription_phase, is_keyboard}
use zmk_usb_bridge.Hog.Subscribe.Once.{waits, ended-hog, waiting, ending}
use zmk_usb_bridge.Hog.Reads.{
  drop_subscription, subscription_ended, subscribed_slot, on_report_subscribed,
}

-- What an answer leaves of the context, but for the roles of the slots.
abbrev Answered : HogContext → HogContext → Type 0
Answered c d =
    (d.conn ≡ c.conn)
    × (d.report_count ≡ c.report_count)
    × (length d.reports ≡ length c.reports)
    × (d.finalize_pending ≡ c.finalize_pending)
    × (d.pending_subscriptions ≡ c.pending_subscriptions - 1)

abbrev mark : ReportSlot → ReportSlot
mark s = record s { binding = record (s.binding) { subscribed = true } }

abbrev pub noted : ℕ → ReportSlot → World → World
noted i slot w =
    set_profile_capability slot.binding.role true (update_slot i mark (drop_subscription w))

pub noted-Answered :
    (i : ℕ) (slot : ReportSlot) (w : World) → Answered w.hog.ctx (noted i slot w).hog.ctx
unfolding set_profile_capability
noted-Answered i slot w = elim (Option-cases (get_elem? w.hog.ctx.reports i)) [
  | inl absent ↦ rw (absent, update_slot) (refl, refl, refl, refl, refl)
  | inr (found, e) ↦
      rw (e, update_slot) (refl, refl, length-set w.hog.ctx.reports i (mark found), refl, refl)
]

abbrev pub failed : Platform → ℕ → World → World
failed p err w =
    (Client.fail_discovery p w.hog.ctx.conn_handle Reason.hid_subscribe_failed (pos err)
      (drop_subscription w)).1

pub failed-hog :
    (p : Platform) (err : ℕ) (w : World)
    → (failed p err w).hog ≡ (Client.end_discovery (drop_subscription w)).hog
failed-hog p err w =
    (fail_discovery-frame p w.hog.ctx.conn_handle Reason.hid_subscribe_failed (pos err)
      (drop_subscription w)).0

waits_more :
    (w after : World)
    → Answered w.hog.ctx after.hog.ctx
    → 1 < w.hog.ctx.pending_subscriptions
    → waits after ≡ true
waits_more w after a more = ground arith

pub waits_last :
    (w after : World)
    → Answered w.hog.ctx after.hog.ctx
    → w.hog.ctx.pending_subscriptions ≡ 1
    → w.hog.ctx.finalize_pending ≡ false
    → waits after ≡ false
waits_last w after a one open_phase = ground arith

-- The branches of an answer.
abbrev branches : Bool → Bool → World → World → World → World
branches fine keyboard x y z = if fine then x else if keyboard then y else z

branches-ctx :
    (P : HogContext → Type 0) (fine keyboard : Bool) (x y z : World)
    → P x.hog.ctx
    → P y.hog.ctx
    → P z.hog.ctx
    → P (branches fine keyboard x y z).hog.ctx
branches-ctx P true keyboard x y z f g h = f
branches-ctx P false true x y z f g h = g
branches-ctx P false false x y z f g h = h

-- More answers are outstanding.
answer-goes_on :
    (p : Platform) (i : ℕ) (slot : ReportSlot) (err : ℕ) (w : World)
    → 1 < w.hog.ctx.pending_subscriptions
    → Answered w.hog.ctx (subscription_ended p i slot err w).hog.ctx
unfolding subscription_ended
answer-goes_on p i slot err w more =
    branches-ctx (Answered w.hog.ctx) (err == 0) (is_keyboard slot)
      (finalize_subscription_phase p (noted i slot w)) (failed p err w)
      (finalize_subscription_phase p (drop_subscription w))
      (rw
        (waiting p (noted i slot w) (waits_more w (noted i slot w) (noted-Answered i slot w) more))
        (noted-Answered i slot w))
      (rw (failed-hog p err w) (refl, refl, refl, refl, refl))
      (rw
        (waiting p (drop_subscription w)
          (waits_more w (drop_subscription w) (refl, refl, refl, refl, refl) more))
        (refl, refl, refl, refl, refl))

-- The last answer ends the discovery.
answer-ends :
    (p : Platform) (i : ℕ) (slot : ReportSlot) (err : ℕ) (w : World)
    → w.hog.ctx.pending_subscriptions ≡ 1
    → w.hog.ctx.finalize_pending ≡ false
    → (subscription_ended p i slot err w).hog.ctx.discovery_active ≡ false
unfolding subscription_ended
answer-ends p i slot err w one open_phase =
    branches-ctx (λ c. c.discovery_active ≡ false) (err == 0) (is_keyboard slot)
      (finalize_subscription_phase p (noted i slot w)) (failed p err w)
      (finalize_subscription_phase p (drop_subscription w))
      (rw
        (ending p (noted i slot w)
          (waits_last w (noted i slot w) (noted-Answered i slot w) one open_phase))
        (rw (ended-hog p (noted i slot w)) refl))
      (rw (failed-hog p err w) refl)
      (rw
        (ending p (drop_subscription w)
          (waits_last w (drop_subscription w) (refl, refl, refl, refl, refl) one open_phase))
        (rw (ended-hog p (drop_subscription w)) refl))

-- The answers to subscriptions: which slot, and the error, 0 if there is none.
abbrev pub answers : Platform → ℕ → List (ℕ × ℕ) → World → World
answers p conn [] w = w
answers p conn ((i, err) ∷ rest) w = answers p conn rest (on_report_subscribed p conn err i w)

abbrev pub AllSlots : ℕ → List (ℕ × ℕ) → Type 0
AllSlots count [] = Unit
AllSlots count ((i, err) ∷ rest) = (i < count) × AllSlots count rest

found :
    (slots : List ReportSlot) (i : ℕ)
    → i < length slots
    → (slot : ReportSlot) × (get_elem? slots i ≡ some slot)
found [] i h = elim h [ ]
found (s ∷ slots) zero h = (s, refl)
found (s ∷ slots) (suc i) h = found slots i (omega arith)

-- An answer for a slot is taken.
taken :
    (p : Platform) (conn i err : ℕ) (w : World)
    → conn_matches conn w ≡ true
    → length w.hog.ctx.reports ≡ w.hog.ctx.report_count
    → i < w.hog.ctx.report_count
    → (slot : ReportSlot) × (on_report_subscribed p conn err i w
        ≡ subscription_ended p i slot err w)
unfolding on_report_subscribed subscribed_slot find_slot_by_subscribe_params
taken p conn i err w matches len within =
    let (slot, e) = found w.hog.ctx.reports i (omega arith) in
    (slot, rw (matches, lt→ltb i w.hog.ctx.report_count within, e) refl)

-- When every subscription that is outstanding has been answered, well or badly, the discovery is over:
-- it never waits for more. Conditions: the answers are as many as are outstanding, at least one, each
-- is for one of the slots and comes for the client's connection, and the phase has not ended before.
pub answers_end_discovery :
    (p : Platform) (conn : ℕ) (given : List (ℕ × ℕ)) (w : World)
    → conn_matches conn w ≡ true
    → length w.hog.ctx.reports ≡ w.hog.ctx.report_count
    → AllSlots w.hog.ctx.report_count given
    → w.hog.ctx.finalize_pending ≡ false
    → w.hog.ctx.pending_subscriptions ≡ length given
    → 0 < length given
    → (answers p conn given w).hog.ctx.discovery_active ≡ false
answers_end_discovery p conn [] w matches len slots open_phase pending some_left =
    absurd (omega arith)
answers_end_discovery p conn ((i, err) ∷ []) w matches len slots open_phase pending some_left =
    let (slot, e) = taken p conn i err w matches len slots.0 in
    rw e (answer-ends p i slot err w pending open_phase)
answers_end_discovery p conn ((i, err) ∷ (j, next) ∷ rest) w matches len slots open_phase pending
      some_left =
    let (slot, e) = taken p conn i err w matches len slots.0 in
    let after = on_report_subscribed p conn err i w in
    let a : Answered w.hog.ctx after.hog.ctx = rw e (answer-goes_on p i slot err w (omega arith)) in
    answers_end_discovery p conn ((j, next) ∷ rest) after (rw a.0 matches) (a.2 ∙ len ∙ sym a.1)
      (subst (λ n. AllSlots n ((j, next) ∷ rest)) (sym a.1) slots.1) (a.3 ∙ open_phase)
      (omega arith) (omega arith)
