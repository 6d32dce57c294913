-- ===== src/Examples/DiscoveryRuns.antt =====
-- Runs of a connection and of the discovery.
use zmk_usb_bridge.Prelude.{
  ℕ, ◌+◌, ◌≡◌, refl, ◌||◌, true, false, List, [], ◌∷◌, ◌++◌, none, some, arith,
}
use zmk_usb_bridge.Prelude.Int.{ℤ, pos, negsuc}
use zmk_usb_bridge.Types.{Role, EventType}
use zmk_usb_bridge.World.{World, ReportSlot, Platform, Call, discover_descriptors}
use zmk_usb_bridge.Queue.{posted}
use zmk_usb_bridge.Hog.Slots.{current_report_slot}
use zmk_usb_bridge.Hog.Discovery.{advance_after_report_ref}
use zmk_usb_bridge.Hog.Discovery.Walk.{first_described, arrive, advance_after_report_ref-finds}
use zmk_usb_bridge.Hog.Subscribe.{finalize_subscription_phase, start_subscriptions}
use zmk_usb_bridge.Hog.Subscribe
use zmk_usb_bridge.Hog.Subscribe.Accepted.{accepted}
use zmk_usb_bridge.Hog.Reads.{on_report_subscribed}
use zmk_usb_bridge.Hog.Subscribe.Posts.{types, end_type}
use zmk_usb_bridge.Hog.Reads.Twice.{failure_ends_twice}
use zmk_usb_bridge.Hog.Callbacks.{Characteristic, max_reports, on_report_descriptor_discovered}
use zmk_usb_bridge.Hog.Callbacks.Collect.{
  visit, reports_in, layout, collected, range_end, visit-layout,
}
use zmk_usb_bridge.Hog.Callbacks.Overflow.{full_array_stalls}
use zmk_usb_bridge.Hog.Callbacks.Refusal.{skipped_report_unchecked}
use zmk_usb_bridge.Hog.Reads.Ending.{answers, answers_end_discovery}
use zmk_usb_bridge.Hog.Subscribe.Progress.{Progress, start_subscriptions-Progress}
use zmk_usb_bridge.Examples.{working, world}

abbrev slot : ℕ → ℕ → ReportSlot
slot value_handle end_handle = record {
  in_use = true;
  properties = 18;
  report_ref_handle = 0;
  end_handle = end_handle;
  binding = record {
    value_handle = value_handle;
    ccc_handle = 22;
    report_id = 1;
    report_type = 1;
    role = Role.keyboard_input;
    subscribed = false;
  };
}

-- The client on the connection 1, with some reports and subscriptions outstanding.
abbrev client : List ReportSlot → ℕ → ℕ → World
client reports count pending = record world {
  hog = record (world.hog) {
    ctx = record (world.hog.ctx) {
      discovery_active = true;
      conn_handle = 1;
      conn = some 1;
      service_start_handle = 10;
      service_end_handle = 60;
      report_count = count;
      pending_subscriptions = pending;
      reports = reports;
    };
  };
}

abbrev keys : List ReportSlot
keys = slot 21 23 ∷ slot 24 24 ∷ slot 25 28 ∷ []

answers_end_discovery_example :
    (answers working 1 ((0, 0) ∷ (2, 5) ∷ []) (client keys 3 2)).hog.ctx.discovery_active ≡ false
answers_end_discovery_example =
    answers_end_discovery working 1 ((0, 0) ∷ (2, 5) ∷ []) (client keys 3 2) refl refl (omega arith)
      refl refl (omega arith)

advance_after_report_ref-finds_example :
    advance_after_report_ref working (client keys 3 0)
    ≡ arrive working 3 (some (2, slot 25 28)) (client keys 3 0)
unfolding first_described
advance_after_report_ref-finds_example =
    advance_after_report_ref-finds working (client keys 3 0) refl (omega arith)

-- The keyboard's report again, and a consumer report: the first answer fails, the second is well.
abbrev consumer_slot : ReportSlot
consumer_slot = record (slot 25 28) {
  binding = record ((slot 25 28).binding) { role = Role.consumer_input };
}

abbrev two_outstanding : World
two_outstanding = client (slot 21 23 ∷ consumer_slot ∷ []) 2 2

failure_ends_twice_example :
    let keyboard = false || two_outstanding.hog.profile.has_keyboard_input in
    let first = on_report_subscribed working 1 5 0 two_outstanding in
    let second = on_report_subscribed working 1 0 1 first in
    (first.hog.ctx.discovery_active ≡ false)
    × (types (posted working second.calls) ≡ end_type keyboard ∷ EventType.hid_failure ∷ [])
    × (keyboard ≡ true → second.bridge.input_active ≡ true)
unfolding posted
failure_ends_twice_example =
    failure_ends_twice working 1 0 1 5 (slot 21 23) consumer_slot two_outstanding refl (omega arith)
      (omega arith) refl refl refl refl refl refl refl (λ event calls. refl)

abbrev report : ℕ → Characteristic
report handle = record {
  handle = handle;
  value_handle = handle + 1;
  properties = 18;
  is_report = true;
}

abbrev plain : ℕ → Characteristic
plain handle = record {
  handle = handle;
  value_handle = handle + 1;
  properties = 2;
  is_report = false;
}

abbrev service_list : List Characteristic
service_list = plain 11 ∷ report 13 ∷ report 17 ∷ plain 21 ∷ plain 24 ∷ []

visit-layout_example :
    visit working 1 service_list (client [] 0 0)
    ≡ collected 2 (layout 60 service_list) (client [] 0 0)
unfolding reports_in
visit-layout_example =
    visit-layout working 1 service_list (client [] 0 0) refl refl refl (omega arith) (omega arith)

-- The range of a report runs on over the plain characteristic that follows it, up to the next.
overrun : range_end 60 (plain 21 ∷ plain 24 ∷ []) ≡ 23
unfolding range_end
overrun = refl

abbrev eight : List Characteristic
eight =
    report 12
    ∷ report 15
    ∷ report 18
    ∷ report 21
    ∷ report 24
    ∷ report 27
    ∷ report 30
    ∷ report 33
    ∷ []

full_array_stalls_example :
    visit working 1 (eight ++ (plain 36 ∷ [])) (client [] 0 0)
    ≡ collected max_reports (layout 60 eight) (client [] 0 0)
full_array_stalls_example =
    full_array_stalls working 1 eight (plain 36) [] (client [] 0 0) refl refl refl (omega arith)
      (omega arith) (unfold reports_in in refl)

abbrev answer : Call → ℤ
answer (discover_descriptors conn first last) = negsuc 11
answer _ = pos 0

-- The GATT client refuses to look for descriptors.
abbrev refusing_gatt : Platform
refusing_gatt = record working { result = λ c calls. answer c }

skipped_report_unchecked_example :
    let after = (on_report_descriptor_discovered refusing_gatt 1 none (client keys 3 0)).1 in
    (posted refusing_gatt after.calls ≡ [])
    × (after.hog.ctx.discovery_active ≡ true)
    × (after.hog.ctx.current_report_index ≡ 2)
    × (after.calls ≡ discover_descriptors (some 1) 26 28 ∷ [])
unfolding posted
skipped_report_unchecked_example =
    skipped_report_unchecked refusing_gatt 1 2 (slot 21 23) (slot 25 28) (client keys 3 0) refl
      (omega arith) refl (unfold current_report_slot in refl) refl (unfold first_described in refl)

start_subscriptions-Progress_example :
    let after = (start_subscriptions working (client keys 3 0)).1 in
    (accepted working after.calls ≡ 0 + after.hog.ctx.pending_subscriptions) × Progress after
unfolding accepted
start_subscriptions-Progress_example = start_subscriptions-Progress working (client keys 3 0) refl

-- All three reports are subscribed to.
three_accepted : (start_subscriptions working (client keys 3 0)).1.hog.ctx.pending_subscriptions ≡ 3
unfolding start_subscriptions Subscribe.subscribe_slots Subscribe.subscribe_slot
    Subscribe.subscribe_usable Subscribe.slot_use Subscribe.subscribe Subscribe.subscribed_all
    finalize_subscription_phase
three_accepted = refl
