-- ===== src/Hog/Callbacks/Refusal.antt =====
-- What happens in main/src/hog_client.c when the GATT client refuses the discovery of descriptors.
use zmk_usb_bridge.Prelude.{ℕ, suc, ◌<◌, ◌≡◌, refl, true, none, some, length, drop, ◌∷◌}
use zmk_usb_bridge.World.{World, Platform, ReportSlot, discover_descriptors}
use zmk_usb_bridge.Queue.{posted}
use zmk_usb_bridge.Hog.Slots.{conn_matches, current_report_slot}
use zmk_usb_bridge.Hog.Discovery.{next_handle}
use zmk_usb_bridge.Hog.Discovery.Walk.{first_described, advance_after_report_ref-finds}
use zmk_usb_bridge.Hog.Callbacks.{descriptor_found, on_report_descriptor_discovered}

-- A report without a reference is skipped, and the descriptors of the next report are asked for, in
-- its range; that this may be refused is not seen. So, whatever the GATT client answers, that is the
-- only call, no event is posted and the discovery stays under way, with the next report the current
-- one. Conditions: the end of the
-- descriptors comes for the client's connection, the current report has no reference, and a later
-- report, the slot `i`, has room for descriptors.
pub skipped_report_unchecked :
    (p : Platform) (conn i : ℕ) (slot next : ReportSlot) (w : World)
    → length w.hog.ctx.reports ≡ w.hog.ctx.report_count
    → w.hog.ctx.current_report_index < w.hog.ctx.report_count
    → conn_matches conn w ≡ true
    → current_report_slot w ≡ some slot
    → slot.report_ref_handle ≡ 0
    → first_described
        (suc w.hog.ctx.current_report_index)
        (drop (suc w.hog.ctx.current_report_index) w.hog.ctx.reports)
      ≡ some (i, next)
    → let after = (on_report_descriptor_discovered p conn none w).1 in
      (posted p after.calls ≡ posted p w.calls)
      × (after.hog.ctx.discovery_active ≡ w.hog.ctx.discovery_active)
      × (after.hog.ctx.current_report_index ≡ i)
      × (after.calls
          ≡ discover_descriptors w.hog.ctx.conn
              (next_handle next.binding.value_handle)
              next.end_handle
            ∷ w.calls)
unfolding on_report_descriptor_discovered descriptor_found posted
skipped_report_unchecked p conn i slot next w len within matches current no_ref found =
    rw (matches, current, no_ref, advance_after_report_ref-finds p w len within, found)
      (refl, refl, refl, refl)
