-- ===== src/Examples/StartupRuns.antt =====
-- Runs of the startup, and of the host's requests.
use zmk_usb_bridge.Prelude.{
  ◌+◌, ◌*◌, ◌≡◌, ◌≢◌, ◌⊎◌, ◌&&◌, ◌==◌, refl, inl, true, false, [], ◌∷◌, some, arith,
}
use zmk_usb_bridge.Prelude.Int.{pos}
use zmk_usb_bridge.Types.{State}
use zmk_usb_bridge.Queue.{posted, post_simple_event}
use zmk_usb_bridge.Persist.{IsVersioned, load_metadata}
use zmk_usb_bridge.Runtime
use zmk_usb_bridge.Manager
use zmk_usb_bridge.Scan
use zmk_usb_bridge.Hog.Slots.{discovery_active}
use zmk_usb_bridge.Hog.Discovery.{start_discovery}
use zmk_usb_bridge.Hog.Feature.{set_host_mouse_resolution}
use zmk_usb_bridge.Usb.Control.{get_report_cb, set_report_cb, is_mouse_feature, feature_report_size}
use zmk_usb_bridge.Usb.Control.RoundTrip.{set-get_report, discovery_forgets_resolution}
use zmk_usb_bridge.Startup.{post_startup_events}
use zmk_usb_bridge.Startup.Scans.{waiting_machine, startup_scans}
use zmk_usb_bridge.Bridge.{empty_keyboard, empty_consumer, empty_mouse}
use zmk_usb_bridge.Usb.{
  keyboard_report, consumer_report, mouse_report, keyboard_release, consumer_release, mouse_release,
}
use zmk_usb_bridge.Usb.Descriptor.{Kind, declared_bits}
use zmk_usb_bridge.Usb.Descriptor.Sizes.{Fills, reports_fill_descriptor}
use zmk_usb_bridge.Machine.Trace.{run}
use zmk_usb_bridge.System.{firmware}
use mathlib.Core.List.{reverse}
use zmk_usb_bridge.Examples.{working, world}

set-get_report_example :
    let (ret, after) = set_report_cb 771 2 (3 ∷ 37 ∷ []) world in
    ((is_mouse_feature 771 && 2 == feature_report_size ≡ true)
      × (ret ≡ pos 0)
      × (get_report_cb 771 after ≡ (pos 0, 3 ∷ 37 ∷ [])))
    ⊎ ((is_mouse_feature 771 && 2 == feature_report_size ≡ false) × (ret ≢ pos 0) × (after ≡ world))
set-get_report_example = set-get_report 771 2 (3 ∷ 37 ∷ []) world (omega arith)

discovery_forgets_resolution_example :
    let set_up = (set_host_mouse_resolution (some (record { wheel = 5; hor_wheel = 2 })) world).1 in
    let after = (start_discovery working (some 1) 1 set_up).1 in
    (get_report_cb 771 after ≡ (pos 0, 3 ∷ 0 ∷ [])) × (after.hog.mouse_resolution_from_host ≡ false)
discovery_forgets_resolution_example =
    discovery_forgets_resolution working 771 1 1 (record { wheel = 5; hor_wheel = 2 }) world refl
      (unfold discovery_active in refl)

startup_scans_example :
    let after = (post_startup_events working world).1 in
    (run
      (firmware working)
      (reverse (posted working after.calls))
      (record { machine = waiting_machine false; rest = after })).machine.state
    ≡ State.scanning_known_device
unfolding Runtime.has_bond IsVersioned Manager.execute_command Scan.start_known_device
    post_startup_events Runtime.is_ready load_metadata post_simple_event
startup_scans_example =
    startup_scans working false world (unfold Runtime.is_ready in refl) (inl refl) refl
      (λ event calls. refl) (unfold posted in refl) refl

reports_fill_descriptor_example :
    Fills (keyboard_report empty_keyboard) Kind.of_input 1
    × Fills (consumer_report empty_consumer) Kind.of_input 2
    × Fills (mouse_report empty_mouse) Kind.of_input 3
    × Fills keyboard_release Kind.of_input 1
    × Fills consumer_release Kind.of_input 2
    × Fills mouse_release Kind.of_input 3
    × (8 * feature_report_size ≡ 8 + declared_bits Kind.of_feature 3)
reports_fill_descriptor_example =
    reports_fill_descriptor empty_keyboard empty_consumer empty_mouse refl
