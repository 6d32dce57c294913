-- ===== src/Examples/WholeDiscovery.antt =====
-- A discovery of the HID client from its start to the subscription of the keyboard's report, with every
-- step computed.
use zmk_usb_bridge.Prelude.{◌≡◌, refl, true, List, [], ◌∷◌, some, none}
use zmk_usb_bridge.Hog.Reads
use zmk_usb_bridge.Hog.Callbacks
use zmk_usb_bridge.Hog.Discovery
use zmk_usb_bridge.Hog.Slots
use zmk_usb_bridge.Hog.Client
use zmk_usb_bridge.Bridge
use zmk_usb_bridge.Connection
use zmk_usb_bridge.Hog.Mouse
use zmk_usb_bridge.Hog.Subscribe
use zmk_usb_bridge.Persist
use zmk_usb_bridge.Queue
use zmk_usb_bridge.Reconnect
use zmk_usb_bridge.Hog.Callbacks.{Characteristic, DescriptorKind}
use zmk_usb_bridge.Hog.Reads.{Callback, callbacks}
use zmk_usb_bridge.Examples.{working, world}

abbrev report : Characteristic
report = record { handle = 21; value_handle = 22; properties = 18; is_report = true }

-- A whole discovery, from the connection to the keyboard's subscription.
abbrev pub discovery : List Callback
discovery =
    Callback.started (some 1) 1
    ∷ Callback.service 1 (some (record { handle = 10; end_handle = 24 }))
    ∷ Callback.characteristic 1 (some report)
    ∷ Callback.characteristic 1 none
    ∷ Callback.descriptor 1 (some (record { handle = 23; kind = DescriptorKind.ccc }))
    ∷ Callback.descriptor 1 (some (record { handle = 24; kind = DescriptorKind.report_ref }))
    ∷ Callback.descriptor 1 none
    ∷ Callback.reference 1 0 (some (1 ∷ 1 ∷ []))
    ∷ Callback.subscribed 1 0 0
    ∷ []

-- It ends with the keyboard ready and input on.
discovery_opens_input :
    let after = callbacks working discovery world in
    (after.bridge.input_active ≡ true)
    × (after.hog.profile.has_keyboard_input ≡ true)
    × (after.hog.ctx.pending_subscriptions ≡ 0)
unfolding Reads.on_report_subscribed Reads.on_report_ref_read
    Callbacks.on_report_descriptor_discovered Callbacks.on_report_characteristic_discovered
    Callbacks.on_hids_service_discovered Discovery.start_discovery Slots.discovery_active
    Discovery.start_service_discovery Discovery.start_report_discovery Client.reset
    Discovery.start_descriptor_discovery Slots.current_report_slot Discovery.start_report_ref_read
    Discovery.advance_after_report_ref Slots.role_from_report_ref Discovery.all_described
    Bridge.set_input_active Connection.capture_metadata Connection.disconnect_active
    Connection.fill_snapshot_from_addr Callbacks.descriptor_found Callbacks.enter_characteristic
    Callbacks.new_slot Callbacks.note_descriptor Callbacks.or_fail Callbacks.set_last_end
    Callbacks.start_descriptors Client.complete_discovery Client.fail_discovery
    Client.store_captured Client.store_current_peer_metadata Discovery.advance Discovery.describe
    Discovery.start_mouse_feature_read Mouse.clamp_mouse_resolution Reads.identify Reads.note_role
    Reads.reference_read Reads.subscribed_slot Reads.subscription_ended Reads.take_reference
    Slots.capability_flags Slots.client_ready Slots.find_slot_by_role
    Slots.find_slot_by_subscribe_params Slots.profile_with Slots.set_mouse_resolution
    Slots.set_profile_capability Subscribe.finalize_subscription_phase Subscribe.slot_use
    Subscribe.start_subscriptions Subscribe.subscribe Subscribe.subscribe_slot
    Subscribe.subscribe_slots Subscribe.subscribe_unusable Subscribe.subscribe_usable
    Subscribe.subscribed_all Persist.store_metadata Queue.make_event Queue.post_event
    Queue.post_event_with_payload Reconnect.note_connected Reconnect.note_failure
    Reconnect.schedule_attempt_in
discovery_opens_input = (refl, refl, refl)
