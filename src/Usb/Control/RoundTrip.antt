-- ===== src/Usb/Control/RoundTrip.antt =====
-- The resolution that the host sets through main/src/usb_bridge.c: what it reads back, and when the HID
-- client of main/src/hog_client.c forgets it.
use zmk_usb_bridge.Prelude.{
  ℕ, ◌/◌, ◌%◌, ◌<◌, ◌≡◌, ◌≢◌, ◌⊎◌, refl, ap, ◌∙◌, inl, inr, true, false, ◌&&◌, List, [], ◌∷◌,
  Option, none, some, arith, ◌==◌, get_or, Bool-cases,
}
use zmk_usb_bridge.Prelude.Int.{pos}
use zmk_usb_bridge.Types.{MouseResolution, Role}
use zmk_usb_bridge.World.{World, HogState, Platform, ReportSlot}
use zmk_usb_bridge.Usb.{mouse_report_id}
use zmk_usb_bridge.Hog.Mouse.{clamp_mouse_resolution}
use zmk_usb_bridge.Hog.Slots.{
  mouse_resolution, set_mouse_resolution, discovery_active, find_slot_by_role,
}
use zmk_usb_bridge.Hog.Feature.{set_host_mouse_resolution, write_mouse_feature_to_peer, write_slot}
use zmk_usb_bridge.Bridge
use zmk_usb_bridge.Hog.Client
use zmk_usb_bridge.Hog.Discovery.{start_discovery, start_service_discovery}
use zmk_usb_bridge.Usb.Control.{
  encode_mouse_resolution, decode_mouse_feature_report, is_mouse_feature, feature_report_size,
  get_report_cb, set_report_cb,
}

write_slot-hog :
    (conn : Option ℕ) (slot : Option ReportSlot) (resolution : MouseResolution) (w : World)
    → (write_slot conn slot resolution w).hog ≡ w.hog
unfolding write_slot
write_slot-hog none slot resolution w = refl
write_slot-hog (some conn) none resolution w = refl
write_slot-hog (some conn) (some slot) resolution w = ground arith

write-hog : (w : World) → (write_mouse_feature_to_peer w).hog ≡ w.hog
unfolding write_mouse_feature_to_peer
write-hog w =
    write_slot-hog w.hog.ctx.conn (find_slot_by_role Role.mouse_feature w) w.hog.mouse_resolution w

encode-decode_report :
    (b : ℕ) → b < 256 → encode_mouse_resolution (decode_mouse_feature_report b) ≡ b
unfolding encode_mouse_resolution decode_mouse_feature_report
encode-decode_report b h = omega arith

clamped :
    (b : ℕ)
    → ◌≡◌ {A = MouseResolution}
        (record {
          wheel = clamp_mouse_resolution (b % 16);
          hor_wheel = clamp_mouse_resolution (b / 16 % 16);
        })
        (decode_mouse_feature_report b)
unfolding clamp_mouse_resolution decode_mouse_feature_report
clamped b = ground arith

kept :
    (b : ℕ) (w : World)
    → mouse_resolution (set_host_mouse_resolution (some (decode_mouse_feature_report b)) w).1
      ≡ decode_mouse_feature_report b
unfolding mouse_resolution set_host_mouse_resolution set_mouse_resolution clamp_mouse_resolution
    decode_mouse_feature_report
kept b w = ap (λ (h : HogState). h.mouse_resolution) (write-hog _) ∙ clamped b

-- A request of the host on the mouse feature report with two bytes is taken, and the host then reads
-- back what it wrote. Any other request to set a report is refused, and changes nothing. Conditions:
-- the resolution is a byte.
pub set-get_report :
    (value len : ℕ) (report : List ℕ) (w : World)
    → get_or report 1 0 < 256
    → let (ret, after) = set_report_cb value len report w in
      ((is_mouse_feature value && len == feature_report_size ≡ true)
        × (ret ≡ pos 0)
        × (get_report_cb value after ≡ (pos 0, mouse_report_id ∷ get_or report 1 0 ∷ [])))
      ⊎ ((is_mouse_feature value && len == feature_report_size ≡ false)
          × (ret ≢ pos 0)
          × (after ≡ w))
unfolding set_report_cb get_report_cb set_host_mouse_resolution
set-get_report value len report w byte = elim (Bool-cases (is_mouse_feature value)) [
  | inr other ↦ rw other (inr (refl, λ e. cc e, refl))
  | inl feature ↦ elim (Bool-cases (len == feature_report_size)) [
    | inr size ↦ rw (feature, size) (inr (refl, λ e. cc e, refl))
    | inl size ↦
        rw
          (feature, size, kept (get_or report 1 0) w, encode-decode_report (get_or report 1 0) byte)
          (inl (refl, refl, refl))
  ]
]

set-idle :
    (conn_handle : ℕ) (resolution : MouseResolution) (w : World)
    → discovery_active conn_handle (set_host_mouse_resolution (some resolution) w).1
      ≡ discovery_active conn_handle w
unfolding set_host_mouse_resolution discovery_active set_mouse_resolution
set-idle conn_handle resolution w = rw (write-hog _) refl

unref-hog : (conn : Option ℕ) (w : World) → (Client.unref conn w).hog ≡ w.hog
unref-hog none w = refl
unref-hog (some conn) w = refl

reset-zero :
    (w : World)
    → let after = (Client.reset w).1 in
      (after.hog.mouse_resolution ≡ record { wheel = 0; hor_wheel = 0 })
      × (after.hog.mouse_resolution_from_host ≡ false)
unfolding Client.reset Bridge.set_input_active
reset-zero w = rw (unref-hog w.hog.ctx.conn _) (refl, refl)

-- The host's resolution does not outlive the connection to the keyboard: when a discovery begins, the
-- host reads the lowest resolution back, whatever it has set before. Conditions: no discovery is under
-- way for the handle.
pub discovery_forgets_resolution :
    (p : Platform) (value conn conn_handle : ℕ) (resolution : MouseResolution) (w : World)
    → is_mouse_feature value ≡ true
    → discovery_active conn_handle w ≡ false
    → let set_up = (set_host_mouse_resolution (some resolution) w).1 in
      let after = (start_discovery p (some conn) conn_handle set_up).1 in
      (get_report_cb value after ≡ (pos 0, mouse_report_id ∷ 0 ∷ []))
      × (after.hog.mouse_resolution_from_host ≡ false)
unfolding get_report_cb start_discovery start_service_discovery mouse_resolution
    encode_mouse_resolution
discovery_forgets_resolution p value conn conn_handle resolution w feature idle =
    let set_up = (set_host_mouse_resolution (some resolution) w).1 in
    let still_idle = set-idle conn_handle resolution w ∙ idle in
    let zeroed = reset-zero set_up in rw (still_idle, feature, zeroed.0) (refl, zeroed.1)
