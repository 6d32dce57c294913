-- ===== src/Hog/Reads/Idle.antt =====
-- The callbacks of main/src/hog_client.c while the client holds no connection.
use zmk_usb_bridge.Prelude.{ℕ, ◌≡◌, refl, false, List, Option, none, some}
use zmk_usb_bridge.World.{World, Platform}
use zmk_usb_bridge.Hog.Slots.{conn_matches}
use zmk_usb_bridge.Hog.Callbacks.{
  Service, Characteristic, Descriptor, on_hids_service_discovered,
  on_report_characteristic_discovered, on_report_descriptor_discovered,
}
use zmk_usb_bridge.Hog.Reads.{on_mouse_feature_read, on_report_subscribed, on_report_ref_read}

no_match : (conn : ℕ) (w : World) → w.hog.ctx.conn ≡ none → conn_matches conn w ≡ false
no_match conn w absent = rw (absent, conn_matches) refl

-- A callback on no connection of the client is ignored.
abbrev pub Ignored : World → World → Type 0
Ignored w after = after ≡ w

pub service-Ignored :
    (p : Platform) (conn : ℕ) (attr : Option Service) (w : World)
    → w.hog.ctx.conn ≡ none
    → Ignored w (on_hids_service_discovered p conn attr w).1
unfolding on_hids_service_discovered
service-Ignored p conn none w absent = rw (no_match conn w absent) refl
service-Ignored p conn (some service) w absent = rw (no_match conn w absent) refl

pub characteristic-Ignored :
    (p : Platform) (conn : ℕ) (attr : Option Characteristic) (w : World)
    → w.hog.ctx.conn ≡ none
    → Ignored w (on_report_characteristic_discovered p conn attr w).1
unfolding on_report_characteristic_discovered
characteristic-Ignored p conn none w absent = rw (no_match conn w absent) refl
characteristic-Ignored p conn (some c) w absent = rw (no_match conn w absent) refl

pub feature-Ignored :
    (p : Platform) (conn err : ℕ) (payload : Option (List ℕ)) (w : World)
    → w.hog.ctx.conn ≡ none
    → Ignored w (on_mouse_feature_read p conn err payload w).1
unfolding on_mouse_feature_read
feature-Ignored p conn err none w absent = refl
feature-Ignored p conn err (some payload) w absent = rw (no_match conn w absent) refl

pub descriptor-Ignored :
    (p : Platform) (conn : ℕ) (attr : Option Descriptor) (w : World)
    → w.hog.ctx.conn ≡ none
    → Ignored w (on_report_descriptor_discovered p conn attr w).1
unfolding on_report_descriptor_discovered
descriptor-Ignored p conn attr w absent = rw (no_match conn w absent) refl

pub reference-Ignored :
    (p : Platform) (conn err : ℕ) (payload : Option (List ℕ)) (w : World)
    → w.hog.ctx.conn ≡ none
    → Ignored w (on_report_ref_read p conn err payload w).1
unfolding on_report_ref_read
reference-Ignored p conn err payload w absent = rw (no_match conn w absent) refl

pub subscribed-Ignored :
    (p : Platform) (conn err i : ℕ) (w : World)
    → w.hog.ctx.conn ≡ none
    → Ignored w (on_report_subscribed p conn err i w)
unfolding on_report_subscribed
subscribed-Ignored p conn err i w absent = rw (no_match conn w absent) refl
