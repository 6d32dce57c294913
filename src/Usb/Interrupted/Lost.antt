-- ===== src/Usb/Interrupted/Lost.antt =====
-- A USB reset in the middle of the release of main/src/usb_bridge.c.
use zmk_usb_bridge.Prelude.{◌≡◌, true, false, ◌∷◌, [], arith}
use zmk_usb_bridge.Types.{ok, is_ok}
use zmk_usb_bridge.World.{World, Platform}
use zmk_usb_bridge.Usb.{keyboard_release, send_report_locked, set_pending, DcStatus, status_cb}
use zmk_usb_bridge.Usb.Release.{written}
use zmk_usb_bridge.Usb.Interrupted.{
  Callback, callback, callbacks, FlushGaps, no_gaps, no_flush_gaps, send_report, flush_safe_state,
  release_all,
}

-- The reset comes when the release of the keyboard has been written.
abbrev pub reset_after_keyboard : FlushGaps
reset_after_keyboard = record no_flush_gaps {
  keyboard = record no_gaps { after_write = Callback.status DcStatus.reset ∷ [] };
}

-- If the host resets USB when the keyboard's release has been written and the other two have not, then
-- `release_all` returns OK and clears the mark of the pending release, although those two have not gone
-- to the host. Conditions: a host is there, and the keyboard's release can be sent.
pub reset_drops_releases :
    (p : Platform) (w : World)
    → w.usb.usb_configured ≡ true
    → is_ok (send_report_locked p keyboard_release (set_pending true w)).0 ≡ true
    → let (status, after) = release_all p reset_after_keyboard w in
      (status ≡ ok)
      × (after.usb.safe_state_pending ≡ false)
      × (written p after.calls ≡ keyboard_release ∷ written p w.calls)
unfolding release_all flush_safe_state send_report callbacks callback status_cb send_report_locked
    written
reset_drops_releases p w c sent = ground arith
