-- ===== src/Usb/Interrupted/Quiet.antt =====
-- The senders of main/src/usb_bridge.c while the USB driver does not take the host away.
use zmk_usb_bridge.Prelude.{ℕ, ◌≡◌, refl, ◌⊎◌, Bool, true, false, ◌&&◌, List, [], ◌∷◌, arith, ◌∙◌}
use zmk_usb_bridge.Types.{Status, ok, is_ok}
use zmk_usb_bridge.World.{World, Platform, invoke, sem_take, hid_write}
use zmk_usb_bridge.Usb.{
  keyboard_release, consumer_release, mouse_release, DcStatus, status_cb, ready_cb,
}
use zmk_usb_bridge.Usb.Interrupted
use zmk_usb_bridge.Usb.Interrupted.{Callback, callback, callbacks, Gaps, FlushGaps, SendGaps}
use zmk_usb_bridge.Usb.Release.{written, releases}

-- The host does not go away: the callback is no reset and no disconnection.
abbrev pub keeps_host : Callback → Bool
keeps_host (Callback.status DcStatus.reset) = false
keeps_host (Callback.status DcStatus.disconnected) = false
keeps_host _ = true

abbrev pub keep_host : List Callback → Bool
keep_host [] = true
keep_host (c ∷ rest) = keeps_host c && keep_host rest

abbrev pub IsQuiet : Gaps → Type 0
IsQuiet g =
    (keep_host g.before_test ≡ true)
    × (keep_host g.before_take ≡ true)
    × (keep_host g.before_write ≡ true)
    × (keep_host g.after_write ≡ true)

abbrev pub IsQuietFlush : FlushGaps → Type 0
IsQuietFlush g = IsQuiet g.keyboard × IsQuiet g.consumer × IsQuiet g.mouse

-- Callbacks that send nothing, keep the pending release, and do not take the host away.
abbrev pub Idle : Platform → World → World → Type 0
Idle p w after =
    (written p after.calls ≡ written p w.calls)
    × (after.usb.safe_state_pending ≡ w.usb.safe_state_pending)
    × (w.usb.usb_configured ≡ true → after.usb.usb_configured ≡ true)

callback-Idle :
    (p : Platform) (c : Callback) (w : World) → keeps_host c ≡ true → Idle p w (callback c w)
unfolding callback status_cb ready_cb written
callback-Idle p (Callback.status DcStatus.configured) w h = (refl, refl, λ e. refl)
callback-Idle p (Callback.status DcStatus.reset) w h = cc
callback-Idle p (Callback.status DcStatus.disconnected) w h = cc
callback-Idle p (Callback.status DcStatus.other) w h = (refl, refl, λ e. e)
callback-Idle p Callback.ready w h = (refl, refl, λ e. e)

pub callbacks-Idle :
    (p : Platform) (cs : List Callback) (w : World)
    → keep_host cs ≡ true
    → Idle p w (callbacks cs w)
unfolding callbacks
callbacks-Idle p [] w h = (refl, refl, λ e. e)
callbacks-Idle p (c ∷ rest) w h =
    let first = callback-Idle p c w (ground arith) in
    let next = callbacks-Idle p rest (callback c w) (ground arith) in
    (next.0 ∙ first.0, next.1 ∙ first.1, λ e. next.2 (first.2 e))

-- What the sending of one report does while the host stays.
pub record SentQuietly (p : Platform) (r : List ℕ) (w : World) (out : Status × World) : Type 0 where
  pub done : is_ok out.0 ≡ true → written p out.1.calls ≡ r ∷ written p w.calls
  pub failed : is_ok out.0 ≡ false → written p out.1.calls ≡ written p w.calls
  pub pending : out.1.usb.safe_state_pending ≡ w.usb.safe_state_pending
  pub configured : out.1.usb.usb_configured ≡ true

pub send_report-SentQuietly :
    (p : Platform) (r : List ℕ) (g : Gaps) (w : World)
    → IsQuiet g
    → w.usb.usb_configured ≡ true
    → SentQuietly p r w (Interrupted.send_report p r g w)
unfolding Interrupted.send_report written
send_report-SentQuietly p r g w quiet c =
    let tested = callbacks g.before_test w in
    let taking = callbacks g.before_take tested in
    let waited = (invoke p sem_take taking).1 in
    let writing = callbacks g.before_write waited in
    let sent = (invoke p (hid_write r) writing).1 in
    let a = callbacks-Idle p g.before_test w quiet.0 in
    let b = callbacks-Idle p g.before_take tested quiet.1 in
    let d = callbacks-Idle p g.before_write waited quiet.2 in
    let e = callbacks-Idle p g.after_write sent quiet.3 in ground (arith, a, b, d, e)

-- What the flush of a pending release does while the host stays.
pub record FlushedQuietly (p : Platform) (w : World) (out : Status × World) : Type 0 where
  pub done : is_ok out.0 ≡ true → written p out.1.calls ≡ releases (written p w.calls)
  pub configured : out.1.usb.usb_configured ≡ true

pub flush-FlushedQuietly :
    (p : Platform) (g : FlushGaps) (w : World)
    → IsQuietFlush g
    → w.usb.usb_configured ≡ true
    → w.usb.safe_state_pending ≡ true
    → FlushedQuietly p w (Interrupted.flush_safe_state p g w)
unfolding Interrupted.flush_safe_state
flush-FlushedQuietly p g w quiet c d =
    let w1 = (Interrupted.send_report p keyboard_release g.keyboard w).1 in
    let w2 = (Interrupted.send_report p consumer_release g.consumer w1).1 in
    ground (
      arith,
      send_report-SentQuietly p keyboard_release g.keyboard w quiet.0 c,
      send_report-SentQuietly p consumer_release g.consumer w1 quiet.1,
      send_report-SentQuietly p mouse_release g.mouse w2 quiet.2,
    )

pub flush_idle :
    (p : Platform) (g : FlushGaps) (w : World)
    → (w.usb.usb_configured ≡ false) ⊎ (w.usb.safe_state_pending ≡ false)
    → Interrupted.flush_safe_state p g w ≡ (ok, w)
unfolding Interrupted.flush_safe_state
flush_idle p g w h = ground arith
