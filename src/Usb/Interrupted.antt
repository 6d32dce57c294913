-- ===== src/Usb/Interrupted.antt =====
-- main/src/usb_bridge.c as it runs beside the USB driver. The senders hold the mutex, but the driver's
-- callbacks do not take it, so any of them may come between two statements of a sender: each place
-- where that matters is a list of the callbacks that come there.
pub mod Quiet
pub mod Lost
use zmk_usb_bridge.Prelude.{
  ◌≡◌, refl, ◌||◌, ◌&&◌, Bool, true, false, not, List, [], ◌∷◌, ◌==◌, if◌then◌else◌, length, ℕ,
}
use zmk_usb_bridge.Types.{ok, invalid_state, queue_full, is_ok}
use zmk_usb_bridge.World.{
  World, Platform, Op, ◌>>◌, give, effect, branch, log, invoke, sem_take, sem_give, hid_write,
}
use zmk_usb_bridge.Usb.{
  map_usb_error, send_report_locked, flush_safe_state_locked, set_pending, DcStatus, status_cb,
  ready_cb, keyboard_release, consumer_release, mouse_release, send_after_flush,
}

pub data Callback : Type 0 where
  status : DcStatus → Callback
  ready : Callback

unfoldable pub callback : Callback → World → World
callback (status s) w = status_cb s w
callback ready w = ready_cb w

unfoldable pub callbacks : List Callback → World → World
callbacks [] w = w
callbacks (c ∷ rest) w = callbacks rest (callback c w)

-- The callbacks that come while one report is sent: before the test for a host, before the semaphore
-- is taken, before the report is written, and before `send_report_locked` goes on.
pub record Gaps : Type 0 where
  pub before_test : List Callback
  pub before_take : List Callback
  pub before_write : List Callback
  pub after_write : List Callback

-- `send_report_locked`.
unfoldable pub send_report : Platform → List ℕ → Gaps → Op World
unfolding map_usb_error
send_report p report gaps w =
    let tested = callbacks gaps.before_test w in
    let (taken, waited) = invoke p sem_take (callbacks gaps.before_take tested) in
    let writing = callbacks gaps.before_write waited in
    let (ret, sent) = invoke p (hid_write report) writing in
    let after = callbacks gaps.after_write sent in
    if tested.usb.usb_configured
    then if is_ok taken
      then if is_ok ret
        then if p.written report writing.calls == length report
          then (ok, after)
          else (invalid_state, log sem_give after)
        else (map_usb_error ret, log sem_give after)
      else (queue_full, waited)
    else (ok, tested)

pub record FlushGaps : Type 0 where
  pub keyboard : Gaps
  pub consumer : Gaps
  pub mouse : Gaps

-- `flush_safe_state_locked`.
unfoldable pub flush_safe_state : Platform → FlushGaps → Op World
flush_safe_state p gaps =
    branch (λ w. not w.usb.safe_state_pending || not w.usb.usb_configured) (give ok)
      (do
        send_report p keyboard_release gaps.keyboard
        send_report p consumer_release gaps.consumer
        send_report p mouse_release gaps.mouse
        effect (set_pending false))

pub record SendGaps : Type 0 where
  pub flush : FlushGaps
  pub after_flush : List Callback
  pub report : Gaps

-- What the three senders have in common.
unfoldable pub send : Platform → List ℕ → SendGaps → Op World
send p report gaps = do
  flush_safe_state p gaps.flush
  effect (callbacks gaps.after_flush)
  branch (λ w. w.usb.usb_configured) (send_report p report gaps.report) (give ok)

unfoldable pub release_all : Platform → FlushGaps → Op World
release_all p gaps w = flush_safe_state p gaps (set_pending true w)

-- No callback comes.
abbrev pub no_gaps : Gaps
no_gaps = record { before_test = []; before_take = []; before_write = []; after_write = [] }

abbrev pub no_flush_gaps : FlushGaps
no_flush_gaps = record { keyboard = no_gaps; consumer = no_gaps; mouse = no_gaps }

abbrev pub no_send_gaps : SendGaps
no_send_gaps = record { flush = no_flush_gaps; after_flush = []; report = no_gaps }

pub send_report-no_gaps :
    (p : Platform) (r : List ℕ) (w : World) → send_report p r no_gaps w ≡ send_report_locked p r w
unfolding send_report callbacks send_report_locked
send_report-no_gaps p r w = refl

-- Where no callback comes, the interrupted flush is the flush of `Usb`.
pub flush-no_gaps :
    (p : Platform) (w : World) → flush_safe_state p no_flush_gaps w ≡ flush_safe_state_locked p w
unfolding flush_safe_state send_report callbacks flush_safe_state_locked send_report_locked
flush-no_gaps p w = refl

-- Nor is there a difference in the senders.
pub send-no_gaps :
    (p : Platform) (r : List ℕ) (w : World) → send p r no_send_gaps w ≡ send_after_flush p r w
unfolding send flush_safe_state send_report callbacks flush_safe_state_locked send_report_locked
send-no_gaps p r w = refl
