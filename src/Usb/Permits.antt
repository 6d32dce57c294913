-- ===== src/Usb/Permits.antt =====
-- The semaphore of the IN endpoint in main/src/usb_bridge.c.
use zmk_usb_bridge.Prelude.{
  ℕ, suc, ◌+◌, ◌≡◌, Bool, true, false, ◌&&◌, List, [], ◌∷◌, arith, if◌then◌else◌, length,
}
use zmk_usb_bridge.Types.{is_ok}
use zmk_usb_bridge.World.{World, Platform, Call, sem_take, sem_give}
use zmk_usb_bridge.Usb.{
  keyboard_release, consumer_release, mouse_release, send_report_locked, flush_safe_state_locked,
  set_pending, release_all,
}
use zmk_usb_bridge.Usb.Release.{written, Input, report, send, send_lem}

abbrev is_take : Call → Bool
is_take sem_take = true
is_take _ = false

abbrev is_give : Call → Bool
is_give sem_give = true
is_give _ = false

-- How often a permit was taken, a wait that timed out not counted, and how often one was given.
unfoldable pub taken : Platform → List Call → ℕ
taken p [] = 0
taken p (c ∷ calls) =
    let before = taken p calls in
    if is_take c && is_ok (p.result c calls) then suc before else before

unfoldable pub given : List Call → ℕ
given [] = 0
given (c ∷ calls) = let before = given calls in if is_give c then suc before else before

-- Between the two logs each permit taken was given back or went with a report to the endpoint.
abbrev pub IsBalanced : Platform → List Call → List Call → Type 0
IsBalanced p calls after =
    taken p after + given calls + length (written p calls)
    ≡ taken p calls + given after + length (written p after)

send_report-IsBalanced :
    (p : Platform) (r : List ℕ) (w : World)
    → IsBalanced p w.calls (send_report_locked p r w).1.calls
unfolding send_report_locked written taken given
send_report-IsBalanced p r w = ground arith

flush-IsBalanced :
    (p : Platform) (w : World) → IsBalanced p w.calls (flush_safe_state_locked p w).1.calls
unfolding flush_safe_state_locked
flush-IsBalanced p w =
    let w1 = (send_report_locked p keyboard_release w).1 in
    let w2 = (send_report_locked p consumer_release w1).1 in
    ground (
      arith,
      send_report-IsBalanced p keyboard_release w,
      send_report-IsBalanced p consumer_release w1,
      send_report-IsBalanced p mouse_release w2,
    )

-- No sender leaks a permit of the endpoint: on every path, time-outs, refused and short writes
-- included, the permits it has taken are those it has given back and one for each report that the
-- endpoint took whole. Conditions: no callback of the USB driver comes while the sender runs.
pub permits_balance :
    (p : Platform) (i : Input) (w : World)
    → IsBalanced p w.calls (send p i w).1.calls × IsBalanced p w.calls (release_all p w).1.calls
unfolding release_all
permits_balance p i w = (
  rw (send_lem p i w) (
      ground (
        arith,
        flush-IsBalanced p w,
        send_report-IsBalanced p (report i) (flush_safe_state_locked p w).1,
      )),
  flush-IsBalanced p (set_pending true w),
)
