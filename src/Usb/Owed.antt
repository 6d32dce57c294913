-- ===== src/Usb/Owed.antt =====
-- The pending release of main/src/usb_bridge.c, over runs of its senders and its callbacks.
use zmk_usb_bridge.Prelude.{
  ℕ, ◌≡◌, refl, ◌⊎◌, inl, inr, if◌then◌else◌, true, List, [], ◌∷◌, arith, Bool-cases, ◌∙◌,
}
use zmk_usb_bridge.Types.{Status, ok, is_ok}
use zmk_usb_bridge.World.{World, Platform}
use zmk_usb_bridge.Bridge
use zmk_usb_bridge.Usb.{
  keyboard_release, consumer_release, mouse_release, set_pending, DcStatus, status_cb, ready_cb,
}
use zmk_usb_bridge.Usb.Interrupted
use zmk_usb_bridge.Usb.Interrupted.{Callback, callback, callbacks, Gaps, FlushGaps, SendGaps}
use zmk_usb_bridge.Usb.Interrupted.Quiet.{
  keep_host, IsQuiet, IsQuietFlush, callbacks-Idle, send_report-SentQuietly, flush-FlushedQuietly,
  flush_idle,
}
use zmk_usb_bridge.Usb.Release.{written, releases, Input, report}

abbrev IsSuffix : List (List ℕ) → List (List ℕ) → Type 0
IsSuffix old [] = old ≡ []
IsSuffix old (x ∷ l) = (old ≡ x ∷ l) ⊎ IsSuffix old l

IsSuffix-refl : (l : List (List ℕ)) → IsSuffix l l
IsSuffix-refl [] = refl
IsSuffix-refl (x ∷ l) = inl refl

-- All three releases, one after the other, are among the reports sent since `old`.
pub data ReleasedSince (old : List (List ℕ)) : List (List ℕ) → Type 0 where
  release : (before : List (List ℕ)) → IsSuffix old before → ReleasedSince old (releases before)
  later : (r : List ℕ) (l : List (List ℕ)) → ReleasedSince old l → ReleasedSince old (r ∷ l)

-- The releases asked for when `old` had been sent are still pending, or have been sent.
pub IsOwed : Platform → List (List ℕ) → World → Type 0
IsOwed p old w =
    ((w.usb.safe_state_pending ≡ true) × IsSuffix old (written p w.calls))
    ⊎ ReleasedSince old (written p w.calls)

-- What can happen to the USB side after `init`, with the callbacks that come meanwhile.
pub data Action : Type 0 where
  input : Input → SendGaps → Action
  release_all : FlushGaps → Action
  driver : Callback → Action

unfoldable pub act : Platform → Action → World → World
act p (input i gaps) w = (Interrupted.send p (report i) gaps w).1
act p (release_all gaps) w = (Interrupted.release_all p gaps w).1
act p (driver c) w = callback c w

unfoldable pub act_all : Platform → List Action → World → World
act_all p [] w = w
act_all p (a ∷ rest) w = act_all p rest (act p a w)

-- No reset and no disconnection comes while an operation runs.
abbrev pub IsQuietAction : Action → Type 0
IsQuietAction (input i g) =
    IsQuietFlush g.flush × (keep_host g.after_flush ≡ true) × IsQuiet g.report
IsQuietAction (release_all g) = IsQuietFlush g
IsQuietAction (driver c) = Unit

abbrev pub AllQuiet : List Action → Type 0
AllQuiet [] = Unit
AllQuiet (a ∷ rest) = IsQuietAction a × AllQuiet rest

-- How far an operation that may send releases, and then `r`, can come.
abbrev Progress : Platform → List ℕ → World → World → Type 0
Progress p r w after =
    let same = after.usb.safe_state_pending ≡ w.usb.safe_state_pending in
    let sent = written p w.calls in
    let now = written p after.calls in
    (same × (now ≡ sent))
    ⊎ (same × (now ≡ keyboard_release ∷ sent))
    ⊎ (same × (now ≡ consumer_release ∷ keyboard_release ∷ sent))
    ⊎ (now ≡ releases sent)
    ⊎ (same × (now ≡ r ∷ sent))
    ⊎ (now ≡ r ∷ releases sent)

Progress-IsOwed :
    (p : Platform) (r : List ℕ) (w after : World) (old : List (List ℕ))
    → Progress p r w after
    → IsOwed p old w
    → IsOwed p old after
unfolding IsOwed
Progress-IsOwed p r w after old (inl (d, e)) (inl h) = inl (d ∙ h.0, rw e h.1)
Progress-IsOwed p r w after old (inl (d, e)) (inr h) = inr (rw e h)
Progress-IsOwed p r w after old (inr (inl (d, e))) (inl h) = inl (d ∙ h.0, rw e (inr h.1))
Progress-IsOwed p r w after old (inr (inl (d, e))) (inr h) = inr (rw e (later _ _ h))
Progress-IsOwed p r w after old (inr (inr (inl (d, e)))) (inl h) =
    inl (d ∙ h.0, rw e (inr (inr h.1)))
Progress-IsOwed p r w after old (inr (inr (inl (d, e)))) (inr h) =
    inr (rw e (later _ _ (later _ _ h)))
Progress-IsOwed p r w after old (inr (inr (inr (inl e)))) (inl h) = inr (rw e (release _ h.1))
Progress-IsOwed p r w after old (inr (inr (inr (inl e)))) (inr h) =
    inr (rw e (later _ _ (later _ _ (later _ _ h))))
Progress-IsOwed p r w after old (inr (inr (inr (inr (inl (d, e)))))) (inl h) =
    inl (d ∙ h.0, rw e (inr h.1))
Progress-IsOwed p r w after old (inr (inr (inr (inr (inl (d, e)))))) (inr h) =
    inr (rw e (later r _ h))
Progress-IsOwed p r w after old (inr (inr (inr (inr (inr e))))) (inl h) =
    inr (rw e (later r _ (release _ h.1)))
Progress-IsOwed p r w after old (inr (inr (inr (inr (inr e))))) (inr h) =
    inr (rw e (later r _ (later _ _ (later _ _ (later _ _ h)))))

flush-Progress :
    (p : Platform) (r : List ℕ) (g : FlushGaps) (w : World)
    → IsQuietFlush g
    → Progress p r w (Interrupted.flush_safe_state p g w).1
unfolding Interrupted.flush_safe_state
flush-Progress p r g w quiet =
    let w1 = (Interrupted.send_report p keyboard_release g.keyboard w).1 in
    let w2 = (Interrupted.send_report p consumer_release g.consumer w1).1 in
    ground (
      arith,
      send_report-SentQuietly p keyboard_release g.keyboard w quiet.0,
      send_report-SentQuietly p consumer_release g.consumer w1 quiet.1,
      send_report-SentQuietly p mouse_release g.mouse w2 quiet.2,
    )

-- The end of a sender.
send_if_configured : Platform → List ℕ → Gaps → World → Status × World
send_if_configured p r g w =
    if w.usb.usb_configured then Interrupted.send_report p r g w else (ok, w)

report-Progress :
    (p : Platform) (r : List ℕ) (g : Gaps) (w : World)
    → IsQuiet g
    → let after = (send_if_configured p r g w).1 in
      (after.usb.safe_state_pending ≡ w.usb.safe_state_pending)
      × ((written p after.calls ≡ written p w.calls)
          ⊎ (written p after.calls ≡ r ∷ written p w.calls))
unfolding send_if_configured
report-Progress p r g w quiet = ground (arith, send_report-SentQuietly p r g w quiet)

send-Progress :
    (p : Platform) (r : List ℕ) (g : SendGaps) (w : World)
    → IsQuietAction (input (Input.mouse Bridge.empty_mouse) g)
    → Progress p r w (Interrupted.send p r g w).1
unfolding Interrupted.send send_if_configured
send-Progress p r g w quiet =
    let flushed = (Interrupted.flush_safe_state p g.flush w).1 in
    let gone_on = callbacks g.after_flush flushed in
    let idle = callbacks-Idle p g.after_flush flushed quiet.1 in
    let last = report-Progress p r g.report gone_on quiet.2 in
    elim (Bool-cases w.usb.usb_configured) [
      | inl c ↦ elim (Bool-cases w.usb.safe_state_pending) [
        | inl d ↦ elim (Bool-cases (is_ok (Interrupted.flush_safe_state p g.flush w).0)) [
          | inl o ↦ ground (arith, flush-FlushedQuietly p g.flush w quiet.0 c d, idle, last)
          | inr o ↦ rw o (flush-Progress p r g.flush w quiet.0)
        ]
        | inr d ↦ ground (arith, flush_idle p g.flush w (inr d), idle, last)
      ]
      | inr c ↦ ground (arith, flush_idle p g.flush w (inl c), idle, last)
    ]

IsOwed-pending :
    (p : Platform) (w : World) (old : List (List ℕ))
    → IsOwed p old w
    → IsOwed p old (set_pending true w)
unfolding IsOwed
IsOwed-pending p w old (inl h) = inl (refl, h.1)
IsOwed-pending p w old (inr h) = inr h

driver-IsOwed :
    (p : Platform) (c : Callback) (w : World) (old : List (List ℕ))
    → IsOwed p old w
    → IsOwed p old (callback c w)
unfolding IsOwed callback status_cb ready_cb written
driver-IsOwed p (Callback.status DcStatus.configured) w old h = h
driver-IsOwed p (Callback.status DcStatus.reset) w old h = h
driver-IsOwed p (Callback.status DcStatus.disconnected) w old h = h
driver-IsOwed p (Callback.status DcStatus.other) w old h = h
driver-IsOwed p Callback.ready w old h = h

act-IsOwed :
    (p : Platform) (a : Action) (w : World) (old : List (List ℕ))
    → IsQuietAction a
    → IsOwed p old w
    → IsOwed p old (act p a w)
unfolding act
act-IsOwed p (input i g) w old quiet h =
    Progress-IsOwed p (report i) w (Interrupted.send p (report i) g w).1 old
      (send-Progress p (report i) g w quiet) h
act-IsOwed p (release_all g) w old quiet h =
    unfold Interrupted.release_all in
    Progress-IsOwed p [] (set_pending true w)
      (Interrupted.flush_safe_state p g (set_pending true w)).1 old
      (flush-Progress p [] g (set_pending true w) quiet) (IsOwed-pending p w old h)
act-IsOwed p (driver c) w old quiet h = driver-IsOwed p c w old h

pending-IsOwed : (p : Platform) (w : World) → IsOwed p (written p w.calls) (set_pending true w)
unfolding IsOwed
pending-IsOwed p w = inl (refl, IsSuffix-refl (written p w.calls))

act_all-IsOwed :
    (p : Platform) (actions : List Action) (w : World) (old : List (List ℕ))
    → AllQuiet actions
    → IsOwed p old w
    → IsOwed p old (act_all p actions w)
unfolding act_all
act_all-IsOwed p [] w old quiet h = h
act_all-IsOwed p (a ∷ rest) w old quiet h =
    act_all-IsOwed p rest (act p a w) old quiet.1 (act-IsOwed p a w old quiet.0 h)

-- Once `release_all` has been called, whatever it returned, and after any further senders, releases,
-- USB resets, disconnections and reconfigurations: the release is still pending, or the keyboard,
-- consumer and mouse release reports have gone to the host one after the other since the call.
-- Conditions: a USB reset or disconnection does not come while a sender or a release runs; the
-- driver's other callbacks may come there, between any two statements.
pub release_never_lost :
    (p : Platform) (gaps : FlushGaps) (actions : List Action) (w : World)
    → IsQuietFlush gaps
    → AllQuiet actions
    → IsOwed p (written p w.calls) (act_all p actions (Interrupted.release_all p gaps w).1)
unfolding Interrupted.release_all
release_never_lost p gaps actions w quiet all_quiet =
    act_all-IsOwed p actions (Interrupted.release_all p gaps w).1 (written p w.calls) all_quiet (
      Progress-IsOwed p [] (set_pending true w)
        (Interrupted.flush_safe_state p gaps (set_pending true w)).1 (written p w.calls)
        (flush-Progress p [] gaps (set_pending true w) quiet) (pending-IsOwed p w))
