-- ===== src/Usb/Release.antt =====
-- The log of main/src/usb_bridge.c as the host sees it: the reports it got, and in which order.
use zmk_usb_bridge.Prelude.{
  ℕ, ◌≡◌, refl, ◌⊎◌, inl, inr, true, false, ◌&&◌, List, [], ◌∷◌, Option, none, some, arith, ◌==◌,
  if◌then◌else◌, length, Bool-cases, ap,
}
use zmk_usb_bridge.Types.{Status, ok, is_ok, KeyboardBody, ConsumerBody, MouseBody}
use zmk_usb_bridge.World.{World, Platform, Op, Call, hid_write}
use zmk_usb_bridge.Usb.{
  keyboard_report, consumer_report, mouse_report, keyboard_release, consumer_release, mouse_release,
  send_report_locked, flush_safe_state_locked, send_keyboard, send_consumer, send_mouse,
  send_after_flush,
}

abbrev report_of : Call → Option (List ℕ)
report_of (hid_write report) = some report
report_of _ = none

-- The reports that the endpoint took whole, newest first.
unfoldable pub written : Platform → List Call → List (List ℕ)
written p [] = []
written p (c ∷ calls) =
    let before = written p calls in
    elim (report_of c) [
      | none ↦ before
      | some r ↦
          if is_ok (p.result c calls) && p.written r calls == length r then r ∷ before else before
    ]

-- The three release reports on top of earlier ones.
abbrev pub releases : List (List ℕ) → List (List ℕ)
releases before = mouse_release ∷ consumer_release ∷ keyboard_release ∷ before

-- What a sender does to the log and to the static variables.
pub record Sent (p : Platform) (reports : List (List ℕ)) (w : World) (out : Status × World)
    : Type 0 where
  pub done : is_ok out.0 ≡ true → written p out.1.calls ≡ reports
  pub failed : is_ok out.0 ≡ false → written p out.1.calls ≡ written p w.calls
  pub only_log : out.1 ≡ record w { calls = out.1.calls }

pub send_report-Sent :
    (p : Platform) (r : List ℕ) (w : World)
    → w.usb.usb_configured ≡ true
    → Sent p (r ∷ written p w.calls) w (send_report_locked p r w)
unfolding send_report_locked written
send_report-Sent p r w c = ground arith

-- What the flush of a pending release does, if a host is there.
pub record Flushed (p : Platform) (w : World) (out : Status × World) : Type 0 where
  pub done : is_ok out.0 ≡ true → written p out.1.calls ≡ releases (written p w.calls)
  pub cleared :
      is_ok out.0 ≡ true
      → out.1
        ≡ record w { calls = out.1.calls; usb = record (w.usb) { safe_state_pending = false } }
  pub kept : is_ok out.0 ≡ false → out.1 ≡ record w { calls = out.1.calls }

pub flush-Flushed :
    (p : Platform) (w : World)
    → w.usb.usb_configured ≡ true
    → w.usb.safe_state_pending ≡ true
    → Flushed p w (flush_safe_state_locked p w)
unfolding flush_safe_state_locked
flush-Flushed p w c d =
    let w1 = (send_report_locked p keyboard_release w).1 in
    let w2 = (send_report_locked p consumer_release w1).1 in
    ground (
      arith,
      send_report-Sent p keyboard_release w,
      send_report-Sent p consumer_release w1,
      send_report-Sent p mouse_release w2,
    )

pub flush_idle :
    (p : Platform) (w : World)
    → (w.usb.usb_configured ≡ false) ⊎ (w.usb.safe_state_pending ≡ false)
    → flush_safe_state_locked p w ≡ (ok, w)
unfolding flush_safe_state_locked
flush_idle p w h = ground arith

-- An input report, and its sender.
pub data Input : Type 0 where
  keyboard : KeyboardBody → Input
  consumer : ConsumerBody → Input
  mouse : MouseBody → Input

unfoldable pub report : Input → List ℕ
report (keyboard body) = keyboard_report body
report (consumer body) = consumer_report body
report (mouse body) = mouse_report body

unfoldable pub send : Platform → Input → Op World
unfolding send_keyboard send_consumer send_mouse
send p (keyboard body) = send_keyboard p (some body)
send p (consumer body) = send_consumer p (some body)
send p (mouse body) = send_mouse p (some body)

pub send_lem : (p : Platform) (i : Input) (w : World) → send p i w ≡ send_after_flush p (report i) w
unfolding send report
send_lem p (keyboard body) w = refl
send_lem p (consumer body) w = refl
send_lem p (mouse body) w = refl

after_flush_done :
    (p : Platform) (r : List ℕ) (w : World)
    → w.usb.usb_configured ≡ true
    → let (status, after) = send_after_flush p r w in
      is_ok status ≡ true
      → (written p after.calls
          ≡ r
            ∷ (if w.usb.safe_state_pending
                then releases (written p w.calls)
                else written p w.calls))
        × (after.usb ≡ record (w.usb) { safe_state_pending = false })
after_flush_done p r w c =
    let flushed = (flush_safe_state_locked p w).1 in
    elim (Bool-cases w.usb.safe_state_pending) [
      | inl d ↦ ground (arith, flush-Flushed p w c d, send_report-Sent p r flushed)
      | inr d ↦ ground (arith, flush_idle p w (inr d), send_report-Sent p r w)
    ]

-- With a host, a sender that returns OK has sent its report, after the three releases if they were
-- pending and with none between, and nothing is pending any more. Conditions: no callback of the USB
-- driver comes while the sender runs.
pub releases_before_input :
    (p : Platform) (i : Input) (w : World)
    → w.usb.usb_configured ≡ true
    → is_ok (send p i w).0 ≡ true
    → let after = (send p i w).1 in
      (written p after.calls
        ≡ report i
          ∷ (if w.usb.safe_state_pending then releases (written p w.calls) else written p w.calls))
      × (after.usb.safe_state_pending ≡ false)
releases_before_input p i w c = rw (send_lem p i w) λ h.
    let done = after_flush_done p (report i) w c h in
    (done.0, ap (λ u. u.safe_state_pending) done.1)

-- A flush changes nothing but the log and the flag of the pending release.
pub flush_frame :
    (p : Platform) (w : World)
    → let after = (flush_safe_state_locked p w).1 in
      after ≡ record w {
        calls = after.calls;
        usb = record (w.usb) { safe_state_pending = after.usb.safe_state_pending };
      }
flush_frame p w = elim (Bool-cases w.usb.usb_configured) [
  | inl c ↦ elim (Bool-cases w.usb.safe_state_pending) [
    | inl d ↦ elim (Bool-cases (is_ok (flush_safe_state_locked p w).0)) [
      | inl o ↦ ground (arith, (flush-Flushed p w c d).cleared o)
      | inr o ↦ ground (arith, (flush-Flushed p w c d).kept o)
    ]
    | inr d ↦ rw (flush_idle p w (inr d))
  ]
  | inr c ↦ rw (flush_idle p w (inl c))
]
