-- ===== src/Ui/Led.antt =====
-- What the LEDs of main/src/recovery_ui.c show.
use zmk_usb_bridge.Prelude.{
  ℕ, zero, suc, ◌≡◌, refl, ◌⊎◌, inl, inr, Bool, true, false, not, ◌||◌, List, [], ◌∷◌, Option, none,
  some, arith, if◌then◌else◌,
}
use zmk_usb_bridge.Types.{ok, State}
use zmk_usb_bridge.World.{World, Call, led_work, reschedule, cancel, expired, set_leds, log}
use zmk_usb_bridge.Ui.{LedColor, dark, pattern_for_state, led_work_handler, set_state}

-- The colour that was set last.
unfoldable pub shown : List Call → Option LedColor
shown [] = none
shown (set_leds red green blue ∷ calls) = some (record { red = red; green = green; blue = blue })
shown (c ∷ calls) = shown calls

-- The time after which the LED timer fires, if it is running.
unfoldable pub led_timer : List Call → Option ℕ
led_timer [] = none
led_timer (reschedule led_work ms ∷ calls) = some ms
led_timer (cancel led_work ∷ calls) = none
led_timer (expired led_work ∷ calls) = none
led_timer (c ∷ calls) = led_timer calls

-- The state after the LED timer has fired `n` times.
unfoldable pub fire : ℕ → World → World
fire zero w = w
fire (suc n) w = led_work_handler (log (expired led_work) (fire n w))

abbrev even : ℕ → Bool
even zero = true
even (suc n) = not (even n)

record Shows (s : State) (lit : Bool) (w : World) : Type 0 where
  state : w.ui.ui_state ≡ s
  phase : w.ui.blink_phase_on ≡ (lit || not (pattern_for_state s).blinking)
  color :
      shown w.calls
      ≡ some
          (if lit || not (pattern_for_state s).blinking then (pattern_for_state s).color else dark)
  timer : led_timer w.calls ≡ (
      if (pattern_for_state s).blinking
      then some (
          if lit || not (pattern_for_state s).blinking
          then (pattern_for_state s).on_ms
          else (pattern_for_state s).off_ms)
      else none)

handler-Shows :
    (s : State) (lit : Bool) (w : World)
    → w.ui.ui_state ≡ s
    → led_timer w.calls ≡ none
    → ((pattern_for_state s).blinking ≡ false) ⊎ (w.ui.blink_phase_on ≡ lit)
    → Shows s (not lit) (led_work_handler w)
unfolding led_work_handler shown led_timer
handler-Shows s lit w e t (inl steady) =
    rw (e, steady)
      (record { state = refl; phase = ground arith; color = ground arith; timer = rw steady t })
handler-Shows s lit w e t (inr phase) = ground arith

fire-Shows : (s : State) (n : ℕ) (w : World) → Shows s (even n) (fire n (set_state s w).1)
unfolding fire set_state led_timer shown
fire-Shows s zero w = handler-Shows s false _ refl refl (inr refl)
fire-Shows s (suc n) w =
    let before = fire-Shows s n w in handler-Shows s (even n) _ before.state refl (ground arith)

-- Setting a state always succeeds and shows its pattern at once. After the LED timer has fired any
-- number of times a steady pattern shows its colour with no timer running, and a blinking one shows
-- its colour or darkness by turns, the colour first, with the timer running for that phase's time.
pub set_state-shows :
    (s : State) (n : ℕ) (w : World)
    → let after = fire n (set_state s w).1 in
      let pattern = pattern_for_state s in
      let lit = even n || not pattern.blinking in
      ((set_state s w).0 ≡ ok)
      × (shown after.calls ≡ some (if lit then pattern.color else dark))
      × (led_timer after.calls ≡ (
          if pattern.blinking then some (if lit then pattern.on_ms else pattern.off_ms) else none))
unfolding set_state
set_state-shows s n w = let shows = fire-Shows s n w in (refl, shows.color, shows.timer)
