-- ===== src/Ui.antt =====
-- main/src/recovery_ui.c: the colour and the blinking of the LEDs, and the recovery button, which the
-- board has.
pub mod Button
pub mod Led
use zmk_usb_bridge.Prelude.{
  ℕ, zero, suc, Bool, true, false, not, ◌&&◌, ◌||◌, List, [], ◌∷◌, if◌then◌else◌, same,
}
use zmk_usb_bridge.Prelude.Int.{ℤ, pos, negsuc}
use zmk_usb_bridge.Types.{Status, ok, invalid_state, is_ok, State, EventType}
use zmk_usb_bridge.World.{
  World, Platform, Op, ◌>>◌, give, effect, branch, log, invoke, Call, Pin, led_red, led_green,
  led_blue, recovery_button, Work, led_work, button_debounce_work, button_hold_work, reschedule,
  cancel, device_ready, pin_configure, interrupt_configure, add_callback, set_leds,
}
use zmk_usb_bridge.Queue.{post_simple_event, reset_fast_reconnect}

pub record LedColor : Type 0 where
  pub red : Bool
  pub green : Bool
  pub blue : Bool

pub record LedPattern : Type 0 where
  pub blinking : Bool
  pub on_ms : ℕ
  pub off_ms : ℕ
  pub color : LedColor

abbrev pub dark : LedColor
dark = record { red = false; green = false; blue = false }

abbrev steady : LedColor → LedPattern
steady color = record { blinking = false; on_ms = 0; off_ms = 0; color = color }

abbrev blink : ℕ → LedColor → LedPattern
blink ms color = record { blinking = true; on_ms = ms; off_ms = ms; color = color }

abbrev searching : LedPattern
searching = blink 500 (record { red = true; green = true; blue = false })

unfoldable pub pattern_for_state : State → LedPattern
pattern_for_state State.pairing_scan =
    blink 500 (record { red = false; green = false; blue = true })
pattern_for_state State.scanning_known_device = searching
pattern_for_state State.reconnecting_fast = searching
pattern_for_state State.reconnecting_backoff = searching
pattern_for_state State.connecting = searching
pattern_for_state State.connected = steady (record { red = false; green = true; blue = false })
pattern_for_state State.recovery_required =
    blink 900 (record { red = true; green = false; blue = false })
pattern_for_state State.bond_erasing =
    blink 150 (record { red = true; green = false; blue = false })
pattern_for_state State.fatal_error = steady (record { red = true; green = false; blue = false })
pattern_for_state State.boot = steady dark
pattern_for_state State.usb_ready = steady dark

abbrev pub show : LedColor → World → World
show color w = log (set_leds color.red color.green color.blue) w

abbrev pub set_phase : Bool → World → World
set_phase b w = record w { ui = record (w.ui) { blink_phase_on = b } }

unfoldable pub led_work_handler : World → World
unfolding pattern_for_state
led_work_handler w =
    let pattern = pattern_for_state w.ui.ui_state in
    if not pattern.blinking
    then show pattern.color (set_phase true w)
    else if w.ui.blink_phase_on
    then log (reschedule led_work pattern.off_ms) (set_phase false (show dark w))
    else log (reschedule led_work pattern.on_ms) (set_phase true (show pattern.color w))

unfoldable pub set_state : State → Op World
set_state state w =
    let changed = record w { ui = record (w.ui) { ui_state = state; blink_phase_on = false } } in
    (ok, led_work_handler (log (cancel led_work) changed))

unfoldable pub enable_inputs : Op World
enable_inputs w = (ok, record w { ui = record (w.ui) { input_events_enabled = true } })

-- `gpio_pin_get_dt(...) > 0`.
abbrev pub is_positive : ℤ → Bool
is_positive (pos zero) = false
is_positive (pos (suc n)) = true
is_positive (negsuc n) = false

abbrev pub recovery_button_is_pressed : Platform → World → Bool
recovery_button_is_pressed p w = is_positive (p.button_level w.calls)

unfoldable pub dispatch_short_press : Platform → World → World
dispatch_short_press p w = if w.ui.input_events_enabled then (reset_fast_reconnect p w).1 else w

unfoldable pub dispatch_long_press : Platform → World → World
dispatch_long_press p w =
    if w.ui.input_events_enabled then (post_simple_event p EventType.button_long_press w).1 else w

unfoldable pub button_hold_work_handler : Platform → World → World
button_hold_work_handler p w =
    if not w.ui.button_stable_pressed
      || w.ui.button_long_press_fired
      || not (recovery_button_is_pressed p w)
    then w
    else dispatch_long_press p (record w { ui = record (w.ui) { button_long_press_fired = true } })

unfoldable pub button_debounce_work_handler : Platform → World → World
button_debounce_work_handler p w =
    let pressed = recovery_button_is_pressed p w in
    let stable = record w { ui = record (w.ui) { button_stable_pressed = pressed } } in
    let released = log (cancel button_hold_work) stable in
    if same pressed w.ui.button_stable_pressed
    then w
    else if pressed
    then log (reschedule button_hold_work p.long_press_ms)
        (record stable { ui = record (stable.ui) { button_long_press_fired = false } })
    else if w.ui.button_long_press_fired
    then released
    else dispatch_short_press p released

unfoldable pub recovery_button_interrupt_handler : Platform → World → World
recovery_button_interrupt_handler p w = log (reschedule button_debounce_work p.debounce_ms) w

-- A test of a device, which answers 0 if it is not ready.
abbrev ready : Platform → Pin → Op World
ready p pin w =
    let (answer, after) = invoke p (device_ready pin) w in
    (if is_ok answer then invalid_state else ok, after)

unfoldable pub configure_recovery_button : Platform → Op World
configure_recovery_button p = do
  ready p recovery_button
  invoke p (pin_configure recovery_button)
  invoke p interrupt_configure
  invoke p add_callback
  effect (λ w. record w {
    ui = record (w.ui) {
      button_stable_pressed = recovery_button_is_pressed p w;
      button_long_press_fired = false;
    };
  })

unfoldable pub configure_led : Platform → Pin → Op World
configure_led p pin = do ready p pin; invoke p (pin_configure pin)

unfoldable pub init : Platform → Op World
init p = do
  configure_led p led_red
  configure_led p led_green
  configure_led p led_blue
  effect (λ w. record w {
    ui = record (w.ui) {
      ui_state = State.boot;
      blink_phase_on = true;
      input_events_enabled = false;
    };
  })
  effect (show dark)
  configure_recovery_button p
