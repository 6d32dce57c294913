-- ===== src/Ui/Button.antt =====
-- The presses of the recovery button in main/src/recovery_ui.c, whatever the levels of its pin and
-- the order in which its two timers fire.
use zmk_usb_bridge.Prelude.{ℕ, ◌+◌, ◌≡◌, Bool, true, false, not, ◌&&◌, List, [], ◌∷◌, arith}
use zmk_usb_bridge.Types.{EventType}
use zmk_usb_bridge.World.{
  World, Platform, Call, button_debounce_work, button_hold_work, reschedule, event_put, expired,
  log,
}
use zmk_usb_bridge.Queue.{post_simple_event, post_event, make_event}
use zmk_usb_bridge.Queue
use zmk_usb_bridge.Reconnect
use zmk_usb_bridge.Ui.{
  button_hold_work_handler, button_debounce_work_handler, recovery_button_interrupt_handler,
  dispatch_short_press, dispatch_long_press,
}

-- What can happen to the button: an edge of its pin, or one of its timers.
pub data Happening : Type 0 where
  edge debounced held : Happening

unfoldable pub happen : Platform → Happening → World → World
happen p edge w = recovery_button_interrupt_handler p w
happen p debounced w = button_debounce_work_handler p (log (expired button_debounce_work) w)
happen p held w = button_hold_work_handler p (log (expired button_hold_work) w)

unfoldable pub happen_all : Platform → List Happening → World → World
happen_all p [] w = w
happen_all p (h ∷ rest) w = happen_all p rest (happen p h w)

-- A debounced press starts the hold timer.
abbrev starts_press : Call → Bool
starts_press (reschedule button_hold_work ms) = true
starts_press _ = false

abbrev is_button : EventType → Bool
is_button EventType.button_short_press = true
is_button EventType.button_long_press = true
is_button _ = false

abbrev is_button_event : Call → Bool
is_button_event (event_put event) = is_button event.type
is_button_event _ = false

abbrev count_of : Bool → ℕ
count_of true = 1
count_of false = 0

unfoldable pub presses : List Call → ℕ
presses [] = 0
presses (c ∷ calls) = count_of (starts_press c) + presses calls

unfoldable pub button_events : List Call → ℕ
button_events [] = 0
button_events (c ∷ calls) = count_of (is_button_event c) + button_events calls

-- A press that has not yet made an event.
unfoldable pub owed_events : World → ℕ
owed_events w = count_of (w.ui.button_stable_pressed && not w.ui.button_long_press_fired)

-- Inputs are enabled, and the event thread takes events.
abbrev pub CanReport : World → Type 0
CanReport w = (w.ui.input_events_enabled ≡ true) × (w.event_thread_started ≡ true)

record Keeps (w after : World) : Type 0 where
  reporting : CanReport after
  balance :
      button_events after.calls + owed_events after + presses w.calls
      ≡ presses after.calls + button_events w.calls + owed_events w

happen-Keeps : (p : Platform) (h : Happening) (w : World) → CanReport w → Keeps w (happen p h w)
unfolding happen presses button_events owed_events recovery_button_interrupt_handler
    button_debounce_work_handler button_hold_work_handler dispatch_short_press dispatch_long_press
    Queue.reset_fast_reconnect post_simple_event post_event make_event
    Reconnect.reset_fast_reconnect Reconnect.schedule_attempt_in
happen-Keeps p edge w c = ground arith
happen-Keeps p debounced w c = ground arith
happen-Keeps p held w c = ground arith

happen_all-Keeps :
    (p : Platform) (happenings : List Happening) (w : World)
    → CanReport w
    → Keeps w (happen_all p happenings w)
unfolding happen_all
happen_all-Keeps p [] w c = record { reporting = c; balance = omega arith }
happen_all-Keeps p (h ∷ rest) w c =
    let first = happen-Keeps p h w c in
    let later = happen_all-Keeps p rest (happen p h w) first.reporting in
    record { reporting = later.reporting; balance = omega (arith, first.balance, later.balance) }

-- While inputs are enabled and the event thread takes events, every debounced press gives one button
-- event to the queue, short or long, and never both: whatever edges, bounces and timer runs happen
-- at whatever levels of the pin, the presses of the run, and the one that was under way with no event
-- yet, are as many as its events, and the one that is under way now.
pub one_event_per_press :
    (p : Platform) (happenings : List Happening) (w : World)
    → CanReport w
    → let after = happen_all p happenings w in
      button_events after.calls + owed_events after + presses w.calls
      ≡ presses after.calls + button_events w.calls + owed_events w
one_event_per_press p happenings w c = (happen_all-Keeps p happenings w c).balance
