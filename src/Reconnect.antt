-- ===== src/Reconnect.antt =====
-- main/src/ble_reconnect.c: when the next attempt to connect to the known peer may start. The
-- attempt timer is in `Attempt` of the scan, which its handler calls.
pub mod Schedule
use zmk_usb_bridge.Prelude.{
  ℕ, zero, suc, ◌+◌, Bool, true, false, not, ◌&&◌, ◌||◌, List, [], ◌∷◌, ltb, if◌then◌else◌, get_or,
}
use zmk_usb_bridge.Prelude.Int.{ℤ, pos, negsuc, pos_part, ltb_ℤ}
use zmk_usb_bridge.Types.{Status, ok}
use zmk_usb_bridge.World.{
  World, ReconnectState, ReconnectMode, Op, Work, attempt_work, visibility_work, reschedule, cancel,
  log,
}

-- `ZMK_USB_BRIDGE_FAST_ATTEMPT_COUNT` and `g_fast_delay_ms`.
abbrev pub fast_attempt_count : ℕ
fast_attempt_count = 4

abbrev pub fast_delays : List ℕ
fast_delays = 0 ∷ 500 ∷ 1000 ∷ 2000 ∷ []

abbrev pub settle_ms : ℕ
settle_ms = 750

abbrev pub first_backoff : ℤ
first_backoff = pos 5000

abbrev pub backoff_cap : ℤ
backoff_cap = pos 10000

-- `delay_ms <= 0`.
abbrev pub not_positive : ℤ → Bool
not_positive (pos zero) = true
not_positive (pos (suc n)) = false
not_positive (negsuc n) = true

abbrev pub is_idle : ReconnectMode → Bool
is_idle ReconnectMode.idle = true
is_idle ReconnectMode.fast = false
is_idle ReconnectMode.backoff = false

abbrev pub is_fast : ReconnectMode → Bool
is_fast ReconnectMode.idle = false
is_fast ReconnectMode.fast = true
is_fast ReconnectMode.backoff = false

abbrev pub is_backoff : ReconnectMode → Bool
is_backoff ReconnectMode.idle = false
is_backoff ReconnectMode.fast = false
is_backoff ReconnectMode.backoff = true

-- `visibility_timer_fired`.
unfoldable pub visibility_timer_fired : World → World
visibility_timer_fired w =
    log (cancel attempt_work) (record w {
      reconnect = record (w.reconnect) { peer_visible = false; attempt_armed = false };
    })

unfoldable pub schedule_attempt_in : ℤ → World → World
schedule_attempt_in delay w =
    if not_positive delay
    then log (cancel attempt_work)
        (record w { reconnect = record (w.reconnect) { attempt_armed = true } })
    else log (reschedule attempt_work (pos_part delay))
        (record w { reconnect = record (w.reconnect) { attempt_armed = false } })

unfoldable pub arm_visibility_timeout : World → World
arm_visibility_timeout w = log (reschedule visibility_work 2000) w

unfoldable pub init : Op World
init w = (
  ok,
  record w {
    reconnect = record {
      mode = ReconnectMode.idle;
      peer_visible = false;
      attempt_armed = false;
      fast_attempt_index = 0;
      backoff_delay_ms = first_backoff;
    };
  },
)

-- The assignments that start the fast schedule anew.
abbrev pub restart_fast : World → World
restart_fast w = record w {
  reconnect = record (w.reconnect) {
    mode = ReconnectMode.fast;
    fast_attempt_index = 0;
    backoff_delay_ms = first_backoff;
  };
}

unfoldable pub enter_fast_mode : Op World
unfolding schedule_attempt_in
enter_fast_mode w =
    if is_fast w.reconnect.mode then (ok, w) else (ok, schedule_attempt_in (pos 0) (restart_fast w))

unfoldable pub enter_backoff_mode : Op World
unfolding schedule_attempt_in
enter_backoff_mode w =
    let delay =
      if not_positive w.reconnect.backoff_delay_ms
      then first_backoff
      else w.reconnect.backoff_delay_ms in
    (
      ok,
      schedule_attempt_in delay (record w {
        reconnect = record (w.reconnect) { mode = ReconnectMode.backoff; backoff_delay_ms = delay };
      }),
    )

unfoldable pub reset_fast_reconnect : Op World
unfolding schedule_attempt_in
reset_fast_reconnect w =
    let fresh = restart_fast w in
    (
      ok,
      schedule_attempt_in (pos 0)
          (record fresh { reconnect = record (fresh.reconnect) { peer_visible = false } }),
    )

unfoldable pub note_known_peer_seen : Op World
unfolding schedule_attempt_in arm_visibility_timeout
note_known_peer_seen w =
    let seen =
      arm_visibility_timeout
        (record w { reconnect = record (w.reconnect) { peer_visible = true } }) in
    if w.reconnect.peer_visible
    then (ok, seen)
    else (ok, schedule_attempt_in (pos settle_ms) (restart_fast seen))

unfoldable pub note_attempt_started : Op World
note_attempt_started w = (
  ok,
  log (cancel attempt_work)
      (record w { reconnect = record (w.reconnect) { attempt_armed = false } }),
)

-- A failure in fast mode. `fast_attempt_index` is a byte.
fast_failure : World → World
unfolding schedule_attempt_in
fast_failure w =
    let next = (w.reconnect.fast_attempt_index + 1) in
    if ltb next fast_attempt_count
    then schedule_attempt_in (pos (get_or fast_delays next 0)) (record w {
      reconnect = record (w.reconnect) { mode = ReconnectMode.fast; fast_attempt_index = next };
    })
    else schedule_attempt_in first_backoff (record w {
      reconnect = record (w.reconnect) {
        mode = ReconnectMode.backoff;
        backoff_delay_ms = first_backoff;
      };
    })

-- The delay after a failure in backoff mode.
next_backoff : ℤ → ℤ
next_backoff delay =
    if not_positive delay
    then first_backoff
    else if ltb_ℤ delay backoff_cap
    then backoff_cap
    else delay

unfoldable pub note_failure : Op World
unfolding fast_failure next_backoff schedule_attempt_in
note_failure w =
    let delay = next_backoff w.reconnect.backoff_delay_ms in
    if is_backoff w.reconnect.mode
    then (
      ok,
      schedule_attempt_in delay
          (record w { reconnect = record (w.reconnect) { backoff_delay_ms = delay } }),
    )
    else (ok, fast_failure w)

unfoldable pub note_connected : Op World
note_connected w = (
  ok,
  log (cancel visibility_work) (
      log (cancel attempt_work) (record w {
        reconnect = record {
          mode = ReconnectMode.idle;
          peer_visible = true;
          attempt_armed = false;
          fast_attempt_index = 0;
          backoff_delay_ms = first_backoff;
        };
      })),
)

unfoldable pub should_attempt_now : World → Bool
should_attempt_now w =
    w.reconnect.peer_visible && (is_idle w.reconnect.mode || w.reconnect.attempt_armed)

unfoldable pub is_in_backoff_mode : World → Bool
is_in_backoff_mode w = is_backoff w.reconnect.mode

-- The first statement of `attempt_timer_fired`.
unfoldable pub arm_attempt : World → World
arm_attempt w = record w { reconnect = record (w.reconnect) { attempt_armed = true } }
