-- ===== src/Reconnect/Schedule.antt =====
-- The schedule of main/src/ble_reconnect.c, over runs of its operations and its timers.
use zmk_usb_bridge.Prelude.{
  ℕ, zero, suc, ◌<◌, ◌≡◌, refl, ◌⊎◌, inl, inr, Bool, true, false, List, [], ◌∷◌, Option, none, some,
  arith, if◌then◌else◌, leb, min,
}
use zmk_usb_bridge.Prelude.Int.{pos}
use zmk_usb_bridge.World.{
  World, ReconnectState, ReconnectMode, Call, attempt_work, reschedule, cancel, expired,
}
use zmk_usb_bridge.Reconnect.{
  is_idle, is_backoff, init, enter_fast_mode, enter_backoff_mode, reset_fast_reconnect,
  note_known_peer_seen, note_attempt_started, note_failure, note_connected, visibility_timer_fired,
  arm_attempt, should_attempt_now,
}

-- What can happen to the reconnect state after `init`.
pub data Action : Type 0 where
  enter_fast enter_backoff reset peer_seen attempt_started failure connected : Action
  visibility_expired attempt_expired : Action

unfoldable pub act : Action → World → World
act enter_fast w = (enter_fast_mode w).1
act enter_backoff w = (enter_backoff_mode w).1
act reset w = (reset_fast_reconnect w).1
act peer_seen w = (note_known_peer_seen w).1
act attempt_started w = (note_attempt_started w).1
act failure w = (note_failure w).1
act connected w = (note_connected w).1
act visibility_expired w = visibility_timer_fired w
act attempt_expired w = arm_attempt w

unfoldable pub act_all : List Action → World → World
act_all [] w = w
act_all (a ∷ as_) w = act_all as_ (act a w)

-- The bounds on the state: the index stays in `g_fast_delay_ms`, and the backoff delay is 5 s or
-- 10 s, 5 s outside backoff.
pub record IsValid (r : ReconnectState) : Type 0 where
  pub index_in : r.fast_attempt_index < 4
  pub delay_known : (r.backoff_delay_ms ≡ pos 5000) ⊎ (r.backoff_delay_ms ≡ pos 10000)
  pub delay_fresh : (is_backoff r.mode ≡ true) ⊎ (r.backoff_delay_ms ≡ pos 5000)
  pub idle_fresh : (is_idle r.mode ≡ false) ⊎ (r.fast_attempt_index ≡ 0)

pub act-IsValid : (a : Action) (w : World) → IsValid w.reconnect → IsValid (act a w).reconnect
unfolding act enter_fast_mode enter_backoff_mode reset_fast_reconnect note_known_peer_seen
    note_attempt_started note_failure note_connected visibility_timer_fired arm_attempt
act-IsValid enter_fast w v = ground arith
act-IsValid _ w v = ground arith

pub act_all-IsValid :
    (actions : List Action) (w : World)
    → IsValid w.reconnect
    → IsValid (act_all actions w).reconnect
unfolding act_all
act_all-IsValid [] w v = v
act_all-IsValid (a ∷ rest) w v = act_all-IsValid rest (act a w) (act-IsValid a w v)

-- After `init` and any sequence of operations, timer events included, the attempt index is inside
-- `g_fast_delay_ms`, the backoff delay is 5 s or 10 s, it is 5 s outside backoff mode, and the
-- index is 0 in idle mode.
pub run-IsValid :
    (actions : List Action) (w : World) → IsValid (act_all actions (init w).1).reconnect
unfolding init
run-IsValid actions w = act_all-IsValid actions (init w).1 (record {
  index_in = omega arith;
  delay_known = inl refl;
  delay_fresh = inr refl;
  idle_fresh = inr refl;
})

-- What a call asks of the attempt timer: to run, or to stop.
abbrev attempt_request : Call → Option Bool
attempt_request (reschedule attempt_work delay) = some true
attempt_request (cancel attempt_work) = some false
attempt_request (expired attempt_work) = some false
attempt_request _ = none

-- The last request to the attempt timer was to run it.
abbrev pub is_scheduled : List Call → Bool
is_scheduled [] = false
is_scheduled (c ∷ calls) =
    let before = is_scheduled calls in elim (attempt_request c) [ none ↦ before | some b ↦ b ]

-- An attempt may start at the next sighting, or will be allowed when the timer fires.
abbrev pub HasRetry : World → Type 0
HasRetry w = (w.reconnect.attempt_armed ≡ true) ⊎ (is_scheduled w.calls ≡ true)

-- The operations after which the code counts on another attempt.
abbrev pub plans_retry : Action → Bool
plans_retry enter_backoff = true
plans_retry reset = true
plans_retry failure = true
plans_retry _ = false

-- The operations that end an attempt or give it up.
abbrev pub drops_retry : Action → Bool
drops_retry attempt_started = true
drops_retry connected = true
drops_retry visibility_expired = true
drops_retry _ = false

-- A failure, a reset and the entry into backoff leave the next attempt armed or its timer running,
-- from every state; and no other operation loses that, but the start of an attempt, a connection
-- and the visibility timeout.
pub HasRetry-act :
    (a : Action) (w : World)
    → (plans_retry a ≡ true) ⊎ ((drops_retry a ≡ false) × HasRetry w)
    → HasRetry (act a w)
unfolding act enter_fast_mode enter_backoff_mode reset_fast_reconnect note_known_peer_seen
    note_attempt_started note_failure note_connected visibility_timer_fired arm_attempt
HasRetry-act enter_fast w h = ground arith
HasRetry-act _ w h = ground arith

-- The delay that the n-th failure in a row asks for, as the documentation tabulates it.
abbrev pub delay_after : ℕ → ℕ
delay_after zero = 0
delay_after (suc zero) = 500
delay_after (suc (suc zero)) = 1000
delay_after (suc (suc (suc zero))) = 2000
delay_after (suc (suc (suc (suc zero)))) = 5000
delay_after (suc (suc (suc (suc (suc n))))) = 10000

abbrev pub mode_after : ℕ → ReconnectMode
mode_after n = if leb n 3 then ReconnectMode.fast else ReconnectMode.backoff

-- `n` failures in a row.
abbrev pub fail_times : ℕ → World → World
fail_times zero w = w
fail_times (suc n) w = (note_failure (fail_times n w)).1

-- The state and the last timer request after `n` failures from a fresh fast schedule.
record Failed (n : ℕ) (w : World) : Type 0 where
  mode : w.reconnect.mode ≡ mode_after n
  index : w.reconnect.fast_attempt_index ≡ min n 3
  delay : w.reconnect.backoff_delay_ms ≡ (if leb n 4 then pos 5000 else pos 10000)

step-Failed : (n : ℕ) (w : World) → Failed n w → Failed (suc n) (note_failure w).1
unfolding note_failure
step-Failed n w f = ground arith

abbrev pub last_call : List Call → Option Call
last_call [] = none
last_call (c ∷ calls) = some c

step-delay :
    (n : ℕ) (w : World)
    → Failed n w
    → last_call (note_failure w).1.calls ≡ some (reschedule attempt_work (delay_after (suc n)))
unfolding note_failure
step-delay n w f = ground arith

fail_times-Failed : (n : ℕ) (w : World) → Failed 0 w → Failed n (fail_times n w)
fail_times-Failed zero w f = f
fail_times-Failed (suc n) w f = step-Failed n (fail_times n w) (fail_times-Failed n w f)

-- From a fresh fast schedule, the n-th failure in a row reschedules the attempt timer by 0.5 s,
-- 1 s, 2 s, then 5 s, then 10 s for ever, and the mode is fast for three failures and backoff from
-- the fourth on.
pub failure_schedule :
    (n : ℕ) (w : World)
    → w.reconnect.mode ≡ ReconnectMode.fast
    → w.reconnect.fast_attempt_index ≡ 0
    → w.reconnect.backoff_delay_ms ≡ pos 5000
    → let after = fail_times (suc n) w in
      (last_call after.calls ≡ some (reschedule attempt_work (delay_after (suc n))))
      × (after.reconnect.mode ≡ mode_after (suc n))
failure_schedule n w m i d =
    let start : Failed 0 w = record { mode = m; index = i; delay = d } in
    (
      step-delay n (fail_times n w) (fail_times-Failed n w start),
      (fail_times-Failed (suc n) w start).mode,
    )

-- A peer that was not visible gets no attempt when it is seen, whatever the mode was, until the
-- attempt timer, which is set to 750 ms after the visibility timer, has fired.
pub fresh_sighting_settles :
    (w : World)
    → w.reconnect.peer_visible ≡ false
    → let seen = act peer_seen w in
      (should_attempt_now seen ≡ false)
      × (last_call seen.calls ≡ some (reschedule attempt_work 750))
      × (should_attempt_now (act attempt_expired seen) ≡ true)
unfolding act note_known_peer_seen should_attempt_now arm_attempt
fresh_sighting_settles w h = ground arith
