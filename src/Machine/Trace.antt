-- ===== src/Machine/Trace.antt =====
-- Runs of the event thread over main/src/state_machine.c.
use zmk_usb_bridge.Prelude.{
  ◌≡◌, ◌≢◌, refl, ◌⊎◌, inl, inr, Bool, true, false, List, [], ◌∷◌, some, arith,
}
use zmk_usb_bridge.Types.{State, EventType, Event}
use zmk_usb_bridge.Machine.{Services, Sys, handle_event}
use zmk_usb_bridge.Machine.Graph.{
  Edge, stay, power, start, open_gate, found, lose, hid_fail, connect, reset, mismatch, fault,
  erase, erased, handle_event-Edge,
}

fatal-Edge :
    {e : EventType} {s t : State} → Edge e s t → t ≡ State.fatal_error → s ≡ State.fatal_error
fatal-Edge stay h = h
fatal-Edge (power g) h = cc
fatal-Edge (start g i) h = ground arith
fatal-Edge (open_gate g i) h = ground arith
fatal-Edge (found g) h = cc
fatal-Edge (lose l r i) h = ground arith
fatal-Edge (hid_fail i) h = ground arith
fatal-Edge connect h = cc
fatal-Edge reset h = cc
fatal-Edge mismatch h = cc
fatal-Edge (fault i) h = ground arith
fatal-Edge erase h = cc
fatal-Edge erased h = cc

connected-Edge :
    {e : EventType} {s t : State}
    → Edge e s t
    → t ≡ State.connected
    → (s ≡ State.connected) ⊎ (e ≡ EventType.hid_ready)
connected-Edge stay h = inl h
connected-Edge (power g) h = cc
connected-Edge (start g i) h = ground arith
connected-Edge (open_gate g i) h = ground arith
connected-Edge (found g) h = cc
connected-Edge (lose l r i) h = ground arith
connected-Edge (hid_fail i) h = ground arith
connected-Edge connect h = inr refl
connected-Edge reset h = cc
connected-Edge mismatch h = cc
connected-Edge (fault i) h = ground arith
connected-Edge erase h = cc
connected-Edge erased h = cc

-- The events that can end the state `recovery_required`.
abbrev pub ends_recovery : EventType → Bool
ends_recovery EventType.known_device_found = true
ends_recovery EventType.pairing_candidate_found = true
ends_recovery EventType.connect_success = true
ends_recovery EventType.hid_ready = true
ends_recovery EventType.hid_failure = true
ends_recovery EventType.host_reset = true
ends_recovery EventType.metadata_fault = true
ends_recovery EventType.button_long_press = true
ends_recovery EventType.bond_erase_complete = true
ends_recovery _ = false

recovery-Edge :
    {e : EventType} {s t : State}
    → Edge e s t
    → s ≡ State.recovery_required
    → ends_recovery e ≡ false
    → t ≡ State.recovery_required
recovery-Edge stay h n = h
recovery-Edge (power g) h n = cc
recovery-Edge (start g i) h n = cc
recovery-Edge (open_gate g i) h n = cc
recovery-Edge (found g) h n = ground arith
recovery-Edge (lose l r i) h n = ground arith
recovery-Edge (hid_fail i) h n = cc
recovery-Edge connect h n = cc
recovery-Edge reset h n = cc
recovery-Edge mismatch h n = refl
recovery-Edge (fault i) h n = cc
recovery-Edge erase h n = cc
recovery-Edge erased h n = cc

-- Some event of the list is of the type.
pub data Occurs (e : EventType) : List Event → Type 0 where
  now : (event : Event) (rest : List Event) → event.type ≡ e → Occurs e (event ∷ rest)
  later : (event : Event) (rest : List Event) → Occurs e rest → Occurs e (event ∷ rest)

abbrev pub NoneEndsRecovery : List Event → Type 0
NoneEndsRecovery [] = Unit
NoneEndsRecovery (event ∷ rest) = (ends_recovery event.type ≡ false) × NoneEndsRecovery rest

State-discrete : Discrete State
State-discrete = hlevel

module _ {W : Type 0} (svc : Services W) where
  -- The event thread: the events in the order of the queue.
  unfoldable pub run : List Event → Sys W → Sys W
  run [] s = s
  run (event ∷ rest) s = run rest (handle_event svc (some event) s).1

  -- No run of events, with any services, enters the fatal state, which the code only displays.
  pub never_fatal :
      (events : List Event) (s : Sys W)
      → s.machine.state ≢ State.fatal_error
      → (run events s).machine.state ≢ State.fatal_error
  unfolding run
  never_fatal [] s h = h
  never_fatal (event ∷ rest) s h =
      never_fatal rest (handle_event svc (some event) s).1
        (λ e. h (fatal-Edge (handle_event-Edge svc event s) e))

  -- The machine is not connected after a run unless it was before, or the run has a `HID_READY`.
  pub connected_needs_hid_ready :
      (events : List Event) (s : Sys W)
      → s.machine.state ≢ State.connected
      → (run events s).machine.state ≡ State.connected
      → Occurs EventType.hid_ready events
  unfolding run
  connected_needs_hid_ready [] s h c = absurd (h c)
  connected_needs_hid_ready (event ∷ rest) s h c =
      let next = (handle_event svc (some event) s).1 in
      elim (State-discrete next.machine.state State.connected) [
        | yes e ↦ elim (connected-Edge (handle_event-Edge svc event s) e) [
          | inl before ↦ absurd (h before)
          | inr ready ↦ now event rest ready
        ]
        | no ne ↦ later event rest (connected_needs_hid_ready rest next ne c)
      ]

  -- A machine that requires recovery stays so through every run of connect failures,
  -- disconnections, mismatches, short presses, readiness events and the other events that are not
  -- named in `ends_recovery`.
  pub recovery_stays :
      (events : List Event) (s : Sys W)
      → s.machine.state ≡ State.recovery_required
      → NoneEndsRecovery events
      → (run events s).machine.state ≡ State.recovery_required
  unfolding run
  recovery_stays [] s h n = h
  recovery_stays (event ∷ rest) s h n =
      recovery_stays rest (handle_event svc (some event) s).1
        (recovery-Edge (handle_event-Edge svc event s) h n.0) n.1
