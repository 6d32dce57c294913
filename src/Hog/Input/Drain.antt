-- ===== src/Hog/Input/Drain.antt =====
-- The loop of `hog_input_task` in main/src/hog_client.c, and the events it hands on.
use zmk_usb_bridge.Prelude.{
  ℕ, zero, suc, ◌≡◌, ◌≤◌, refl, inl, inr, true, false, List, [], ◌∷◌, ◌++◌, Option, none, some,
  arith, length, map, Bool-cases, ap, length-append,
}
use mathlib.Core.List.{foldl}
use zmk_usb_bridge.World.{World, Platform}
use zmk_usb_bridge.Hog.Mouse.{InputEvent, event_is_mouse_input, merge_contiguous_mouse_events}
use zmk_usb_bridge.Hog.Mouse.Merge.{
  take_mergeable, remaining, body_of, add_held, merge_contiguous_mouse_events_lem,
}
use zmk_usb_bridge.Hog.Input.{bridge_queued_input, input_turn, input_task}

-- The second list is the first with runs of mouse events merged: an event that carries no movement
-- stands alone, and a mouse event carries the movement of the events that it could take.
pub data Coalesced : List InputEvent → List InputEvent → Type 0 where
  done : Coalesced [] []
  alone :
      {e : InputEvent} {queue out : List InputEvent}
      → event_is_mouse_input e ≡ false
      → Coalesced queue out
      → Coalesced (e ∷ queue) (e ∷ out)
  merged :
      {e m : InputEvent} {queue rest out : List InputEvent}
      → event_is_mouse_input e ≡ true
      → take_mergeable e queue ++ rest ≡ queue
      → m.role ≡ e.role
      → m.payload_len ≡ e.payload_len
      → body_of m
        ≡ foldl (add_held e.payload_len) (body_of e) (map body_of (take_mergeable e queue))
      → Coalesced rest out
      → Coalesced (e ∷ queue) (m ∷ out)

-- The events are given to `bridge_queued_input` one after the other.
unfoldable pub bridge_all : Platform → List InputEvent → World → World
bridge_all p [] w = w
bridge_all p (e ∷ rest) w =
    bridge_all p rest (bridge_queued_input p e.role e.payload e.payload_len w).1

-- What the loop does with what is pending.
record Drained (p : Platform) (pending : List InputEvent) (w : World)
    (result : Option InputEvent × List InputEvent × World) : Type 0 where
  out : List InputEvent
  coalesced : Coalesced pending out
  ended : result ≡ (none, [], bridge_all p out w)

rest_shorter :
    (e : InputEvent) (queue rest : List InputEvent)
    → take_mergeable e queue ++ rest ≡ queue
    → length rest ≤ length queue
rest_shorter e queue rest h =
    omega (arith, ap length h, length-append (take_mergeable e queue) rest)

not_merged :
    (e : InputEvent) (queue : List InputEvent)
    → event_is_mouse_input e ≡ false
    → merge_contiguous_mouse_events e queue ≡ (e, none, queue)
unfolding merge_contiguous_mouse_events
not_merged e queue h = rw h

module _ (p : Platform) (fuel : ℕ) where
  -- What the loop does from a turn on.
  from_turn : InputEvent → List InputEvent → World → Option InputEvent × List InputEvent × World
  from_turn e queue w =
      let (deferred, rest, after) = input_turn p e queue w in input_task p fuel deferred rest after

  -- The fuel drains whatever is not longer than it.
  abbrev Drains : Type 0
  Drains =
      (deferred : Option InputEvent) (queue : List InputEvent) (w : World)
      → length (remaining deferred queue) ≤ fuel
      → Drained p (remaining deferred queue) w (input_task p fuel deferred queue w)

  alone_turn :
      (e : InputEvent) (queue : List InputEvent) (w : World)
      → Drains
      → length queue ≤ fuel
      → event_is_mouse_input e ≡ false
      → Drained p (e ∷ queue) w (from_turn e queue w)
  unfolding from_turn input_turn bridge_all remaining
  alone_turn e queue w ih enough h =
      let d = ih none queue (bridge_queued_input p e.role e.payload e.payload_len w).1 enough in
      rw (not_merged e queue h)
        (record { out = e ∷ d.out; coalesced = alone h d.coalesced; ended = d.ended })

  merged_turn :
      (e : InputEvent) (queue : List InputEvent) (w : World)
      → Drains
      → length queue ≤ fuel
      → event_is_mouse_input e ≡ true
      → Drained p (e ∷ queue) w (from_turn e queue w)
  unfolding from_turn input_turn bridge_all
  merged_turn e queue w ih enough h =
      let (m, deferred, rest) = merge_contiguous_mouse_events e queue in
      let (kept, role, len, body) = merge_contiguous_mouse_events_lem e queue h in
      let d =
        ih deferred rest (bridge_queued_input p m.role m.payload m.payload_len w).1
          (omega (arith, rest_shorter e queue (remaining deferred rest) kept, enough)) in
      record {
        out = m ∷ d.out;
        coalesced = merged h kept role len body d.coalesced;
        ended = d.ended;
      }

  turn :
      (e : InputEvent) (queue : List InputEvent) (w : World)
      → Drains
      → length queue ≤ fuel
      → Drained p (e ∷ queue) w (from_turn e queue w)
  turn e queue w ih enough = elim (Bool-cases (event_is_mouse_input e)) [
    | inl h ↦ merged_turn e queue w ih enough h
    | inr h ↦ alone_turn e queue w ih enough h
  ]

drained : (p : Platform) (fuel : ℕ) → Drains p fuel
unfolding input_task from_turn remaining bridge_all
drained p zero none [] w enough = record { out = []; coalesced = done; ended = refl }
drained p zero none (e ∷ queue) w enough = absurd (omega arith)
drained p zero (some e) queue w enough = absurd (omega arith)
drained p (suc fuel) none [] w enough = record { out = []; coalesced = done; ended = refl }
drained p (suc fuel) none (e ∷ queue) w enough =
    turn p fuel e queue w (drained p fuel) (omega arith)
drained p (suc fuel) (some e) queue w enough = turn p fuel e queue w (drained p fuel) (omega arith)

-- With as much fuel as events are pending, the one held back included, the loop ends with nothing
-- held back and an empty queue, having given to the bridge in order exactly the pending events with
-- their runs of mouse events merged: every other event as it is.
pub input_task-drains :
    (p : Platform) (fuel : ℕ) (deferred : Option InputEvent) (queue : List InputEvent) (w : World)
    → length (remaining deferred queue) ≤ fuel
    → (out : List InputEvent) × Coalesced (remaining deferred queue) out
      × (input_task p fuel deferred queue w ≡ (none, [], bridge_all p out w))
input_task-drains p fuel deferred queue w enough =
    let d = drained p fuel deferred queue w enough in (d.out, d.coalesced, d.ended)
