-- ===== src/Hog/Mouse/Merge.antt =====
-- The merging of movements in main/src/hog_client.c, as a sum over the queue.
use zmk_usb_bridge.Prelude.{
  ℕ, ◌≡◌, refl, inl, inr, true, List, [], ◌∷◌, ◌++◌, Option, none, some, sym, arith, ◌==◌,
  if◌then◌else◌, get_or, map, ap, ◌∙◌, Bool-cases,
}
use mathlib.Core.List.{foldl}
use zmk_usb_bridge.Types.{MouseBody}
use zmk_usb_bridge.Bridge.{IsMouse}
use zmk_usb_bridge.Hog.Mouse.{
  InputEvent, compact_len, extended_len, compact_body, extended_body, compact_bytes, extended_bytes,
  decode_mouse_payload, encode_mouse_payload, add_mouse, event_is_mouse_input,
  mouse_events_can_merge, accumulate_mouse_event, merge_loop, merge_contiguous_mouse_events,
}
use zmk_usb_bridge.Hog.Mouse.Codec.{
  held, saturate_word-IsI16, supported_cases, decode-compact, decode-extended,
}

-- The movement of an event of a supported length.
unfoldable pub body_of : InputEvent → MouseBody
body_of e = if e.payload_len == compact_len then compact_body e.payload else extended_body e.payload

add_mouse-IsMouse : (a b : MouseBody) → IsMouse (add_mouse a b)
unfolding add_mouse
add_mouse-IsMouse a b = record {
  dx = saturate_word-IsI16 _;
  dy = saturate_word-IsI16 _;
  scroll_y = saturate_word-IsI16 _;
  scroll_x = saturate_word-IsI16 _;
}

-- The movement of two events in one, in the layout of the given length.
pub add_held : ℕ → MouseBody → MouseBody → MouseBody
add_held len a b = held len (add_mouse a b)

-- What `accumulate_mouse_event` does to an event that can take the next one.
record Accumulated (e next after : InputEvent) : Type 0 where
  role : after.role ≡ e.role
  len : after.payload_len ≡ e.payload_len
  buttons : get_or after.payload 0 0 ≡ get_or e.payload 0 0
  body : body_of after ≡ add_held e.payload_len (body_of e) (body_of next)

same_length :
    (e next : InputEvent) → mouse_events_can_merge e next ≡ true → next.payload_len ≡ e.payload_len
unfolding mouse_events_can_merge
same_length e next h = ground arith

accumulate_compact :
    (e next : InputEvent)
    → mouse_events_can_merge e next ≡ true
    → e.payload_len ≡ compact_len
    → accumulate_mouse_event e next
      ≡ record e { payload = compact_bytes (add_mouse (body_of e) (body_of next)) }
unfolding accumulate_mouse_event decode_mouse_payload encode_mouse_payload body_of
accumulate_compact e next h l = rw (h, same_length e next h, l) refl

accumulate_extended :
    (e next : InputEvent)
    → mouse_events_can_merge e next ≡ true
    → e.payload_len ≡ extended_len
    → accumulate_mouse_event e next
      ≡ record e { payload = extended_bytes (add_mouse (body_of e) (body_of next)) }
unfolding accumulate_mouse_event decode_mouse_payload encode_mouse_payload body_of
accumulate_extended e next h l = rw (h, same_length e next h, l) refl

body_of-compact :
    (e : InputEvent) (m : MouseBody)
    → e.payload_len ≡ compact_len
    → body_of (record e { payload = compact_bytes m }) ≡ held e.payload_len m
unfolding body_of
body_of-compact e m l = rw l (decode-compact m)

body_of-extended :
    (e : InputEvent) (m : MouseBody)
    → IsMouse m
    → e.payload_len ≡ extended_len
    → body_of (record e { payload = extended_bytes m }) ≡ held e.payload_len m
unfolding body_of
body_of-extended e m valid l = rw l (decode-extended m valid)

body_of-buttons : (e : InputEvent) → (body_of e).buttons ≡ get_or e.payload 0 0
unfolding body_of compact_body extended_body
body_of-buttons e = elim (Bool-cases (e.payload_len == compact_len)) [
  | inl c ↦ rw c refl
  | inr c ↦ rw c refl
]

accumulate-Accumulated :
    (e next : InputEvent)
    → mouse_events_can_merge e next ≡ true
    → Accumulated e next (accumulate_mouse_event e next)
unfolding mouse_events_can_merge add_held add_mouse compact_bytes extended_bytes
accumulate-Accumulated e next h = elim (supported_cases e.payload_len (ground arith)) [
  | inl l ↦ rw (accumulate_compact e next h l) (record {
    role = refl;
    len = refl;
    buttons = body_of-buttons e;
    body = body_of-compact e (add_mouse (body_of e) (body_of next)) l;
  })
  | inr l ↦ rw (accumulate_extended e next h l) (record {
    role = refl;
    len = refl;
    buttons = body_of-buttons e;
    body = body_of-extended e _ (add_mouse-IsMouse (body_of e) (body_of next)) l;
  })
]

-- The events of the queue that are merged into one: those in front of the first that cannot be.
unfoldable pub take_mergeable : InputEvent → List InputEvent → List InputEvent
take_mergeable e [] = []
take_mergeable e (next ∷ queue) =
    let rest = take_mergeable e queue in if mouse_events_can_merge e next then next ∷ rest else []

-- What is held back as the first event that cannot be merged, and then what is left in the queue.
unfoldable pub remaining : Option InputEvent → List InputEvent → List InputEvent
remaining none queue = queue
remaining (some deferred) queue = deferred ∷ queue

-- Whether an event can be merged depends on what merging keeps.
can_merge_after :
    (e next after other : InputEvent)
    → Accumulated e next after
    → mouse_events_can_merge after other ≡ mouse_events_can_merge e other
unfolding mouse_events_can_merge event_is_mouse_input
can_merge_after e next after other a = rw (a.role, a.len, a.buttons) refl

take_after :
    (e next after : InputEvent) (queue : List InputEvent)
    → Accumulated e next after
    → take_mergeable after queue ≡ take_mergeable e queue
unfolding take_mergeable
take_after e next after [] a = refl
take_after e next after (other ∷ queue) a =
    rw (can_merge_after e next after other a, take_after e next after queue a) refl

-- What the merging of a mouse event with the queue promises.
record Merged (e : InputEvent) (queue : List InputEvent)
    (result : InputEvent × Option InputEvent × List InputEvent) : Type 0 where
  kept : take_mergeable e queue ++ remaining result.1 result.2 ≡ queue
  role : result.0.role ≡ e.role
  len : result.0.payload_len ≡ e.payload_len
  body :
      body_of result.0
      ≡ foldl (add_held e.payload_len) (body_of e) (map body_of (take_mergeable e queue))

take_mergeable-cons :
    (e next : InputEvent) (queue : List InputEvent)
    → mouse_events_can_merge e next ≡ true
    → take_mergeable e (next ∷ queue) ≡ next ∷ take_mergeable e queue
unfolding take_mergeable
take_mergeable-cons e next queue h = rw h refl

Merged-step :
    (e next after : InputEvent) (queue : List InputEvent)
    (result : InputEvent × Option InputEvent × List InputEvent)
    → mouse_events_can_merge e next ≡ true
    → Accumulated e next after
    → Merged after queue result
    → Merged e (next ∷ queue) result
Merged-step e next after queue result h a m = record {
  kept =
      rw (take_mergeable-cons e next queue h, sym (take_after e next after queue a))
        (ap (λ l. next ∷ l) m.kept);
  role = m.role ∙ a.role;
  len = m.len ∙ a.len;
  body =
      m.body
      ∙ rw (take_after e next after queue a, a.body, a.len, take_mergeable-cons e next queue h)
          refl;
}

merge_loop-Merged : (e : InputEvent) (queue : List InputEvent) → Merged e queue (merge_loop e queue)
unfolding merge_loop take_mergeable remaining
merge_loop-Merged e [] = record { kept = refl; role = refl; len = refl; body = refl }
merge_loop-Merged e (next ∷ queue) = elim (Bool-cases (mouse_events_can_merge e next)) [
  | inl h ↦ rw h (
      Merged-step e next (accumulate_mouse_event e next) queue _ h (accumulate-Accumulated e next h)
        (merge_loop-Merged (accumulate_mouse_event e next) queue))
  | inr h ↦ rw h (record { kept = rw h refl; role = refl; len = refl; body = rw h refl })
]

-- Merging a mouse event with the queue takes from it the events in front of the first that cannot be
-- merged, holds that one back, and leaves the rest in order; the event keeps its role and its length,
-- and its movement is the sum, saturated after each step, of its own and the taken ones.
pub merge_contiguous_mouse_events_lem :
    (e : InputEvent) (queue : List InputEvent)
    → event_is_mouse_input e ≡ true
    → let (merged, deferred, rest) = merge_contiguous_mouse_events e queue in
      let taken = take_mergeable e queue in
      (taken ++ remaining deferred rest ≡ queue)
      × (merged.role ≡ e.role)
      × (merged.payload_len ≡ e.payload_len)
      × (body_of merged ≡ foldl (add_held e.payload_len) (body_of e) (map body_of taken))
unfolding merge_contiguous_mouse_events
merge_contiguous_mouse_events_lem e queue h =
    let m = merge_loop-Merged e queue in rw h (m.kept, m.role, m.len, m.body)
