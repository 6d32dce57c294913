-- ===== src/Bridge/Gate.antt =====
-- Which input main/src/bridge.c lets through to the host, and what the host then receives.
use zmk_usb_bridge.Prelude.{
  ℕ, ◌≡◌, ◌≢◌, refl, sym, Bool, true, false, List, [], ◌∷◌, Option, none, some, arith,
  if◌then◌else◌, length, ◌<◌, ap, ◌&&◌,
}
use zmk_usb_bridge.Types.{ok, size_mismatch, is_ok, Role, MouseBody}
use zmk_usb_bridge.World.{World, Platform}
use zmk_usb_bridge.Usb
use zmk_usb_bridge.Usb.{set_pending, mouse_report}
use zmk_usb_bridge.Usb.Release.{
  flush_frame, written, releases, Input, report, send, releases_before_input,
}
use zmk_usb_bridge.Usb.Interrupted
use zmk_usb_bridge.Usb.Interrupted.{no_gaps, no_flush_gaps, flush-no_gaps}
use zmk_usb_bridge.Usb.Interrupted.Quiet.{IsQuiet}
use zmk_usb_bridge.Usb.Owed.{IsOwed, release_never_lost, act_all}
use zmk_usb_bridge.Bridge.{
  empty_keyboard, empty_consumer, empty_mouse, release_all, handle_input, keyboard_of_bytes,
  consumer_of_bytes, reset_state_locked, set_active, mouse_size, bytes_of_mouse,
  mouse_of_bytes-bytes_of_mouse, IsMouse,
}

-- An input report that arrives from the keyboard: its role, its bytes and their number.
pub record Report : Type 0 where
  pub role : Role
  pub payload : Option (List ℕ)
  pub len : ℕ

unfoldable pub handle_all : Platform → List Report → World → World
handle_all p [] w = w
handle_all p (r ∷ rest) w = handle_all p rest (handle_input p r.role r.payload r.len w).1

closed_gate :
    (p : Platform) (role : Role) (payload : Option (List ℕ)) (len : ℕ) (w : World)
    → w.bridge.input_active ≡ false
    → (handle_input p role payload len w).1 ≡ w
unfolding handle_input
closed_gate p role none len w h = refl
closed_gate p role (some payload) len w h = rw h

pub handle_all_closed :
    (p : Platform) (reports : List Report) (w : World)
    → w.bridge.input_active ≡ false
    → handle_all p reports w ≡ w
unfolding handle_all
handle_all_closed p [] w h = refl
handle_all_closed p (r ∷ rest) w h =
    rw (closed_gate p r.role r.payload r.len w h) (handle_all_closed p rest w h)

-- The bodies and the gate after a release.
pub bridge-release_all :
    (p : Platform) (w : World)
    → (release_all p w).1.bridge ≡ record {
      keyboard = empty_keyboard;
      consumer = empty_consumer;
      mouse = empty_mouse;
      input_active = false;
    }
unfolding release_all Usb.release_all
bridge-release_all p w =
    ap (λ v. v.bridge) (flush_frame p (set_pending true (reset_state_locked (set_active false w))))

-- After `release_all`, whatever it returned, no sequence of input reports of any role, size and
-- content changes anything: the three bodies stay empty, input stays inactive, no report is sent,
-- and the release is pending or sent.
pub no_input_after_release :
    (p : Platform) (reports : List Report) (w : World)
    → let released = (release_all p w).1 in
      let after = handle_all p reports released in
      (after ≡ released)
      × (after.bridge ≡ record {
        keyboard = empty_keyboard;
        consumer = empty_consumer;
        mouse = empty_mouse;
        input_active = false;
      })
      × IsOwed p (written p w.calls) after
no_input_after_release p reports w =
    let closed = reset_state_locked (set_active false w) in
    let quiet : IsQuiet no_gaps = (refl, refl, refl, refl) in
    let still =
      handle_all_closed p reports (release_all p w).1
        (ap (λ b. b.input_active) (bridge-release_all p w)) in
    (
      still,
      rw still (bridge-release_all p w),
      rw still (
          unfold release_all act_all Usb.release_all in
          rw (sym (flush-no_gaps p (set_pending true closed))) (
            unfold Interrupted.release_all in
            release_never_lost p no_flush_gaps [] closed (quiet, quiet, quiet) tt)),
    )

keyboard_bytes :
    (payload : List ℕ)
    → length payload ≡ 8
    → Usb.keyboard_report (keyboard_of_bytes payload) ≡ 1 ∷ payload
keyboard_bytes [] h = absurd (omega arith)
keyboard_bytes (m ∷ []) h = absurd (omega arith)
keyboard_bytes (m ∷ r ∷ keys) h = refl

-- Every byte is below 256.
abbrev pub IsBytes : List ℕ → Type 0
IsBytes [] = Unit
IsBytes (b ∷ rest) = (b < 256) × IsBytes rest

consumer_bytes :
    (payload : List ℕ)
    → length payload ≡ 2
    → IsBytes payload
    → Usb.consumer_report (consumer_of_bytes payload) ≡ 2 ∷ payload
consumer_bytes [] h b = absurd (omega arith)
consumer_bytes (x ∷ []) h b = absurd (omega arith)
consumer_bytes (x ∷ y ∷ []) h b = ground arith
consumer_bytes (x ∷ y ∷ z ∷ rest) h b = absurd (omega arith)

-- The size of the structure of a role that the bridge supports.
abbrev pub size_of : Role → Option ℕ
size_of Role.keyboard_input = some 8
size_of Role.consumer_input = some 2
size_of Role.mouse_input = some 10
size_of _ = none

abbrev pub is_some : Option ℕ → Bool
is_some none = false
is_some (some n) = true

keyboard_input_lem :
    (p : Platform) (payload : List ℕ) (w : World)
    → w.bridge.input_active ≡ true
    → length payload ≡ 8
    → handle_input p Role.keyboard_input (some payload) (length payload) w
      ≡ send p
          (Input.keyboard (keyboard_of_bytes payload))
          (record w { bridge = record (w.bridge) { keyboard = keyboard_of_bytes payload } })
unfolding handle_input send
keyboard_input_lem p payload w a l = rw (a, l)

consumer_input_lem :
    (p : Platform) (payload : List ℕ) (w : World)
    → w.bridge.input_active ≡ true
    → length payload ≡ 2
    → handle_input p Role.consumer_input (some payload) (length payload) w
      ≡ send p
          (Input.consumer (consumer_of_bytes payload))
          (record w { bridge = record (w.bridge) { consumer = consumer_of_bytes payload } })
unfolding handle_input send
consumer_input_lem p payload w a l = rw (a, l)

mouse_input_lem :
    (p : Platform) (m : MouseBody) (w : World)
    → w.bridge.input_active ≡ true
    → IsMouse m
    → handle_input p Role.mouse_input (some (bytes_of_mouse m)) mouse_size w
      ≡ send p (Input.mouse m) (record w { bridge = record (w.bridge) { mouse = m } })
unfolding handle_input send
mouse_input_lem p m w a v = rw (a, mouse_of_bytes-bytes_of_mouse m v)

-- What has been sent before an input report: the releases, if they were pending.
abbrev pub sent_before : Platform → World → List (List ℕ)
sent_before p w =
    if w.usb.safe_state_pending then releases (written p w.calls) else written p w.calls

-- With input active and a host, a keyboard report of 8 bytes that is handled with status OK reaches
-- the host as it came, behind its report number; the releases go first if they were pending.
-- Conditions: no callback of the USB driver comes while it is sent.
pub keyboard_bridged :
    (p : Platform) (payload : List ℕ) (w : World)
    → w.bridge.input_active ≡ true
    → w.usb.usb_configured ≡ true
    → length payload ≡ 8
    → is_ok (handle_input p Role.keyboard_input (some payload) (length payload) w).0 ≡ true
    → written p (handle_input p Role.keyboard_input (some payload) (length payload) w).1.calls
      ≡ (1 ∷ payload) ∷ sent_before p w
unfolding report
keyboard_bridged p payload w a c l =
    rw (keyboard_input_lem p payload w a l, ← keyboard_bytes payload l)
      (λ o. (releases_before_input p (Input.keyboard (keyboard_of_bytes payload)) _ c o).0)

-- With input active and a host, a consumer report of 2 bytes that is handled with status OK reaches
-- the host as it came, behind its report number; the releases go first if they were pending.
-- Conditions: no callback of the USB driver comes while it is sent.
pub consumer_bridged :
    (p : Platform) (payload : List ℕ) (w : World)
    → w.bridge.input_active ≡ true
    → w.usb.usb_configured ≡ true
    → length payload ≡ 2
    → IsBytes payload
    → is_ok (handle_input p Role.consumer_input (some payload) (length payload) w).0 ≡ true
    → written p (handle_input p Role.consumer_input (some payload) (length payload) w).1.calls
      ≡ (2 ∷ payload) ∷ sent_before p w
unfolding report
consumer_bridged p payload w a c l b =
    rw (consumer_input_lem p payload w a l, ← consumer_bytes payload l b)
      (λ o. (releases_before_input p (Input.consumer (consumer_of_bytes payload)) _ c o).0)

-- With input active and a host, a mouse body of 16-bit movements that is handled with status OK
-- reaches the host as its mouse report; the releases go first if they were pending.
pub mouse_bridged :
    (p : Platform) (m : MouseBody) (w : World)
    → w.bridge.input_active ≡ true
    → w.usb.usb_configured ≡ true
    → IsMouse m
    → is_ok (handle_input p Role.mouse_input (some (bytes_of_mouse m)) mouse_size w).0 ≡ true
    → written p (handle_input p Role.mouse_input (some (bytes_of_mouse m)) mouse_size w).1.calls
      ≡ mouse_report m ∷ sent_before p w
unfolding report
mouse_bridged p m w a c v =
    rw (mouse_input_lem p m w a v) (λ o. (releases_before_input p (Input.mouse m) _ c o).0)

-- A report of an unsupported role, or of a supported role with a length that is not the size of its
-- structure, changes nothing and sends nothing; the status is OK in the first case, SIZE_MISMATCH
-- in the second while input is active, and OK while it is not.
pub rejected_input :
    (p : Platform) (role : Role) (payload : List ℕ) (len : ℕ) (w : World)
    → (size_of role ≢ some len)
    → handle_input p role (some payload) len w
      ≡ ((if w.bridge.input_active && is_some (size_of role) then size_mismatch else ok), w)
unfolding handle_input
rejected_input p Role.unknown payload len w h = ground arith
rejected_input p _ payload len w h = ground arith
