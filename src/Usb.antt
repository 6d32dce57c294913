-- ===== src/Usb.antt =====
-- main/src/usb_bridge.c: the reports that go to the host. A report is the list of its bytes. The
-- senders, the flush and `release_all` run under a mutex, so the calls of one are not mixed with
-- another's. The callbacks of the USB driver, `ready_cb` and `status_cb`, do not take it: here they are
-- what they do when they run, and `Interrupted` lets them come while a sender runs. The callbacks for
-- the mouse feature report are in `Control`.
pub mod Release
pub mod Permits
pub mod Interrupted
pub mod Owed
pub mod Control
pub mod Descriptor
use zmk_usb_bridge.Prelude.{
  ℕ, ◌+◌, ◌*◌, ◌/◌, ◌%◌, ◌≡◌, Bool, true, false, not, ◌||◌, List, [], ◌∷◌, ◌++◌, Option, none, some,
  arith, ◌==◌, if◌then◌else◌, length, replicate,
}
use zmk_usb_bridge.Prelude.Int.{ℤ, pos, negsuc}
use zmk_usb_bridge.Bytes.{to_u16, low_byte, high_byte}
use zmk_usb_bridge.Types.{
  Status, ok, invalid_argument, invalid_state, no_memory, queue_full, is_ok, KeyboardBody,
  ConsumerBody, MouseBody,
}
use zmk_usb_bridge.World.{
  World, Platform, Op, ◌>>◌, give, effect, ignoring, branch, log, invoke, Call, sem_take, sem_give,
  sem_reset, hid_write, hid_register, hid_proto_code, hid_init, usb_enable,
}

abbrev pub keyboard_report_id : ℕ
keyboard_report_id = 1

abbrev pub consumer_report_id : ℕ
consumer_report_id = 2

abbrev pub mouse_report_id : ℕ
mouse_report_id = 3

-- The packed report structures, byte by byte.
abbrev pub keyboard_report : KeyboardBody → List ℕ
keyboard_report body = keyboard_report_id ∷ body.modifiers ∷ body.reserved ∷ body.keys

abbrev pub consumer_report : ConsumerBody → List ℕ
consumer_report body = consumer_report_id ∷ low_byte body.usage ∷ high_byte body.usage ∷ []

unfoldable pub mouse_report : MouseBody → List ℕ
unfolding to_u16
mouse_report body =
    mouse_report_id
    ∷ body.buttons % 32
    ∷ low_byte (to_u16 body.dx)
    ∷ high_byte (to_u16 body.dx)
    ∷ low_byte (to_u16 body.dy)
    ∷ high_byte (to_u16 body.dy)
    ∷ low_byte (to_u16 body.scroll_y)
    ∷ high_byte (to_u16 body.scroll_y)
    ∷ low_byte (to_u16 body.scroll_x)
    ∷ high_byte (to_u16 body.scroll_x)
    ∷ []

-- The reports of the safe state: no key, no usage, no button and no movement.
abbrev pub keyboard_release : List ℕ
keyboard_release = keyboard_report_id ∷ replicate 8 0

abbrev pub consumer_release : List ℕ
consumer_release = consumer_report_id ∷ replicate 2 0

abbrev pub mouse_release : List ℕ
mouse_release = mouse_report_id ∷ replicate 9 0

-- `-EINVAL`, `-ENOMEM`, `-EAGAIN` and `-EBUSY`.
abbrev pub einval : ℤ
einval = negsuc 21

abbrev pub enomem : ℤ
enomem = negsuc 11

abbrev pub eagain : ℤ
eagain = negsuc 10

abbrev pub ebusy : ℤ
ebusy = negsuc 15

unfoldable pub map_usb_error : ℤ → Status
map_usb_error (pos n) = if n == 0 then ok else invalid_state
map_usb_error (negsuc n) =
    if n == 21
    then invalid_argument
    else if n == 11
    then no_memory
    else if n == 10 || n == 15
    then queue_full
    else invalid_state

unfoldable pub send_report_locked : Platform → List ℕ → Op World
unfolding map_usb_error
send_report_locked p report w =
    let (taken, waited) = invoke p sem_take w in
    let (ret, sent) = invoke p (hid_write report) waited in
    if w.usb.usb_configured
    then if is_ok taken
      then if is_ok ret
        then if p.written report waited.calls == length report
          then (ok, sent)
          else (invalid_state, log sem_give sent)
        else (map_usb_error ret, log sem_give sent)
      else (queue_full, waited)
    else (ok, w)

abbrev pub set_pending : Bool → World → World
set_pending b w = record w { usb = record (w.usb) { safe_state_pending = b } }

abbrev pub set_configured : Bool → World → World
set_configured b w = record w { usb = record (w.usb) { usb_configured = b } }

unfoldable pub flush_safe_state_locked : Platform → Op World
flush_safe_state_locked p =
    branch (λ w. not w.usb.safe_state_pending || not w.usb.usb_configured) (give ok)
      (do
        send_report_locked p keyboard_release
        send_report_locked p consumer_release
        send_report_locked p mouse_release
        effect (set_pending false))

-- `usb_dc_status_code`, as far as the code tells its values apart.
pub data DcStatus : Type 0 where
  configured reset disconnected other : DcStatus

unfoldable pub ready_cb : World → World
ready_cb w = log sem_give w

unfoldable pub status_cb : DcStatus → World → World
status_cb configured w = log sem_give (set_configured true w)
status_cb reset w = log sem_give (log sem_reset (set_configured false w))
status_cb disconnected w = log sem_give (log sem_reset (set_configured false w))
status_cb other w = w

-- `if (ret != 0) return map_usb_error(ret);`.
abbrev mapped : Op World → Op World
mapped m w = let (ret, after) = m w in (if is_ok ret then ok else map_usb_error ret, after)

unfoldable pub init : Platform → Op World
unfolding map_usb_error
init p w =
    let bound = record w { usb = record (w.usb) { hid_dev = p.hid_bound w.calls } } in
    let rest : Op World = (do
      effect (log hid_register)
      ignoring (invoke p hid_proto_code)
      mapped (invoke p hid_init)
      mapped (invoke p usb_enable)
      effect (set_configured false)
      effect (set_pending true)) in
    if bound.usb.hid_dev then rest bound else (invalid_state, bound)

-- The common part of the three senders: release first, then the report, if a host is there.
abbrev send_after_flush : Platform → List ℕ → Op World
send_after_flush p report = do
  flush_safe_state_locked p
  branch (λ w. w.usb.usb_configured) (send_report_locked p report) (give ok)

unfoldable pub send_keyboard : Platform → Option KeyboardBody → Op World
send_keyboard p none w = (invalid_argument, w)
send_keyboard p (some body) w = send_after_flush p (keyboard_report body) w

unfoldable pub send_consumer : Platform → Option ConsumerBody → Op World
send_consumer p none w = (invalid_argument, w)
send_consumer p (some body) w = send_after_flush p (consumer_report body) w

unfoldable pub send_mouse : Platform → Option MouseBody → Op World
send_mouse p none w = (invalid_argument, w)
send_mouse p (some body) w = send_after_flush p (mouse_report body) w

unfoldable pub release_all : Platform → Op World
release_all p w = flush_safe_state_locked p (set_pending true w)
