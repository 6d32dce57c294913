-- ===== src/Examples/UsbRuns.antt =====
-- Runs of the bridge and of the reports to the host.
use zmk_usb_bridge.Prelude.{ℕ, ◌≡◌, refl, false, List, [], ◌∷◌, some, arith}
use zmk_usb_bridge.Prelude.Int.{pos, negsuc}
use zmk_usb_bridge.Types.{ok, Role, MouseBody}
use zmk_usb_bridge.Usb
use zmk_usb_bridge.Usb.{mouse_report, keyboard_release, consumer_release, mouse_release}
use zmk_usb_bridge.Usb.{DcStatus}
use zmk_usb_bridge.Usb.Interrupted
use zmk_usb_bridge.Usb.Interrupted.{Callback, FlushGaps, no_gaps, no_flush_gaps, no_send_gaps}
use zmk_usb_bridge.Usb.Interrupted.Quiet.{IsQuiet}
use zmk_usb_bridge.Usb.Interrupted.Lost.{reset_after_keyboard, reset_drops_releases}
use zmk_usb_bridge.Usb.Release.{written, releases, Input, report, send, releases_before_input}
use zmk_usb_bridge.Usb.Permits.{IsBalanced, permits_balance}
use zmk_usb_bridge.Usb.Owed.{IsOwed, Action, act_all, release_never_lost}
use zmk_usb_bridge.Bridge.{bytes_of_mouse, handle_input, IsMouse}
use zmk_usb_bridge.Bridge.Gate.{Report, keyboard_bridged}
use zmk_usb_bridge.Examples.{working, world}

abbrev key_a : List ℕ
key_a = 0 ∷ 0 ∷ 4 ∷ 0 ∷ 0 ∷ 0 ∷ 0 ∷ 0 ∷ []

abbrev volume : List ℕ
volume = 233 ∷ 0 ∷ []

abbrev moved : MouseBody
moved = record { buttons = 1; dx = pos 300; dy = negsuc 20; scroll_y = pos 0; scroll_x = pos 0 }

moved-IsMouse : IsMouse moved
moved-IsMouse = ground arith

-- The host is configured again and the endpoint is ready while the keyboard's release is sent.
abbrev busy_host : FlushGaps
busy_host = record no_flush_gaps {
  keyboard = record no_gaps {
    before_take = Callback.status DcStatus.configured ∷ [];
    after_write = Callback.ready ∷ [];
  };
}

-- A reset, an input meanwhile, and the host again.
abbrev reset_between : List Action
reset_between =
    Action.driver (Callback.status DcStatus.reset)
    ∷ Action.input (Input.mouse moved) no_send_gaps
    ∷ Action.driver (Callback.status DcStatus.configured)
    ∷ Action.release_all busy_host
    ∷ []

quiet : IsQuiet no_gaps
quiet = (refl, refl, refl, refl)

busy : IsQuiet (busy_host.keyboard)
busy = (refl, refl, refl, refl)

release_never_lost_example :
    IsOwed working []
      (act_all working reset_between (Interrupted.release_all working busy_host world).1)
unfolding written
release_never_lost_example =
    release_never_lost working busy_host reset_between world (busy, quiet, quiet)
      (tt, (((quiet, quiet, quiet), refl, quiet), (tt, ((busy, quiet, quiet), tt))))

reset_drops_releases_example :
    let (status, after) = Interrupted.release_all working reset_after_keyboard world in
    (status ≡ ok)
    × (after.usb.safe_state_pending ≡ false)
    × (written working after.calls ≡ keyboard_release ∷ [])
unfolding written
reset_drops_releases_example =
    reset_drops_releases working world refl (unfold Usb.send_report_locked in refl)

releases_before_input_example :
    let after = (send working (Input.mouse moved) world).1 in
    (written working after.calls ≡ report (Input.mouse moved) ∷ releases [])
    × (after.usb.safe_state_pending ≡ false)
unfolding written
releases_before_input_example =
    releases_before_input working (Input.mouse moved) world refl
      (unfold send mouse_report Usb.flush_safe_state_locked Usb.send_report_locked in refl)

permits_balance_example :
    IsBalanced working [] (send working (Input.mouse moved) world).1.calls
    × IsBalanced working [] (Usb.release_all working world).1.calls
unfolding written
permits_balance_example = permits_balance working (Input.mouse moved) world

abbrev reports : List Report
reports = record { role = Role.keyboard_input; payload = some key_a; len = 8 } ∷ []

keyboard_bridged_example :
    written working (handle_input working Role.keyboard_input (some key_a) 8 world).1.calls
    ≡ (1 ∷ key_a) ∷ releases []
unfolding written
keyboard_bridged_example = keyboard_bridged working key_a world refl refl refl (
    unfold handle_input Usb.send_keyboard Usb.send_consumer Usb.send_mouse bytes_of_mouse
      Usb.mouse_report Usb.flush_safe_state_locked Usb.send_report_locked in
    refl)
