-- ===== src/Hog/Subscribe/Once.antt =====
-- The end of the subscription phase of main/src/hog_client.c, when it waits and when it comes.
use zmk_usb_bridge.Prelude.{◌≡◌, refl, Bool, true, false, not, ◌||◌, ◌==◌, if◌then◌else◌}
use zmk_usb_bridge.Types.{not_found, Reason}
use zmk_usb_bridge.World.{World, Platform}
use zmk_usb_bridge.Hog.Slots.{with_ctx}
use zmk_usb_bridge.Hog.Client
use zmk_usb_bridge.Hog.Client.Frame.{fail_discovery-frame, complete_discovery-frame}
use zmk_usb_bridge.Hog.Subscribe.{finalize_subscription_phase}

pub pick-true : (b : Bool) (x y : World) → b ≡ true → (if b then x else y) ≡ x
pick-true true x y h = refl
pick-true false x y h = absurd (cc h)

pub pick-false : (b : Bool) (x y : World) → b ≡ false → (if b then x else y) ≡ y
pick-false true x y h = absurd (cc h)
pick-false false x y h = refl

abbrev pub waits : World → Bool
waits w = w.hog.ctx.finalize_pending || not (w.hog.ctx.pending_subscriptions == 0)

abbrev pub marked : World → World
marked w = with_ctx (λ c. record c { finalize_pending = true }) w

-- The state after the end of the phase.
abbrev pub ended : Platform → World → World
ended p w =
    if w.hog.profile.has_keyboard_input
    then (Client.complete_discovery p w.hog.ctx.conn_handle (marked w)).1
    else (Client.fail_discovery p w.hog.ctx.conn_handle Reason.hid_subscribe_failed not_found
        (marked w)).1

either-hog :
    (b : Bool) (w x y : World) → x.hog ≡ w.hog → y.hog ≡ w.hog → (if b then x else y).hog ≡ w.hog
either-hog true w x y f g = f
either-hog false w x y f g = g

pub ended-hog : (p : Platform) (w : World) → (ended p w).hog ≡ (Client.end_discovery (marked w)).hog
ended-hog p w =
    either-hog w.hog.profile.has_keyboard_input (Client.end_discovery (marked w))
      (Client.complete_discovery p w.hog.ctx.conn_handle (marked w)).1
      (Client.fail_discovery p w.hog.ctx.conn_handle Reason.hid_subscribe_failed not_found
        (marked w)).1
      (complete_discovery-frame p w.hog.ctx.conn_handle (marked w)).0
      (fail_discovery-frame p w.hog.ctx.conn_handle Reason.hid_subscribe_failed not_found
        (marked w)).0

pub waiting : (p : Platform) (w : World) → waits w ≡ true → finalize_subscription_phase p w ≡ w
unfolding finalize_subscription_phase
waiting p w h = pick-true (waits w) w (ended p w) h

pub ending :
    (p : Platform) (w : World) → waits w ≡ false → finalize_subscription_phase p w ≡ ended p w
unfolding finalize_subscription_phase
ending p w h = pick-false (waits w) w (ended p w) h
