-- ===== src/Hog/Reads/Run.antt =====
-- Every callback of a discovery in main/src/hog_client.c keeps the client's state sound, whether the
-- client holds a connection or not.
use zmk_usb_bridge.Prelude.{
  ℕ, ◌≤◌, ◌≡◌, ◌≢◌, refl, inl, inr, Bool, true, false, Option, none, some, arith, length,
  if◌then◌else◌, Option-cases,
}
use zmk_usb_bridge.Types.{Status, ok}
use zmk_usb_bridge.World.{World, Platform, HogState, BridgeState}
use zmk_usb_bridge.Bridge
use zmk_usb_bridge.Hog.Slots.{with_ctx, discovery_active}
use zmk_usb_bridge.Hog.Client
use zmk_usb_bridge.Hog.Discovery.{start_service_discovery, start_discovery, begin_discovery}
use zmk_usb_bridge.Hog.Callbacks.{max_reports}
use zmk_usb_bridge.Hog.Reads.{Callback, callback}
use zmk_usb_bridge.Hog.Reads.Idle.{
  service-Ignored, characteristic-Ignored, descriptor-Ignored, reference-Ignored, feature-Ignored,
  subscribed-Ignored,
}
use zmk_usb_bridge.Hog.Reads.Valid.{HogValid}
use zmk_usb_bridge.Hog.Reads.Invariant.{service-HogValid, characteristic-HogValid}
use zmk_usb_bridge.Hog.Reads.Answers.{
  descriptor-HogValid, feature-HogValid, subscribed-HogValid, reference-HogValid,
}

abbrev pub IsSoundOf : HogState → BridgeState → Type 0
IsSoundOf hog bridge =
    (length hog.ctx.reports ≡ hog.ctx.report_count)
    × (hog.ctx.report_count ≤ max_reports)
    × (bridge.input_active ≡ true → hog.profile.has_keyboard_input ≡ true)
    × (bridge.input_active ≡ true → hog.ctx.conn ≢ none)

-- The array of the reports holds as many as its count says, eight at most, and input is on only while
-- the profile has the keyboard and the client holds a connection.
abbrev pub IsSound : World → Type 0
IsSound w = IsSoundOf w.hog w.bridge

-- With a connection, that is the invariant of the discovery.
linked-IsSound : {k : ℕ} (w : World) → HogValid k w → IsSound w
linked-IsSound w v = (v.1, v.2, v.3, λ on absent. cc (v.0, absent))

unref-IsSound :
    (conn : Option ℕ) (w : World)
    → w.bridge.input_active ≡ false
    → IsSound (with_ctx (λ c. Client.no_context) (Client.unref conn w))
unref-IsSound none w off = (refl, omega arith, λ e. cc, λ e. cc)
unref-IsSound (some conn) w off = (refl, omega arith, λ e. cc, λ e. cc)

pub reset-IsSound : (w : World) → IsSound (Client.reset w).1
unfolding Client.reset Bridge.set_input_active
reset-IsSound w = unref-IsSound w.hog.ctx.conn _ refl

begun-IsSound :
    (p : Platform) (conn conn_handle : ℕ) (w : World)
    → w.bridge.input_active ≡ false
    → IsSound w
    → IsSound (start_service_discovery p (begin_discovery conn conn_handle w)).1
unfolding start_service_discovery
begun-IsSound p conn conn_handle w off s = (s.0, s.1, s.2, λ on. cc)

reset-input : (conn : Option ℕ) (w : World) → (Client.unref conn w).bridge ≡ w.bridge
reset-input none w = refl
reset-input (some conn) w = refl

reset-off : (w : World) → (Client.reset w).1.bridge.input_active ≡ false
unfolding Client.reset Bridge.set_input_active
reset-off w = rw (reset-input w.hog.ctx.conn _) refl

pub either_op-IsSound :
    (b : Bool) (x y : Status × World) → IsSound x.1 → IsSound y.1 → IsSound (if b then x else y).1
either_op-IsSound true x y f g = f
either_op-IsSound false x y f g = g

-- The start of a discovery, on any connection.
pub start_discovery-IsSound :
    (p : Platform) (conn : Option ℕ) (conn_handle : ℕ) (w : World)
    → IsSound w
    → IsSound (start_discovery p conn conn_handle w).1
unfolding start_discovery
start_discovery-IsSound p none conn_handle w s = s
start_discovery-IsSound p (some conn) conn_handle w s =
    let reset = (Client.reset w).1 in
    either_op-IsSound (discovery_active conn_handle w) (ok, w)
      (start_service_discovery p (begin_discovery conn conn_handle reset)) s
      (begun-IsSound p conn conn_handle reset (reset-off w) (reset-IsSound w))

unlinked-IsSound :
    (p : Platform) (c : Callback) (w : World)
    → w.hog.ctx.conn ≡ none
    → IsSound w
    → IsSound (callback p c w)
unlinked-IsSound p (Callback.started conn conn_handle) w absent s =
    start_discovery-IsSound p conn conn_handle w s
unlinked-IsSound p (Callback.service conn attr) w absent s =
    rw (service-Ignored p conn attr w absent) s
unlinked-IsSound p (Callback.characteristic conn attr) w absent s =
    rw (characteristic-Ignored p conn attr w absent) s
unlinked-IsSound p (Callback.descriptor conn attr) w absent s =
    rw (descriptor-Ignored p conn attr w absent) s
unlinked-IsSound p (Callback.reference conn err payload) w absent s =
    rw (reference-Ignored p conn err payload w absent) s
unlinked-IsSound p (Callback.feature conn err payload) w absent s =
    rw (feature-Ignored p conn err payload w absent) s
unlinked-IsSound p (Callback.subscribed conn err i) w absent s =
    rw (subscribed-Ignored p conn err i w absent) s

held-IsSound :
    (p : Platform) (c : Callback) (k : ℕ) (w : World)
    → w.hog.ctx.conn ≡ some k
    → IsSound w
    → IsSound (callback p c w)
held-IsSound p (Callback.started conn conn_handle) k w e s =
    start_discovery-IsSound p conn conn_handle w s
held-IsSound p (Callback.service conn attr) k w e s =
    linked-IsSound {k = k} (callback p (Callback.service conn attr) w)
      (service-HogValid p conn attr w (e, s.0, s.1, s.2))
held-IsSound p (Callback.characteristic conn attr) k w e s =
    linked-IsSound {k = k} (callback p (Callback.characteristic conn attr) w)
      (characteristic-HogValid p conn attr w (e, s.0, s.1, s.2))
held-IsSound p (Callback.descriptor conn attr) k w e s =
    linked-IsSound {k = k} (callback p (Callback.descriptor conn attr) w)
      (descriptor-HogValid p conn attr w (e, s.0, s.1, s.2))
held-IsSound p (Callback.reference conn err payload) k w e s =
    linked-IsSound {k = k} (callback p (Callback.reference conn err payload) w)
      (reference-HogValid p conn err payload w (e, s.0, s.1, s.2))
held-IsSound p (Callback.feature conn err payload) k w e s =
    linked-IsSound {k = k} (callback p (Callback.feature conn err payload) w)
      (feature-HogValid p conn err payload w (e, s.0, s.1, s.2))
held-IsSound p (Callback.subscribed conn err i) k w e s =
    linked-IsSound {k = k} (callback p (Callback.subscribed conn err i) w)
      (subscribed-HogValid p conn err i w (e, s.0, s.1, s.2))

pub callback-IsSound :
    (p : Platform) (c : Callback) (w : World) → IsSound w → IsSound (callback p c w)
callback-IsSound p c w s = elim (Option-cases w.hog.ctx.conn) [
  | inl absent ↦ unlinked-IsSound p c w absent s
  | inr (k, e) ↦ held-IsSound p c k w e s
]
