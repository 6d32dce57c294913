-- ===== src/Hog/Reads/Valid.antt =====
-- The invariant of the client's state in main/src/hog_client.c under every callback of a discovery.
use zmk_usb_bridge.Prelude.{ℕ, ◌≤◌, ◌≡◌, refl, Bool, true, some, false, length, if◌then◌else◌}
use zmk_usb_bridge.Prelude.Int.{ℤ}
use zmk_usb_bridge.Types.{Status, Reason}
use zmk_usb_bridge.World.{World, Platform, HogState, BridgeState}
use zmk_usb_bridge.Hog.Client
use zmk_usb_bridge.Hog.Client.Frame.{fail_discovery-frame, complete_discovery-frame}
use zmk_usb_bridge.Hog.Callbacks.{max_reports}

abbrev pub IsGood : ℕ → HogState → BridgeState → Type 0
IsGood k hog bridge =
    (hog.ctx.conn ≡ some k)
    × (length hog.ctx.reports ≡ hog.ctx.report_count)
    × (hog.ctx.report_count ≤ max_reports)
    × (bridge.input_active ≡ true → hog.profile.has_keyboard_input ≡ true)

-- The client holds the connection `k`, the array of the reports holds as many as its count says, eight
-- at most, and input is on only while the profile has the keyboard.
abbrev pub HogValid : ℕ → World → Type 0
HogValid k w = IsGood k w.hog w.bridge

pub fail_discovery-HogValid :
    {k : ℕ} (p : Platform) (conn : ℕ) (reason : Reason) (code : ℤ) (w : World)
    → HogValid k w
    → HogValid k (Client.fail_discovery p conn reason code w).1
fail_discovery-HogValid p conn reason code w v =
    let same = fail_discovery-frame p conn reason code w in rw (same.0, same.1) v

pub complete_discovery-HogValid :
    {k : ℕ} (p : Platform) (conn : ℕ) (w : World)
    → HogValid k w
    → HogValid k (Client.complete_discovery p conn w).1
complete_discovery-HogValid p conn w v =
    let same = complete_discovery-frame p conn w in rw (same.0, same.1) (v.0, v.1, v.2, λ e. e)

-- Whichever branch is taken, its state is valid.
pub either-HogValid :
    {k : ℕ} (b : Bool) (x y : World)
    → (b ≡ true → HogValid k x)
    → (b ≡ false → HogValid k y)
    → HogValid k (if b then x else y)
either-HogValid true x y f g = f refl
either-HogValid false x y f g = g refl

pub either_op-HogValid :
    {k : ℕ} (b : Bool) (x y : Status × World)
    → (b ≡ true → HogValid k x.1)
    → (b ≡ false → HogValid k y.1)
    → HogValid k (if b then x else y).1
either_op-HogValid true x y f g = f refl
either_op-HogValid false x y f g = g refl
