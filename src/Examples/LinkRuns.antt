-- ===== src/Examples/LinkRuns.antt =====
-- Runs of a link, from the connection to its end.
use zmk_usb_bridge.Prelude.{◌≡◌, refl, true, false, List, [], ◌∷◌, ◌++◌, some, map}
use zmk_usb_bridge.Prelude.Int.{pos}
use zmk_usb_bridge.Types.{ok, EventType, Reason}
use zmk_usb_bridge.World.{World, event_put}
use zmk_usb_bridge.Queue.{posted, make_event}
use zmk_usb_bridge.Runtime
use zmk_usb_bridge.Hog.Slots.{discovery_active}
use zmk_usb_bridge.Hog.Reads.Run.{IsSound}
use zmk_usb_bridge.Hog.Client
use zmk_usb_bridge.Radio.{Step, run}
use zmk_usb_bridge.Radio.Sound.{start_run-IsSound}
use zmk_usb_bridge.Connection.Established.{on_connect_success, on_security_ready, active_bonded}
use zmk_usb_bridge.Connection.Established.Once.{
  searches, security_event, success_event, bonded_discovers_once,
}
use zmk_usb_bridge.Connection.{is_busy}
use zmk_usb_bridge.Connection.Events.{on_disconnected}
use zmk_usb_bridge.Connection.Ended.{on_disconnected_lem}
use zmk_usb_bridge.Hog.Client.{no_context}
use zmk_usb_bridge.Examples.{working, world}
use zmk_usb_bridge.Examples.WholeDiscovery.{discovery}

-- The connection is asked for and comes up, the discovery runs, input arrives, and the link is lost.
abbrev whole_link : List Step
whole_link =
    Step.connect_asked (some (record { kind = 1; val = 1 ∷ 2 ∷ 3 ∷ 4 ∷ 5 ∷ 6 ∷ [] }))
      ∷ Step.link_up (some 1) 0
      ∷ Step.link_secured (some 1) 0
      ∷ map Step.client_called discovery
    ++ (Step.notified 1 (some 0) (0 ∷ 0 ∷ 4 ∷ []) ∷ Step.link_down (some 1) 8 ∷ [])

start_run-IsSound_example : IsSound (run working whole_link (Client.init working world).1)
start_run-IsSound_example = start_run-IsSound working whole_link world

abbrev linked : World
linked = record world { connection = record (world.connection) { active_conn = some 1 } }

bonded_discovers_once_example :
    let up = (on_connect_success working 1 linked).1 in
    let secure = (on_security_ready working 1 up).1 in
    (up.bridge.input_active ≡ false)
    × (discovery_active 1 up ≡ true)
    × (secure.hog ≡ up.hog)
    × (secure.calls ≡ event_put (security_event 1) ∷ up.calls)
    × (searches secure.calls ≡ 1)
    × (posted working secure.calls ≡ security_event 1 ∷ success_event 1 ∷ [])
unfolding posted searches
bonded_discovers_once_example =
    bonded_discovers_once working 1 1 linked refl
      (unfold active_bonded Runtime.is_peer_bonded in refl) (unfold discovery_active in refl) refl
      (λ event calls. refl)

on_disconnected_lem_example :
    let (status, after) = on_disconnected working 1 Reason.disconnected_timeout (pos 8) linked in
    (status ≡ ok)
    × (posted working after.calls
        ≡ make_event EventType.disconnected Reason.disconnected_timeout (pos 8) 1 0 ∷ [])
    × (after.bridge.input_active ≡ false)
    × (after.hog.ctx ≡ no_context)
    × (is_busy after ≡ false)
    × (after.connection.security_ready ≡ false)
unfolding posted
on_disconnected_lem_example =
    on_disconnected_lem working 1 Reason.disconnected_timeout (pos 8) linked refl
      (λ event calls. refl)
