-- ===== src/Hub/Watcher.antt =====
-- hub/hub.go and hub/k8s.go: the loop of startMainWatcher over what its watchers return, the handler of
-- startK8sWatcher, and the runs of the hub in which watch events, the goroutines of applyEndpoints and
-- the critical sections of AddObserver and RemoveObserver interleave.
pub mod Kept
pub mod Stays
pub mod Runs
pub mod Order
use skylb.Prelude.{
  ℕ, ◌+◌, ◌*◌, length, nat_eq, str_eq, ◌≡◌, Bool, true, false, List, [], ◌∷◌, ◌++◌, Option, none,
  some, Str, if◌then◌else◌,
}
use skylb.Api.{
  Endpoints, EtcdError, key_not_found, event_index_cleared, watcher_cleared, other, Response,
  Fetched, ok, err, ServiceSpec,
}
use skylb.Deps.{Deps}
use skylb.Hub.Key.{calculate_key}
use skylb.Go.Maps.{get, put}
use skylb.Hub.State.{EndpointsHub, Notification, ClientObject, Channel, EndpointsUpdate}
use skylb.Hub.Observers.{
  chan_cap_multiplication, new_channel, fetch, start_observing, append_observer, remove_observer,
}
use skylb.Hub.Updates.{update_endpoints, notify, extract_updates, apply_k8s_endpoints}

-- The errors on which a watcher is abandoned.
abbrev pub is_abandoned : EtcdError → Bool
is_abandoned event_index_cleared = true
is_abandoned watcher_cleared = true
is_abandoned key_not_found = false
is_abandoned other = false

module _ (d : Deps) where
  open d use {World}

  -- The hub with the state of the cluster.
  abbrev pub State : Type 0
  State = EndpointsHub × World

  -- The loop of startMainWatcher, on what Next returns: the number of watchers that are made, and the
  -- state. `none` stands for the panic on an event without its node.
  unfoldable pub main_watcher : List (Fetched Response) → ℕ → State → Option (ℕ × State)
  main_watcher [] watchers s = some (watchers, s)
  main_watcher (err e ∷ rest) watchers s =
      main_watcher rest (if is_abandoned e then watchers + 1 else watchers) s
  main_watcher (ok resp ∷ rest) watchers (h, w) = elim (extract_updates d resp h w) [
    | none ↦ none
    | some s ↦ main_watcher rest watchers s
  ]

  -- UpdateFunc of startK8sWatcher.
  pub k8s_updated : Endpoints → EndpointsHub → EndpointsHub
  unfolding calculate_key apply_k8s_endpoints
  k8s_updated eps h = apply_k8s_endpoints d (calculate_key d eps.namespace eps.name) eps h

  -- The channel that AddObserver makes for the updates of its specs.
  unfoldable pub open_channel : List ServiceSpec → EndpointsHub → EndpointsHub
  open_channel specs h = record h {
    channels =
        put h.next_channel
          (record { capacity = chan_cap_multiplication * length specs; buffer = [] }) h.channels;
    next_channel = h.next_channel + 1;
  }

  -- A step: an event of a watcher, an update of Kubernetes, one of the goroutines that are started, at a
  -- time when it does not wait, a tick of a goroutine of AddObserver that rectifies, a receive from the
  -- channel of an observer, or what a call of AddObserver or RemoveObserver does at once. AddObserver
  -- opens its channel, and for each spec makes a stop channel, fetches, enters the critical section of
  -- the hub, in which it sends, and appends its observer in that of the service object; RemoveObserver
  -- removes from one service object after another. Of any calls these
  -- steps occur in any order and with any arguments, also such as no call has.
  pub data Step : State → State → Type 0 where
    watched :
        (resp : Response) (h : EndpointsHub) (w : World) (s : State)
        → extract_updates d resp h w ≡ some s
        → Step (h, w) s
    updated : (eps : Endpoints) (h : EndpointsHub) (w : World) → Step (h, w) (k8s_updated eps h, w)
    notified :
        (before : List Notification) (n : Notification) (after : List Notification)
        (stop_wins : Bool) (h h' : EndpointsHub) (w : World)
        → h.notifications ≡ before ++ n ∷ after
        → notify stop_wins n (record h { notifications = before ++ after }) ≡ some h'
        → Step (h, w) (h', w)
    rectified_tick :
        (key : Str) (h : EndpointsHub) (w : World) → Step (h, w) (update_endpoints d key h w)
    received :
        (ch : ℕ) (c : Channel) (up : EndpointsUpdate) (rest : List EndpointsUpdate)
        (h : EndpointsHub) (w : World)
        → get ch h.channels ≡ some c
        → c.buffer ≡ up ∷ rest
        → Step (h, w) (record h { channels = put ch (record c { buffer = rest }) h.channels }, w)
    opening :
        (specs : List ServiceSpec) (h : EndpointsHub) (w : World)
        → Step (h, w) (open_channel specs h, w)
    stop_made : (h : EndpointsHub) (w : World) → Step (h, w) (new_channel h, w)
    fetched :
        (spec : ServiceSpec) (h : EndpointsHub) (w : World) → Step (h, w) (h, (fetch d spec w).1)
    entered :
        (spec : ServiceSpec) (eps : Endpoints) (ch : ℕ) (h h' : EndpointsHub) (w : World)
        → start_observing d spec eps ch h ≡ some h'
        → Step (h, w) (h', w)
    appended :
        (spec : ServiceSpec) (co : ClientObject) (h : EndpointsHub) (w : World)
        → Step (h, w) (append_observer (calculate_key d spec.namespace spec.service_name) co h, w)
    removed :
        (spec : ServiceSpec) (client_addr : Str) (h : EndpointsHub) (w : World)
        → Step (h, w) (remove_observer d (spec ∷ []) client_addr h, w)

  pub data Run : State → State → Type 0 where
    done : (s : State) → Run s s
    then_step : (s t u : State) → Step s t → Run t u → Run s u
