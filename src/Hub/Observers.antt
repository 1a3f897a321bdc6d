-- ===== src/Hub/Observers.antt =====
-- hub/observer.go: AddObserver and RemoveObserver, with fetchK8sEndpoints of hub/k8s.go.
-- The Prometheus gauges and the log are left out. Both run here from their start to their end at once;
-- Hub/Watcher has their critical sections as steps, with the rest of the hub in between.
pub mod Removal
pub mod Addition
use skylb.Prelude.{
  ℕ, ◌+◌, ◌*◌, Bool, true, false, ◌&&◌, List, [], ◌∷◌, ◌++◌, Option, none, some, Str, inc_int64,
  length, if◌then◌else◌, ◌=?◌, str_eq, nat_eq,
}
use skylb.Go.Maps.{get, put}
use skylb.Api.{Endpoints, ServiceSpec, EtcdError, other, Fetched, ok, err}
use skylb.Deps.{Deps}
use skylb.Hub.Key.{calculate_key}
use skylb.Hub.Endpoints.{skypb_endpoints_to_map, diff_endpoints, EndpointsMap}
use skylb.Hub.Register.{fetch_endpoints}
use skylb.Hub.State.{ClientObject, ServiceObject, EndpointsUpdate, Channel, EndpointsHub, send}

-- The loop of fetchK8sEndpoints over the items of the list.
pub find_item : Str → List Endpoints → Fetched Endpoints
find_item service_name [] = err other
find_item service_name (eps ∷ items) =
    let rest = find_item service_name items in if eps.name =? service_name then ok eps else rest

pub find_k8s : Str → Fetched (List Endpoints) → Fetched Endpoints
unfolding find_item
find_k8s service_name (err e) = err e
find_k8s service_name (ok items) = find_item service_name items

-- What AddObserver returns: the channel, an error, or nothing because a send waits.
pub data Added : Type 0 where
  observing : ℕ → Added
  failed : EtcdError → Added
  waiting : Added

unfoldable pub chan_cap_multiplication : ℕ
chan_cap_multiplication = 10

-- so, ok = eh.services[key], or the new object.
abbrev pub service_or_new : ServiceSpec → EndpointsMap → Option ServiceObject → ServiceObject
service_or_new spec m none = record { spec = spec; endpoints = m; observers = [] }
service_or_new spec m (some so) = so

abbrev rectified_or_new : Bool → Str → List Str → Option ServiceObject → List Str
rectified_or_new within_k8s key keys none = if within_k8s then keys else key ∷ keys
rectified_or_new within_k8s key keys (some so) = keys

abbrev pub client_object : ServiceSpec → Str → Bool → ℕ → ℕ → ClientObject
client_object spec client_addr resolve_full notify_ch stop_ch = record {
  spec = spec;
  client_addr = client_addr;
  resolve_full = resolve_full;
  notify_ch = notify_ch;
  stop_ch = stop_ch;
}

-- make(chan struct{})
abbrev pub new_channel : EndpointsHub → EndpointsHub
new_channel h = record h { next_channel = h.next_channel + 1 }

-- so.observers = append(so.observers, co)
unfoldable pub append_observer : Str → ClientObject → EndpointsHub → EndpointsHub
append_observer key co h = elim (get key h.services) [
  | none ↦ h
  | some so ↦ record h {
    services = put key (record so { observers = so.observers ++ co ∷ [] }) h.services;
  }
]

-- The observers that stay, and the stop channels that are closed.
pub remove_observer_from_slice :
    (ServiceSpec → Str) → List ClientObject → ServiceSpec → Str → List ClientObject × List ℕ
remove_observer_from_slice spec_string [] spec client_addr = ([], [])
remove_observer_from_slice spec_string (ob ∷ obs) spec client_addr =
    let (remaining, closed) = remove_observer_from_slice spec_string obs spec client_addr in
    if ob.client_addr =? client_addr && spec_string ob.spec =? spec_string spec
    then (remaining, ob.stop_ch ∷ closed)
    else (ob ∷ remaining, closed)

module _ (d : Deps) where
  open d use {World, within_k8s, k8s_list, spec_string}

  unfoldable pub fetch_k8s_endpoints : Str → Str → World → Fetched Endpoints × World
  unfolding find_k8s
  fetch_k8s_endpoints namespace service_name w =
      let (r, w') = k8s_list namespace w in (find_k8s service_name r, w')

  unfoldable pub fetch : ServiceSpec → World → Fetched Endpoints × World
  fetch spec w =
      if within_k8s
      then fetch_k8s_endpoints spec.namespace spec.service_name w
      else fetch_endpoints d spec.namespace spec.service_name w

  -- The critical section of AddObserver: the service object, and the number of the initial update.
  unfoldable pub enter : ServiceSpec → EndpointsMap → EndpointsHub → EndpointsHub
  enter spec eps_map h =
      let key = calculate_key d spec.namespace spec.service_name in
      let old = get key h.services in
      record h {
        services = put key (service_or_new spec eps_map old) h.services;
        rectified = rectified_or_new within_k8s key h.rectified old;
        next_update_id = inc_int64 h.next_update_id;
      }

  unfoldable pub start_observing : ServiceSpec → Endpoints → ℕ → EndpointsHub → Option EndpointsHub
  unfolding send enter
  start_observing spec eps ch h =
      let eps_map = skypb_endpoints_to_map spec eps in
      let h' = enter spec eps_map h in
      send ch (record { id = h'.next_update_id; endpoints = diff_endpoints spec [] eps_map }) h'

  -- The loop of AddObserver over the specs.
  unfoldable pub observe_all :
      List ServiceSpec → Str → Bool → ℕ → EndpointsHub → World → Added × EndpointsHub × World
  unfolding start_observing append_observer fetch
  observe_all [] client_addr resolve_full ch h w = (observing ch, h, w)
  observe_all (spec ∷ specs) client_addr resolve_full ch h w =
      let co = client_object spec client_addr resolve_full ch h.next_channel in
      let h' = new_channel h in
      let (r, w') = fetch spec w in
      elim r [
        | err e ↦ (failed e, h', w')
        | ok eps ↦ elim (start_observing spec eps ch h') [
          | none ↦ (waiting, h', w')
          | some h'' ↦
              observe_all specs client_addr resolve_full ch
                (append_observer (calculate_key d spec.namespace spec.service_name) co h'') w'
        ]
      ]

  unfoldable pub add_observer :
      List ServiceSpec → Str → Bool → EndpointsHub → World → Added × EndpointsHub × World
  unfolding observe_all chan_cap_multiplication
  add_observer specs client_addr resolve_full h w =
      let ch = h.next_channel in
      let c : Channel = record { capacity = chan_cap_multiplication * length specs; buffer = [] } in
      observe_all specs client_addr resolve_full ch
        (record h { channels = put ch c h.channels; next_channel = ch + 1 }) w

  -- RemoveObserver gives up at the first service that is not there.
  unfoldable pub remove_observer : List ServiceSpec → Str → EndpointsHub → EndpointsHub
  unfolding remove_observer_from_slice
  remove_observer [] client_addr h = h
  remove_observer (spec ∷ specs) client_addr h =
      let key = calculate_key d spec.namespace spec.service_name in
      elim (get key h.services) [
        | none ↦ h
        | some so ↦
            let (remaining, closed) =
              remove_observer_from_slice spec_string so.observers spec client_addr in
            remove_observer specs client_addr (record h {
              services = put key (record so { observers = remaining }) h.services;
              stopped = closed ++ h.stopped;
            })
      ]
