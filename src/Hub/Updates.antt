-- ===== src/Hub/Updates.antt =====
-- hub/hub.go: extractUpdates, updateEndpoints and applyEndpoints, with applyK8sEndpoints of
-- hub/k8s.go. A goroutine that applyEndpoints starts is a Notification; `notify` is what it does where
-- its channel has room or its observer has been stopped.
pub mod Laws
use skylb.Prelude.{
  ℕ, Bool, true, false, ◌||◌, List, [], ◌∷◌, ◌++◌, Option, none, some, Str, if◌then◌else◌, ◌=?◌,
  str_eq, map, ◌==◌, inc_int64,
}
use skylb.Go.Path.{dir}
use skylb.Go.Maps.{get, put}
use skylb.Api.{
  Endpoints, Operation, ServiceSpec, ServiceEndpoints, InstanceEndpoint, EtcdError, Response, Node,
  node_key, Fetched, ok, err,
}
use skylb.Deps.{Deps}
use skylb.Hub.Endpoints.{skypb_endpoints_to_map, skypb_endpoints_to_slice}
use skylb.Hub.Register.{fetch_endpoints}
use skylb.Hub.State.{ClientObject, ServiceObject, EndpointsUpdate, Notification, EndpointsHub, send}

-- What a watch event is about: the directory of a key, nothing, or a node that is not there.
pub data Change : Type 0 where
  changed : Str → Change
  ignored no_node : Change

abbrev dir_of : Option Node → Change
dir_of none = no_node
dir_of (some n) = changed (dir (node_key n))

-- One goroutine for each observer.
abbrev pub notifications_for : ServiceEndpoints → List ClientObject → List Notification
notifications_for eps obs = map (λ ob. record { observer = ob; endpoints = eps }) obs

abbrev pub is_stopped : ℕ → List ℕ → Bool
is_stopped ch [] = false
is_stopped ch (c ∷ cs) = c == ch || is_stopped ch cs

-- The body of the goroutine: nothing is sent for an empty list; otherwise the update takes the next
-- number, and is sent unless the observer has been stopped, as `stop_wins` says where both are ready.
-- `none` stands for a goroutine that waits.
unfoldable pub notify : Bool → Notification → EndpointsHub → Option EndpointsHub
unfolding send
notify stop_wins n h = elim n.endpoints.inst_endpoints [
  | [] ↦ some h
  | ep ∷ eps ↦
      let h' = record h { next_update_id = inc_int64 h.next_update_id } in
      let delivered =
        send n.observer.notify_ch (record { id = h'.next_update_id; endpoints = n.endpoints }) h' in
      if is_stopped n.observer.stop_ch h.stopped
      then (if stop_wins then some h' else elim delivered [ none ↦ some h' | some h'' ↦ some h'' ])
      else delivered
]

module _ (d : Deps) where
  open d use {World, action_create, action_set, action_delete, action_expire, unset_op}

  pub apply_endpoints : Str → ServiceObject → Endpoints → EndpointsHub → EndpointsHub
  apply_endpoints key so eps h = record h {
    services = put key (record so { endpoints = skypb_endpoints_to_map so.spec eps }) h.services;
    notifications =
        h.notifications
        ++ notifications_for (skypb_endpoints_to_slice unset_op so.spec eps) so.observers;
  }

  pub update_endpoints : Str → EndpointsHub → World → EndpointsHub × World
  unfolding apply_endpoints
  update_endpoints key h w = elim (get key h.services) [
    | none ↦ (h, w)
    | some so ↦
        let (r, w') = fetch_endpoints d so.spec.namespace so.spec.service_name w in
        elim r [ err e ↦ (h, w') | ok eps ↦ (apply_endpoints key so eps h, w') ]
  ]

  pub changed_key : Response → Change
  changed_key resp =
      if resp.action =? action_create || resp.action =? action_set
      then dir_of resp.node
      else if resp.action =? action_delete || resp.action =? action_expire
      then dir_of resp.prev_node
      else ignored

  -- `none` stands for the panic on a node that is not there.
  unfoldable pub extract_updates : Response → EndpointsHub → World → Option (EndpointsHub × World)
  unfolding changed_key update_endpoints
  extract_updates resp h w = elim (changed_key resp) [
    | changed key ↦ some (update_endpoints key h w)
    | ignored ↦ some (h, w)
    | no_node ↦ none
  ]

  unfoldable pub apply_k8s_endpoints : Str → Endpoints → EndpointsHub → EndpointsHub
  unfolding apply_endpoints
  apply_k8s_endpoints key eps h = elim (get key h.services) [
    | none ↦ h
    | some so ↦ apply_endpoints key so eps h
  ]
