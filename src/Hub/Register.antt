-- ===== src/Hub/Register.antt =====
-- hub/hub.go: InsertEndpoint, UpsertEndpoint and fetchEndpoints, over the etcd client.
pub mod Merge
pub mod Laws
use skylb.Prelude.{
  Bool, true, false, List, [], ◌∷◌, ◌++◌, Option, none, some, Str, ℤ, if◌then◌else◌, ◌=?◌, str_eq,
}
use skylb.Go.Maps.{GoMap, put}
use skylb.Api.{
  Endpoints, no_endpoints, ServiceSpec, EtcdError, key_not_found, event_index_cleared,
  watcher_cleared, other, Node, node_value, node_nodes, Response, Fetched, ok, err,
}
use skylb.Deps.{Deps}
use skylb.Hub.Key.{calculate_key, calculate_endpoint_key, refresh_key, set_key}

-- m[k] = v for each entry of the range.
pub put_all : GoMap Str Str → GoMap Str Str → GoMap Str Str
put_all [] m = m
put_all ((k, v) ∷ ls) m = put_all ls (put k v m)

-- The metadata come from the node with index 0, the labels and the subsets from every node.
pub merge_one : Bool → Endpoints → Endpoints → Endpoints
unfolding put_all
merge_one first acc eps =
    let meta = if first then eps.meta else acc.meta in
    record {
      meta = record meta { labels = put_all eps.labels meta.labels };
      subsets = acc.subsets ++ eps.subsets;
    }

-- The loop over the nodes of a service; `none` is a failure to decode.
pub merge_nodes : (Str → Option Endpoints) → Bool → List Node → Endpoints → Option Endpoints
unfolding merge_one
merge_nodes unmarshal first [] acc = some acc
merge_nodes unmarshal first (n ∷ nodes) acc =
    let skipped = merge_nodes unmarshal false nodes acc in
    let merged : Option Endpoints = elim (unmarshal (node_value n)) [
      | none ↦ none
      | some eps ↦ merge_nodes unmarshal false nodes (merge_one first acc eps)
    ] in
    if node_value n =? [] then skipped else merged

abbrev pub or_error {ℓ} : {A : Type ℓ} → Option A → Fetched A
or_error none = err other
or_error (some a) = ok a

-- What fetchEndpoints makes of the node of a service.
unfoldable pub read_node : (Str → Option Endpoints) → Node → Fetched Endpoints
unfolding merge_nodes
read_node unmarshal n = elim (node_nodes n) [
  | [] ↦ if node_value n =? [] then ok no_endpoints else or_error (unmarshal (node_value n))
  | m ∷ ms ↦ or_error (merge_nodes unmarshal true (m ∷ ms) no_endpoints)
]

unfoldable pub read_response : (Str → Option Endpoints) → Fetched Response → Fetched Endpoints
unfolding read_node
read_response unmarshal (err key_not_found) = ok no_endpoints
read_response unmarshal (err event_index_cleared) = err event_index_cleared
read_response unmarshal (err watcher_cleared) = err watcher_cleared
read_response unmarshal (err other) = err other
read_response unmarshal (ok resp) = elim resp.node [
  | none ↦ ok no_endpoints
  | some n ↦ read_node unmarshal n
]

-- What UpsertEndpoint does with the result of the refresh: sometimes the key has been dropped or has
-- expired, and is set again.
unfoldable pub or_set {ℓ} :
    {W : Type ℓ} → (W → Option EtcdError × W) → Option EtcdError → W → Option EtcdError × W
or_set set none w = (none, w)
or_set set (some key_not_found) w = set w
or_set set (some code) w = (some code, w)

module _ (d : Deps) where
  open d use {World, etcd_get, unmarshal}

  unfoldable pub insert_endpoint : ServiceSpec → Str → ℤ → ℤ → World → Option EtcdError × World
  insert_endpoint spec host port weight =
      set_key d (calculate_endpoint_key d spec.namespace spec.service_name host port) spec host port
        weight

  unfoldable pub upsert_endpoint : ServiceSpec → Str → ℤ → ℤ → World → Option EtcdError × World
  unfolding or_set
  upsert_endpoint spec host port weight w =
      let key = calculate_endpoint_key d spec.namespace spec.service_name host port in
      let (e, w') = refresh_key d key w in or_set (set_key d key spec host port weight) e w'

  unfoldable pub fetch_endpoints : Str → Str → World → Fetched Endpoints × World
  unfolding read_response
  fetch_endpoints namespace service_name w =
      let (r, w') = etcd_get (calculate_key d namespace service_name) w in
      (read_response unmarshal r, w')
