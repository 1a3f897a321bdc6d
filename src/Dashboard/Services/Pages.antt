-- ===== src/Dashboard/Services/Pages.antt =====
-- dashboard/services.go and instance.go: the page of a service. The etcd client and the loading of the
-- lame ducks of skylb-api are parameters, over a state `W`; `none` as a page stands for a panic.
use skylb.Prelude.{
  List, [], ◌++◌, Option, none, some, Str, ℤ, if◌then◌else◌, length, ◌=?◌, str_eq, int_eq,
}
use skylb.Go.Strings.{lit}
use skylb.Go.Maps.{GoMap, get}
use skylb.Api.{Response, Fetched, ok, err, node_nodes}
use skylb.Dashboard.Services.{
  InstanceInfo, ServiceRef, ServiceInfo, extract_instances, extract_incomings, extract_outgoings,
  graph_prefix,
}

-- name, or "Unknown" for an id without one.
abbrev name_or_unknown : Option Str → Str
name_or_unknown none = lit "Unknown"
name_or_unknown (some name) = name

module _ {W : Type 0} (etcd_get : Str → W → Fetched Response × W)
    (load_lameducks : Str → W → GoMap Str Str × W) (ids_to_names : GoMap ℤ Str)
    (names_to_ids : GoMap Str ℤ) where
  abbrev instances_under :
      Str → GoMap Str Str → Fetched Response × W → Option (List InstanceInfo) × W
  instances_under key_prefix lameducks (err e, w) = (some [], w)
  instances_under key_prefix lameducks (ok resp, w) = elim resp.node [
    | none ↦ (none, w)
    | some root ↦ (extract_instances (node_nodes root) (length key_prefix) lameducks, w)
  ]

  pub load_instances : Str → GoMap Str Str → W → Option (List InstanceInfo) × W
  unfolding extract_instances
  load_instances name lameducks w =
      let key_prefix = lit "/registry/services/endpoints/default/" ++ name ++ lit "/" in
      instances_under key_prefix lameducks (etcd_get key_prefix w)

  abbrev page_with :
      ServiceInfo → Option (List ServiceRef) → Option (List ServiceRef) → Option ServiceInfo
  page_with info none outs = none
  page_with info (some ins) none = none
  page_with info (some ins) (some outs) = some (record info { incomings = ins; outgoings = outs })

  -- The two lists of calls, where the graph is read.
  abbrev graph_lists : ServiceInfo → Fetched Response × W → Option ServiceInfo × W
  graph_lists info (err e, w) = (some info, w)
  graph_lists info (ok resp, w) = elim resp.node [
    | none ↦ (none, w)
    | some root ↦ (
      page_with info (extract_incomings names_to_ids (node_nodes root) info.name)
          (extract_outgoings names_to_ids (node_nodes root) info.name),
      w,
    )
  ]

  abbrev page_of : ServiceInfo → Option (List InstanceInfo) × W → Option ServiceInfo × W
  page_of info (none, w) = (none, w)
  page_of info (some infos, w) =
      graph_lists (record info { instances = infos }) (etcd_get graph_prefix w)

  unfoldable pub get_service_by_id : ℤ → W → Option ServiceInfo × W
  unfolding load_instances extract_incomings extract_outgoings
  get_service_by_id id w =
      let name = name_or_unknown (get id ids_to_names) in
      let info : ServiceInfo = record {
        id = id;
        name = name;
        instances = [];
        incomings = [];
        outgoings = [];
      } in
      let (lameducks, w1) = load_lameducks name w in
      if name =? [] then (some info, w) else page_of info (load_instances name lameducks w1)
