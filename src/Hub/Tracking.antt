-- ===== src/Hub/Tracking.antt =====
-- hub/hub.go: TrackServiceGraph, UntrackServiceGraph and one tick of startGraphTracking.
pub mod Laws
use skylb.Prelude.{
  ℕ, zero, suc, ◌≡◌, List, [], ◌∷◌, Option, none, some, Str, ◌=?◌, str_eq, if◌then◌else◌, nat_eq,
}
use skylb.Go.Strings.{lit}
use skylb.Go.Strconv.{itoa}
use skylb.Go.Path.{join_path}
use skylb.Go.Maps.{GoMap, GoSet, put, delete}
use skylb.Api.{ServiceSpec, EtcdError}
use skylb.Deps.{Deps, set_opts}
use skylb.Hub.State.{EndpointsHub}

module _ (d : Deps) where
  open d use {World, etcd_set, graph_key, unix_now}

  unfoldable pub graph_key_of : ServiceSpec → Str → Str
  graph_key_of callee caller =
      join_path (graph_key ∷ callee.namespace ∷ callee.service_name ∷ lit "clients" ∷ caller ∷ [])

  -- At most `n` writes, up to the first that succeeds.
  unfoldable pub try_set : ℕ → Str → Str → World → World
  try_set zero key value w = w
  try_set (suc n) key value w =
      let (e, w') = etcd_set key value set_opts w in
      elim e [ none ↦ w' | some _ ↦ try_set n key value w' ]

  unfoldable pub track_service_graph :
      Str → ServiceSpec → EndpointsHub → World → EndpointsHub × World
  unfolding try_set
  track_service_graph caller callee h w =
      let key = graph_key_of callee caller in
      (record h { graph_keys = put key tt h.graph_keys }, try_set 3 key (itoa (unix_now w)) w)

  pub untrack_service_graph : Str → ServiceSpec → EndpointsHub → EndpointsHub
  untrack_service_graph caller callee h = record h {
    graph_keys = delete (graph_key_of callee caller) h.graph_keys;
  }

  -- The writes of one tick: the keys are cloned first, and a write that fails is only logged.
  pub refresh_graph_keys : GoSet Str → Str → World → World
  refresh_graph_keys [] timestamp w = w
  refresh_graph_keys ((k, v) ∷ keys) timestamp w =
      refresh_graph_keys keys timestamp (etcd_set k timestamp set_opts w).1

  unfoldable pub graph_tick : EndpointsHub → World → World
  unfolding refresh_graph_keys
  graph_tick h w = refresh_graph_keys h.graph_keys (itoa (unix_now w)) w

  unfoldable pub track_all : Str → List ServiceSpec → EndpointsHub → World → EndpointsHub × World
  track_all caller [] h w = (h, w)
  track_all caller (spec ∷ specs) h w =
      let (h', w') = track_service_graph caller spec h w in track_all caller specs h' w'

  pub untrack_all : Str → List ServiceSpec → EndpointsHub → EndpointsHub
  untrack_all caller [] h = h
  untrack_all caller (spec ∷ specs) h =
      untrack_all caller specs (untrack_service_graph caller spec h)
