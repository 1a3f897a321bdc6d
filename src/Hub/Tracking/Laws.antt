-- ===== src/Hub/Tracking/Laws.antt =====
-- hub/hub.go: which keys of the service graph are tracked.
use skylb.Prelude.{◌≡◌, refl, ◌∙◌, List, [], ◌∷◌, none, Str, arith, =?_refl, str_eq, inl, inr, In}
use skylb.Go.Maps.{get, get-delete}
use skylb.Api.{ServiceSpec}
use skylb.Deps.{Deps}
use skylb.Hub.State.{EndpointsHub}
use skylb.Hub.Tracking.{graph_key_of, untrack_service_graph, untrack_all}

module _ (d : Deps) (caller : Str) where
  untrack_all-gone :
      (specs : List ServiceSpec) (h : EndpointsHub) (key : Str)
      → get key h.graph_keys ≡ none
      → get key (untrack_all d caller specs h).graph_keys ≡ none
  unfolding untrack_all untrack_service_graph
  untrack_all-gone [] h key e = e
  untrack_all-gone (s ∷ specs) h key e =
      untrack_all-gone specs (untrack_service_graph d caller s h) key
        (ground (arith, get-delete (graph_key_of d s caller) key h.graph_keys))

  -- After the untracking of specs none of their keys is tracked.
  pub untrack_all-clears :
      (specs : List ServiceSpec) (h : EndpointsHub) (spec : ServiceSpec)
      → In spec specs
      → get (graph_key_of d spec caller) (untrack_all d caller specs h).graph_keys ≡ none
  unfolding untrack_all untrack_service_graph
  untrack_all-clears [] h spec i = absurd i.1
  untrack_all-clears (s ∷ specs) h spec (inl e) =
      untrack_all-gone specs (untrack_service_graph d caller s h) (graph_key_of d spec caller) (
        rw e (
          get-delete (graph_key_of d s caller) (graph_key_of d s caller) h.graph_keys
          ∙ rw (=?_refl (graph_key_of d s caller))))
  untrack_all-clears (s ∷ specs) h spec (inr i) =
      untrack_all-clears specs (untrack_service_graph d caller s h) spec i

  -- Untracking touches nothing but the graph keys.
  pub services-untrack_all :
      (specs : List ServiceSpec) (h : EndpointsHub)
      → (untrack_all d caller specs h).services ≡ h.services
  unfolding untrack_all untrack_service_graph
  services-untrack_all [] h = refl
  services-untrack_all (s ∷ specs) h =
      services-untrack_all specs (untrack_service_graph d caller s h)
