-- ===== src/Examples/Graphs.antt =====
-- The graph of the calls.
use skylb.Prelude.{◌≡◌, ◌↔◌, refl, [], ◌∷◌, true, false, Str, str_eq, pos, In}
use skylb.Go.Strings.{lit}
use skylb.Api.{Node, node, nil, cons}
use skylb.Hub.Tracking.{graph_key_of}
use skylb.Hub.Graph.{Graph, CallPair, parse_call_pair, build_dependencies, find_roots}
use skylb.Hub.Graph.Called.{callers_of, IsCall, gen_called_map_lem}
use skylb.Hub.Graph.{gen_called_map}
use skylb.Hub.Graph.Queries.{IsCaller, IsCalled, find_roots_lem}
use skylb.Hub.Graph.Paths.{parse_call_pair-graph_key_of, build_dependencies-leaves}
use skylb.Examples.Cluster.{cluster, cluster-HasPaths, is_segment-IsSegment}
use skylb.Examples.Registry.{shop}

abbrev call_of : Str → Str → CallPair
call_of from to = record {
  callee = to;
  info = record { caller = from; timestamp = pos 1700000000 };
}

-- The page calls the shop, and the shop calls the cart.
abbrev graph : Graph
graph = record {
  latest_callers = [];
  calling_map = [];
  simple_calling_map =
      (lit "page", call_of (lit "page") (lit "shop") ∷ [])
      ∷ (lit "shop", call_of (lit "shop") (lit "cart") ∷ [])
      ∷ [];
}

find_roots_lem_example : In (lit "page") (find_roots graph) ↔ (
    IsCaller graph.simple_calling_map (lit "page")
    × ¬ IsCalled graph.simple_calling_map (lit "page"))
find_roots_lem_example = find_roots_lem graph (lit "page")

parse_call_pair-graph_key_of_example :
    parse_call_pair (graph_key_of cluster shop (lit "page"))
    ≡ record { callee = lit "shop"; info = record { caller = lit "page"; timestamp = pos 0 } }
parse_call_pair-graph_key_of_example =
    parse_call_pair-graph_key_of cluster cluster-HasPaths shop (lit "page")
      (is_segment-IsSegment (lit "default") refl) (is_segment-IsSegment (lit "shop") refl)
      (is_segment-IsSegment (lit "page") refl)

-- What the tracker has written for a call of the shop by the page.
abbrev client : Node
client = node (lit "/registry/graph/default/shop/clients/page") false (lit "1700000000") (pos 0) nil

abbrev root : Node
root = node (lit "/registry/graph") true [] (pos 0) (
    cons
      (node (lit "/registry/graph/default") true [] (pos 0) (
        cons
          (node (lit "/registry/graph/default/shop") true [] (pos 0) (
            cons
              (node (lit "/registry/graph/default/shop/clients") true [] (pos 0) (cons client nil))
              nil))
          nil))
      nil)

build_dependencies-leaves_example :
    ((build_dependencies root graph).simple_calling_map ≡ [])
    × (find_roots (build_dependencies root graph) ≡ [])
build_dependencies-leaves_example =
    build_dependencies-leaves root graph ((((refl, tt), tt), tt), tt)

gen_called_map_lem_example :
    In (lit "page") (callers_of (lit "shop") (gen_called_map graph))
    ↔ IsCall graph.simple_calling_map (lit "page") (lit "shop")
gen_called_map_lem_example = gen_called_map_lem graph (lit "page") (lit "shop")
