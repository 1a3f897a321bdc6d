-- ===== src/Examples/Updates.antt =====
-- The endpoints of a service and the updates that are sent for them.
use skylb.Prelude.{
  ◌≡◌, ◌↔◌, refl, Bool, false, List, [], ◌∷◌, ◌++◌, none, some, =?_refl, Str, str_eq, pos, In,
}
use skylb.Go.Strings.{lit}
use skylb.Go.Maps.{get}
use skylb.Api.{Operation, InstanceEndpoint, Endpoints, no_endpoints, Response, node, nil, ok}
use skylb.Hub.Key.{endpoint_object, calculate_key, calculate_endpoint_key}
use skylb.Hub.State.{ServiceObject, EndpointsHub, Notification, init}
use skylb.Hub.Register.{fetch_endpoints, read_response, read_node}
use skylb.Hub.Updates.{notify, update_endpoints}
use skylb.Hub.Updates.Laws.{update_endpoints-silent}
use skylb.Examples.Cluster.{cluster, Store}
use skylb.Hub.Endpoints.{
  ServiceEndpoint, to_string, EndpointsMap, diff_endpoints, skypb_endpoints_to_slice,
  skypb_endpoints_to_map,
}
use skylb.Hub.Endpoints.Diff.{apply_updates, updated, apply_updates-diff_endpoints}
use skylb.Hub.Endpoints.Convert.{
  index, index-skypb_endpoints_to_slice, IsServed, In-skypb_endpoints_to_slice,
}
use skylb.Hub.Register.Laws.{registered}
use skylb.Examples.Registry.{shop}

abbrev first : ServiceEndpoint
first = record { ip = lit "10.0.0.1"; port = pos 80; weight = pos 1 }

abbrev second : ServiceEndpoint
second = record { ip = lit "10.0.0.2"; port = pos 80; weight = pos 2 }

abbrev third : ServiceEndpoint
third = record { ip = lit "10.0.0.3"; port = pos 80; weight = pos 3 }

abbrev last_map : EndpointsMap
last_map = (to_string first, first) ∷ (to_string second, second) ∷ []

abbrev no_map : EndpointsMap
no_map = []

abbrev now_map : EndpointsMap
now_map = (to_string second, second) ∷ (to_string third, third) ∷ []

third-ne-second : get (to_string second) ((to_string third, third) ∷ []) ≡ none
unfolding get to_string
third-ne-second = refl

nothing-third : get (to_string third) no_map ≡ none
unfolding get
nothing-third = refl

apply_updates-diff_endpoints_example :
    get
      (to_string third)
      (apply_updates (diff_endpoints shop last_map now_map).inst_endpoints last_map)
    ≡ updated (get (to_string third) last_map) (get (to_string third) now_map)
apply_updates-diff_endpoints_example =
    apply_updates-diff_endpoints shop last_map now_map (to_string third) (refl, (refl, tt))
      (refl, (refl, tt)) (third-ne-second, (nothing-third, tt))

abbrev shop_object : Endpoints
shop_object = endpoint_object shop (lit "10.0.0.1") (pos 8080) (pos 5)

index-skypb_endpoints_to_slice_example :
    index (skypb_endpoints_to_slice Operation.add shop shop_object).inst_endpoints []
    ≡ skypb_endpoints_to_map shop shop_object
index-skypb_endpoints_to_slice_example =
    index-skypb_endpoints_to_slice Operation.add shop shop_object

abbrev served : InstanceEndpoint
served = registered Operation.add (lit "10.0.0.1") (pos 8080) (pos 5)

In-skypb_endpoints_to_slice_example :
    In served (skypb_endpoints_to_slice Operation.add shop shop_object).inst_endpoints
    ↔ IsServed Operation.add shop shop_object served
In-skypb_endpoints_to_slice_example =
    In-skypb_endpoints_to_slice Operation.add shop shop_object served

abbrev shop_key : Str
shop_key = calculate_key cluster (lit "default") (lit "shop")

abbrev watched : ServiceObject
watched = record {
  spec = shop;
  endpoints = [];
  observers =
      record {
        spec = shop;
        client_addr = lit "10.0.1.1:50000";
        resolve_full = false;
        notify_ch = 0;
        stop_ch = 1;
      }
      ∷ [];
}

abbrev hub : EndpointsHub
hub = record init { services = (shop_key, watched) ∷ [] }

hub-watched : get shop_key hub.services ≡ some watched
unfolding get
hub-watched = rw (=?_refl shop_key)

-- The endpoint at 10.0.0.1 is gone.
abbrev deleted : Response
deleted = record {
  action = lit "delete";
  node = none;
  prev_node = some (
      node (calculate_endpoint_key cluster (lit "default") (lit "shop") (lit "10.0.0.1") (pos 8080))
        false [] (pos 0) nil);
}

abbrev empty_store : Store
empty_store = []

nothing-fetched :
    (fetch_endpoints cluster (lit "default") (lit "shop") empty_store).0 ≡ ok no_endpoints
unfolding fetch_endpoints read_response read_node
nothing-fetched = refl

nothing-served : (skypb_endpoints_to_slice Operation.add shop no_endpoints).inst_endpoints ≡ []
unfolding skypb_endpoints_to_slice
nothing-served = refl

update_endpoints-silent_example :
    (new : List Notification) × ((update_endpoints cluster shop_key hub empty_store).0.notifications
      ≡ [] ++ new)
    × ((n : Notification) (stop_wins : Bool) (later : EndpointsHub)
        → In n new
        → notify stop_wins n later ≡ some later)
update_endpoints-silent_example =
    update_endpoints-silent cluster shop_key hub empty_store watched no_endpoints hub-watched
      nothing-fetched nothing-served
