-- ===== src/Examples/Resolving.antt =====
-- Requests of clients and reports of services.
use skylb.Prelude.{
  ℕ, ◌≡◌, ◌≢◌, refl, ◌⊎◌, true, false, List, [], ◌∷◌, none, some, Str, str_eq, ◌=?◌, ℤ, pos, ltz,
  In, inl, inr, All, keep, not, map, if◌then◌else◌, nat_eq,
}
use skylb.Go.Strings.{lit, index, take_bytes}
use skylb.Go.Path.{join_path, dir}
use skylb.Go.Strconv.{itoa}
use skylb.Go.Maps.{get, put}
use skylb.Api.{ServiceSpec, EtcdError, other, ok, err, no_endpoints}
use skylb.Deps.{Deps}
use skylb.Hub.Key.{calculate_key}
use skylb.Hub.Register.{insert_endpoint, fetch_endpoints, read_response, read_node}
use skylb.Hub.State.{ClientObject, EndpointsUpdate, EndpointsHub, init, send}
use skylb.Hub.Observers.{
  observing, failed, add_observer, remove_observer, observe_all, start_observing, append_observer,
  enter, fetch, remove_observer_from_slice, chan_cap_multiplication,
}
use skylb.Hub.Observers.Addition.{IsWatched, add_observer-watches}
use skylb.Hub.Observers.Removal.{
  watches, IsKnown, IsUnwatched, remove_observer-clears, remove_observer_from_slice_lem,
}
use skylb.Hub.Tracking.{track_all, track_service_graph, try_set, graph_key_of}
use skylb.Rpc.Server.{
  Event, closed, received, sent, running, add_failed, ResolveRequest, LoadReport, receive_failed,
  write_failed, serve, init_max_ids, resolve, opened, report_load, peer_host, report_host,
}
use skylb.Rpc.Server.Updates.{IsAscending, SameSpec, resolve-IsAscending, serve_latest}
use skylb.Rpc.Server.Cleanup.{IsCleared, resolve-IsCleared, resolve-leaks}
use skylb.Rpc.Server.Reports.{report_load-lameduck}
use skylb.Examples.Cluster.{cluster, Store}
use skylb.Examples.Registry.{shop}

abbrev cart : ServiceSpec
cart = record { namespace = lit "default"; service_name = lit "cart"; port_name = lit "grpc" }

abbrev addr : Str
addr = lit "10.0.1.1:50000"

abbrev no_keys : Store
no_keys = []

shop-observing : (add_observer cluster (shop ∷ cart ∷ []) addr false init no_keys).0 ≡ observing 0
unfolding add_observer observe_all start_observing append_observer enter fetch send
    chan_cap_multiplication fetch_endpoints read_response read_node get put calculate_key join_path
shop-observing = refl

abbrev both : List ServiceSpec
both = shop ∷ cart ∷ []

add_observer-watches_example :
    IsWatched cluster cart addr 0 (add_observer cluster both addr false init no_keys).1
add_observer-watches_example =
    add_observer-watches cluster both addr false init no_keys 0 cart shop-observing (inr (inl refl))

-- What is watched is known.
watched-IsKnown :
    (spec : ServiceSpec) (h : EndpointsHub)
    → IsWatched cluster spec addr 0 h
    → IsKnown cluster h spec
watched-IsKnown spec h (so, co, e, i, p, q, r) gone = cc

abbrev observed : EndpointsHub
observed = (add_observer cluster both addr false init no_keys).1

observed-IsKnown : All (IsKnown cluster observed) both
observed-IsKnown = (
  watched-IsKnown shop observed
      (add_observer-watches cluster both addr false init no_keys 0 shop shop-observing (inl refl)),
  (
    watched-IsKnown cart observed (
        add_observer-watches cluster both addr false init no_keys 0 cart shop-observing
          (inr (inl refl))),
    tt,
  ),
)

remove_observer-clears_example :
    IsUnwatched cluster cart addr
      (calculate_key cluster (lit "default") (lit "cart"))
      (remove_observer cluster both addr observed)
remove_observer-clears_example =
    remove_observer-clears cluster both addr observed cart observed-IsKnown (inr (inl refl))

abbrev observer : Str → ℕ → ClientObject
observer from stop = record {
  spec = shop;
  client_addr = from;
  resolve_full = false;
  notify_ch = 0;
  stop_ch = stop;
}

abbrev observers : List ClientObject
observers = observer addr 1 ∷ observer (lit "10.0.1.2:50000") 2 ∷ []

remove_observer_from_slice_lem_example :
    remove_observer_from_slice cluster.spec_string observers shop addr ≡ (
      keep (λ ob. not (watches cluster.spec_string shop addr ob)) observers,
      map (λ ob. ob.stop_ch) (keep (watches cluster.spec_string shop addr) observers),
    )
remove_observer_from_slice_lem_example =
    remove_observer_from_slice_lem cluster.spec_string shop addr observers

abbrev update : ℤ → EndpointsUpdate
update id = record { id = id; endpoints = record { spec = shop; inst_endpoints = [] } }

-- The second update comes after a newer one.
abbrev events : List Event
events = received (update (pos 2)) sent ∷ received (update (pos 1)) sent ∷ []

resolve-IsAscending_example :
    IsAscending cluster.spec_string
      (serve cluster.spec_string (init_max_ids cluster.spec_string (shop ∷ []) []) events).0
resolve-IsAscending_example = resolve-IsAscending cluster.spec_string (shop ∷ []) events

events-running :
    (serve cluster.spec_string (init_max_ids cluster.spec_string (shop ∷ []) []) events).1 ≡ running
unfolding serve init_max_ids get put
events-running = refl

serve_latest_example :
    In
      (update (pos 1))
      (serve cluster.spec_string (init_max_ids cluster.spec_string (shop ∷ []) []) events).0
    ⊎ ((v : EndpointsUpdate) × In v
          (serve cluster.spec_string (init_max_ids cluster.spec_string (shop ∷ []) []) events).0
        × SameSpec cluster.spec_string v (update (pos 1))
        × (ltz v.id (pos 1) ≡ false))
serve_latest_example =
    serve_latest cluster.spec_string (shop ∷ []) events (update (pos 1)) events-running
      (inr (inl refl)) refl

abbrev request : ResolveRequest
request = record {
  caller_service_name = lit "page";
  services = both;
  resolve_full_endpoints = false;
}

-- The client goes away after the first update.
abbrev until_closed : List Event
until_closed = received (update (pos 1)) sent ∷ closed ∷ []

closed-ne-running :
    (serve cluster.spec_string (init_max_ids cluster.spec_string both []) until_closed).1 ≢ running
unfolding serve init_max_ids get put
closed-ne-running e = cc

opened-observing : (opened cluster request addr init no_keys).0 ≡ observing 0
unfolding add_observer observe_all start_observing append_observer enter fetch send
    chan_cap_multiplication fetch_endpoints read_response read_node get put calculate_key join_path
    track_all track_service_graph try_set graph_key_of dir
opened-observing = refl

opened-IsKnown : All (IsKnown cluster (opened cluster request addr init no_keys).1) both
unfolding track_all track_service_graph
opened-IsKnown =
    let start = track_all cluster (lit "page") both init no_keys in
    (
      watched-IsKnown shop (opened cluster request addr init no_keys).1 (
          add_observer-watches cluster both addr false start.0 start.1 0 shop opened-observing
            (inl refl)),
      (
        watched-IsKnown cart (opened cluster request addr init no_keys).1 (
            add_observer-watches cluster both addr false start.0 start.1 0 cart opened-observing
              (inr (inl refl))),
        tt,
      ),
    )

resolve-IsCleared_example :
    IsCleared cluster request addr
      (resolve cluster request (some addr) until_closed (λ s. s) init no_keys).2
resolve-IsCleared_example =
    resolve-IsCleared cluster request addr until_closed (λ s. s) init no_keys 0 (λ e. cc)
      opened-observing opened-IsKnown closed-ne-running

-- The cluster where the listing of the cart fails.
abbrev broken : Deps
broken = record cluster {
  etcd_get = λ place w.
      if place =? calculate_key cluster (lit "default") (lit "cart")
      then (err other, w)
      else cluster.etcd_get place w;
}

opened-broken : (opened broken request addr init no_keys).0 ≡ failed other
unfolding add_observer observe_all start_observing append_observer enter fetch send
    chan_cap_multiplication fetch_endpoints read_response read_node get put calculate_key join_path
    track_all track_service_graph try_set graph_key_of dir
opened-broken = refl

shop-fetched :
    (fetch broken shop (track_all broken (lit "page") both init no_keys).1).0 ≡ ok no_endpoints
unfolding fetch fetch_endpoints read_response read_node put calculate_key join_path track_all
    track_service_graph try_set graph_key_of dir
shop-fetched = refl

resolve-leaks_example :
    ((resolve broken request (some addr) until_closed (λ s. s) init no_keys).1 ≡ add_failed other)
    × IsWatched broken shop addr
        (track_all broken (lit "page") both init no_keys).0.next_channel
        (resolve broken request (some addr) until_closed (λ s. s) init no_keys).2
resolve-leaks_example =
    resolve-leaks broken request addr until_closed (λ s. s) init no_keys shop (cart ∷ []) other
      no_endpoints refl opened-broken shop-fetched

abbrev duck_report : LoadReport
duck_report = record { spec = shop; port = pos 8080; weight = pos 5; fixed_host = [] }

is_duck :
    (w : Store)
    → cluster.is_lameduck_mode
        (cluster.lameduck_host_port
          (report_host (peer_host (lit "10.0.0.9:41000")) duck_report)
          (itoa (pos 8080)))
        w
      ≡ true
unfolding report_host peer_host itoa index take_bytes
is_duck w = refl

report_load-lameduck_example :
    let inserted =
      insert_endpoint cluster shop
        (report_host (peer_host (lit "10.0.0.9:41000")) duck_report)
        (pos 8080)
        (pos 5)
        no_keys in
    ((inserted.0 ≡ none)
      × (report_load cluster (lit "10.0.0.9:41000") (duck_report ∷ duck_report ∷ []) no_keys
          ≡ (receive_failed, inserted.1)))
    ⊎ ((e : EtcdError) × (inserted.0 ≡ some e)
        × (report_load cluster (lit "10.0.0.9:41000") (duck_report ∷ duck_report ∷ []) no_keys
            ≡ (write_failed e, inserted.1)))
report_load-lameduck_example =
    report_load-lameduck cluster (lit "10.0.0.9:41000") duck_report (duck_report ∷ []) no_keys
      (is_duck, (is_duck, tt))
