-- ===== src/Examples/Interleaving.antt =====
-- The theorems on the runs of the hub at concrete inputs.
use skylb.Prelude.{Str, In, ◌≡◌, refl, false, [], ◌∷◌, some, pos, arith, str_eq, nat_eq, inc_int64}
use skylb.Go.Strings.{lit}
use skylb.Go.Maps.{get}
use skylb.Api.{Operation, InstanceEndpoint, no_endpoints}
use skylb.Hub.State.{ClientObject, ServiceObject, EndpointsHub, Channel, init}
use skylb.Hub.Key.{calculate_key}
use skylb.Hub.State.{send}
use skylb.Go.Maps.{put}
use skylb.Hub.Observers.{
  remove_observer, append_observer, start_observing, enter, chan_cap_multiplication,
}
use skylb.Hub.Watcher.{open_channel, Run, updated, removed, done, then_step, k8s_updated}
use skylb.Hub.Watcher.Stays.{StaysBut}
use skylb.Hub.Watcher.Stays.{StaysBut}
use skylb.Hub.Watcher.Runs.{is_removed_in, Run-StaysBut, start_observing-append_observer}
use skylb.Hub.Watcher.Order.{served, notified_in_reverse}
use skylb.Examples.Cluster.{cluster, Store}
use skylb.Examples.Registry.{shop}

abbrev observer : ClientObject
observer = record {
  spec = shop;
  client_addr = lit "10.0.0.7";
  resolve_full = false;
  notify_ch = 0;
  stop_ch = 1;
}

abbrev watched_service : ServiceObject
watched_service = record { spec = shop; endpoints = []; observers = observer ∷ [] }

abbrev first_instance : InstanceEndpoint
first_instance = record { op = Operation.add; host = lit "10.0.0.1"; port = pos 80; weight = pos 0 }

abbrev second_instance : InstanceEndpoint
second_instance = record {
  op = Operation.add;
  host = lit "10.0.0.2";
  port = pos 80;
  weight = pos 0;
}

abbrev channel : Channel
channel = record { capacity = 10; buffer = [] }

abbrev busy : EndpointsHub
busy = record init {
  services = (lit "shop", watched_service) ∷ [];
  channels = (0, channel) ∷ [];
  notifications =
      record { observer = observer; endpoints = served shop first_instance [] }
      ∷ record { observer = observer; endpoints = served shop second_instance [] }
      ∷ [];
}

abbrev nothing : Store
nothing = []

-- An update of Kubernetes, and then RemoveObserver for another client.
one_update :
    Run cluster
      (busy, nothing)
      (
        remove_observer cluster
            (shop ∷ [])
            (lit "10.0.0.8")
            (k8s_updated cluster no_endpoints busy),
        nothing,
      )
one_update =
    then_step _ _ _ (updated no_endpoints busy nothing)
      (then_step _ _ _ (removed shop (lit "10.0.0.8") _ nothing) (done _))

Run-StaysBut_example :
    StaysBut cluster
      (λ ob. is_removed_in cluster ob one_update)
      (lit "shop")
      watched_service
      (remove_observer cluster (shop ∷ []) (lit "10.0.0.8") (k8s_updated cluster no_endpoints busy))
unfolding get
Run-StaysBut_example =
    Run-StaysBut cluster (lit "shop") watched_service (busy, nothing)
      (
        remove_observer cluster (shop ∷ []) (lit "10.0.0.8")
            (k8s_updated cluster no_endpoints busy),
        nothing,
      )
      one_update refl

abbrev shop_key : Str
shop_key = calculate_key cluster shop.namespace shop.service_name

abbrev opened_hub : EndpointsHub
opened_hub = open_channel cluster (shop ∷ []) init

-- The hub that leaves the critical section for the shop.
entered_hub : (h : EndpointsHub) × (start_observing cluster shop no_endpoints 0 opened_hub ≡ some h)
unfolding open_channel start_observing enter send get put chan_cap_multiplication
entered_hub = (_, refl)

abbrev meanwhile : EndpointsHub
meanwhile = k8s_updated cluster no_endpoints entered_hub.0

abbrev joined : EndpointsHub
joined = append_observer shop_key observer meanwhile

start_observing-append_observer_example :
    (so : ServiceObject) × (get shop_key (k8s_updated cluster no_endpoints joined).services
      ≡ some so)
    × In observer so.observers
start_observing-append_observer_example =
    start_observing-append_observer cluster shop no_endpoints 0 opened_hub entered_hub.0 nothing
      (meanwhile, nothing) (k8s_updated cluster no_endpoints joined, nothing) observer
      (then_step _ _ _ (updated no_endpoints joined nothing) (done _)) entered_hub.1
      (then_step _ _ _ (updated no_endpoints entered_hub.0 nothing) (done _)) refl

notified_in_reverse_example :
    (after : EndpointsHub) × Run cluster (busy, nothing) (after, nothing)
    × (get 0 after.channels
        ≡ some (record {
          capacity = 10;
          buffer =
              record {
                id = inc_int64 busy.next_update_id;
                endpoints = served shop second_instance [];
              }
              ∷ record {
                id = inc_int64 (inc_int64 busy.next_update_id);
                endpoints = served shop first_instance [];
              }
              ∷ [];
        }))
unfolding get
notified_in_reverse_example =
    notified_in_reverse cluster observer shop first_instance second_instance [] [] busy nothing
      channel refl refl refl (omega arith)
