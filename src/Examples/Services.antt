-- ===== src/Examples/Services.antt =====
-- A service object of hub/model with one observer.
use skylb.Prelude.{ℕ, ◌≡◌, refl, true, false, List, [], ◌∷◌, none, In, inl}
use skylb.Go.Strings.{lit}
use skylb.Hub.Model.{
  ClientObserver, Model, notify, remove_observers, adding, removing, rectifying, calls, Call,
}
use skylb.Hub.Rectifier.{Move}
use skylb.Hub.Model.Lifecycle.{IsTicking, fresh, calls-IsTicking}
use skylb.Hub.Model.Closing.{remove_observers-closes}
use skylb.Examples.Cluster.{cluster}
use skylb.Examples.Registry.{shop}

abbrev clients : ℕ → ClientObserver
clients id = record {
  spec = shop;
  client_addr = lit "10.0.1.1:50000";
  closed = false;
  notify_ch = id;
}

abbrev come_and_go : List (Call cluster.spec_string)
come_and_go =
    adding 1
    ∷ rectifying 0 Move.reading
    ∷ adding 2
    ∷ removing (lit "10.0.1.1:50000")
    ∷ rectifying 0 Move.ticking
    ∷ rectifying 0 Move.reading
    ∷ adding 3
    ∷ rectifying 1 Move.reading
    ∷ rectifying 1 Move.ticking
    ∷ []

calls-IsTicking_example :
    IsTicking (calls cluster.spec_string come_and_go (fresh shop true clients))
calls-IsTicking_example = calls-IsTicking cluster.spec_string shop true clients come_and_go

abbrev observed_model : Model
observed_model = record {
  service = record {
    stop_ch = none;
    spec = shop;
    key = [];
    endpoints = none;
    observers = 1 ∷ 2 ∷ [];
    has_listener = true;
  };
  clients = clients;
  next_channel = 0;
  stopped = [];
  tickers = [];
  told = [];
  notifying = [];
  delivered = [];
}

remove_observers-closes_example :
    (In 1
        (remove_observers cluster.spec_string
          (lit "10.0.1.1:50000")
          observed_model).service.observers
      → ⊥)
    × (notify 1 none false
          (remove_observers cluster.spec_string (lit "10.0.1.1:50000") observed_model)
        ≡ remove_observers cluster.spec_string (lit "10.0.1.1:50000") observed_model)
remove_observers-closes_example =
    remove_observers-closes cluster.spec_string (lit "10.0.1.1:50000") observed_model 1 none false
      (inl refl) refl
