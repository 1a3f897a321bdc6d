-- ===== src/Hub/Model.antt =====
-- hub/model: a service object with its observers. An observer is a number, and `clients` is what the
-- pointers to the observers point to, so a closed observer is closed for all who hold it. A goroutine
-- that runs Notify is an entry of `notifying`; `tickers` are the rectification goroutines, in the order
-- in which they were started, and `told` are the keys with which they have called the listener.
pub mod Lifecycle
pub mod Closing
use skylb.Prelude.{
  ℕ, ◌+◌, Bool, true, false, ◌&&◌, List, [], ◌∷◌, ◌++◌, Option, none, some, Str, if◌then◌else◌,
  ◌=?◌, str_eq, map, ◌==◌,
}
use skylb.Api.{ServiceSpec, ServiceEndpoints}
use skylb.Hub.Key.{util_calculate_key}
use skylb.Hub.Rectifier.{Rectifier, at_loop, Move, advance_at, rings_at}

pub record ClientObserver : Type 0 where
  pub spec : ServiceSpec
  pub client_addr : Str
  pub closed : Bool
  pub notify_ch : ℕ

pub record Service : Type 0 where
  pub stop_ch : Option ℕ
  pub spec : ServiceSpec
  pub key : Str
  pub endpoints : Option ServiceEndpoints
  pub observers : List ℕ
  pub has_listener : Bool

pub record Model : Type 0 where
  pub service : Service
  pub clients : ℕ → ClientObserver
  pub next_channel : ℕ
  pub stopped : List ℕ
  pub tickers : List Rectifier
  pub told : List Str
  pub notifying : List (ℕ × Option ServiceEndpoints)
  pub delivered : List (ℕ × Option ServiceEndpoints)

unfoldable pub new_client_observer : ServiceSpec → Str → ℕ → ClientObserver
new_client_observer spec client_addr notify_ch = record {
  spec = spec;
  client_addr = client_addr;
  closed = false;
  notify_ch = notify_ch;
}

pub new_service_object : ServiceSpec → Bool → Service
new_service_object spec has_listener = record {
  stop_ch = none;
  spec = spec;
  key = util_calculate_key spec.namespace spec.service_name;
  endpoints = some (record { spec = spec; inst_endpoints = [] });
  observers = [];
  has_listener = has_listener;
}

-- co.Close()
pub close : ℕ → (ℕ → ClientObserver) → ℕ → ClientObserver
close id clients j = if j == id then record (clients id) { closed = true } else clients j

-- co.Notify(eps), where `late` says that the timer fires before the channel takes the endpoints.
unfoldable pub notify : ℕ → Option ServiceEndpoints → Bool → Model → Model
notify id eps late m =
    if (m.clients id).closed
    then m
    else if late
    then m
    else record m { delivered = m.delivered ++ ((m.clients id).notify_ch, eps) ∷ [] }

-- The goroutine of AddObserver that rectifies is started for the first observer.
abbrev pub start_for : List ℕ → Model → Model
start_for [] m = record m {
  service = record m.service { stop_ch = some m.next_channel };
  next_channel = m.next_channel + 1;
  tickers = m.tickers ++ at_loop ∷ [];
}
start_for (o ∷ os) m = m

pub start_ticker : Model → Model
start_ticker m = start_for m.service.observers m

-- The endpoints that a new observer is told, if there are any.
pub initial_notice : ℕ → Option ServiceEndpoints → List (ℕ × Option ServiceEndpoints)
initial_notice id none = []
initial_notice id (some eps) = elim eps.inst_endpoints [ [] ↦ [] | e ∷ es ↦ (id, some eps) ∷ [] ]

unfoldable pub add_observer : ℕ → Model → Model
unfolding start_ticker initial_notice
add_observer id m =
    let m' = start_ticker m in
    record m' {
      service = record m'.service { observers = m'.service.observers ++ id ∷ [] };
      notifying = m'.notifying ++ initial_notice id m'.service.endpoints;
    }

pub set_endpoints : Option ServiceEndpoints → Model → Model
set_endpoints eps m = record m {
  service = record m.service { endpoints = eps };
  notifying = m.notifying ++ map (λ id. (id, eps)) m.service.observers;
}

-- The end of the rectification goroutine with the last observer.
abbrev pub stop_for : List ℕ → Option ℕ → Model → Model
stop_for (o ∷ os) stop_ch m = m
stop_for [] none m = m
stop_for [] (some ch) m = record m {
  service = record m.service { stop_ch = none };
  stopped = ch ∷ m.stopped;
}

pub stop_ticker : Model → Model
stop_ticker m = stop_for m.service.observers m.service.stop_ch m

-- A move of one of the goroutines of startAutoRectify: a tick that it takes calls the listener, if
-- there is one.
pub rectify : ℕ → Move → Model → Model
rectify n move m = record m {
  tickers = advance_at n move m.service.stop_ch m.stopped m.tickers;
  told =
      if rings_at n move m.tickers && m.service.has_listener
      then m.told ++ m.service.key ∷ []
      else m.told;
}

-- Nothing is done for an empty list.
abbrev pub unless_empty : List ℕ → Model → Model → Model
unless_empty [] m m' = m
unless_empty (o ∷ os) m m' = m'

module _ (spec_string : ServiceSpec → Str) where
  abbrev pub is_observer_of : ServiceSpec → Str → ClientObserver → Bool
  is_observer_of spec client_addr co =
      co.client_addr =? client_addr && spec_string co.spec =? spec_string spec

  -- The loop of RemoveObservers: the observers that remain, and the clients after the closing.
  pub remove_loop :
      ServiceSpec → Str → List ℕ → (ℕ → ClientObserver) → List ℕ × (ℕ → ClientObserver)
  unfolding close
  remove_loop spec client_addr [] clients = ([], clients)
  remove_loop spec client_addr (id ∷ ids) clients =
      let gone = remove_loop spec client_addr ids (close id clients) in
      let kept = remove_loop spec client_addr ids clients in
      if is_observer_of spec client_addr (clients id) then gone else (id ∷ kept.0, kept.1)

  pub remove_observers : Str → Model → Model
  unfolding remove_loop stop_ticker
  remove_observers client_addr m =
      let left = remove_loop m.service.spec client_addr m.service.observers m.clients in
      let m' =
        stop_ticker
          (record m { service = record m.service { observers = left.0 }; clients = left.1 }) in
      unless_empty m.service.observers m m'

  -- The calls on a service object and its observers, in the order in which they take the locks, and the
  -- moves of its goroutines.
  pub data Call : Type 0 where
    adding : ℕ → Call
    removing : Str → Call
    setting : Option ServiceEndpoints → Call
    notifying_one : ℕ → Option ServiceEndpoints → Bool → Call
    rectifying : ℕ → Move → Call

  pub call : Call → Model → Model
  unfolding add_observer remove_observers set_endpoints notify rectify
  call (adding id) m = add_observer id m
  call (removing client_addr) m = remove_observers client_addr m
  call (setting eps) m = set_endpoints eps m
  call (notifying_one id eps late) m = notify id eps late m
  call (rectifying n move) m = rectify n move m

  pub calls : List Call → Model → Model
  calls [] m = m
  calls (c ∷ cs) m = calls cs (call c m)
