-- ===== src/Cmd/Health.antt =====
-- cmd/grpchealth/healthlib.go: the health checks of the listed services, as the calls that they make on
-- the Prometheus metrics, in order. The clients, the names and the codes of grpc and of skylb-api are
-- parameters; the latency histograms are left out.
pub mod Rates
use skylb.Prelude.{
  ℕ, zero, suc, ◌+◌, Bool, true, false, List, [], ◌∷◌, ◌++◌, Option, none, some, Str, ℤ,
  if◌then◌else◌, length, ◌=?◌, str_eq, int_eq,
}
use skylb.Go.Strings.{lit}
use skylb.Go.Strconv.{itoa}
use skylb.Go.Maps.{GoMap, get, put}
use skylb.Prelude.Results.{Result, ok, err}
use skylb.Api.{EtcdError, InstanceEndpoint, ServiceEndpoints}

-- What Check answers: success, or a code, and whether IsSafeError takes the error for harmless.
pub data Checked : Type 0 where
  healthy : Checked
  failing : Str → Bool → Checked

-- A call on a metric: of the gauge by service, code and type, of the rate by service and type with the
-- two numbers that are divided, and of the counters of dials and of started checks.
pub data Event : Type 0 where
  reset_gauge : Event
  set_gauge : Str → Str → Str → ℕ → Event
  inc_gauge : Str → Str → Str → Event
  set_zero_rate : Str → Str → Event
  set_rate : Str → Str → ℕ → ℕ → Event
  inc_dials : Str → Str → Event
  inc_starts : Str → Str → Event

pub record HealthDeps : Type 1 where
  pub World : Type 0
  pub Client : Type 0
  pub check : Client → World → Checked × World
  pub dial : Str → World → Option Client × World
  pub start_client : ℤ → World → Option Client × World
  pub name_to_id : Str → Option ℤ
  pub enable_raw_grpc : Bool
  pub enable_renew_skylb : Bool

abbrev pub not_applicable : Str
not_applicable = lit "NA"

abbrev pub raw_grpc : Str
raw_grpc = lit "grpc"

abbrev pub reuse : Str
reuse = lit "reuse"

abbrev pub renew : Str
renew = lit "renew"

-- What a check leaves: the events, whether it counts as a success, and the state.
abbrev pub outcome_of : Str → Str → Checked → List Event × Bool
outcome_of name kind healthy = (inc_gauge name (lit "OK") kind ∷ [], true)
outcome_of name kind (failing code safe) = (inc_gauge name code kind ∷ [], safe)

abbrev pub count_of : Bool → ℕ → ℕ
count_of true n = suc n
count_of false n = n

module _ (d : HealthDeps) where
  open d use {
    World, Client, check, dial, start_client, name_to_id, enable_raw_grpc, enable_renew_skylb,
  }

  -- The loop of checkServiceSkylb: its events, the number of successes, and the state.
  pub check_times : Client → Str → Str → ℕ → World → List Event × ℕ × World
  check_times cli name kind zero w = ([], 0, w)
  check_times cli name kind (suc n) w =
      let (answer, w1) = check cli w in
      let (events, good) = outcome_of name kind answer in
      let (later, success, w2) = check_times cli name kind n w1 in
      (inc_starts name kind ∷ events ++ later, count_of good success, w2)

  pub check_service_skylb : Option Client → ℕ → Str → Str → World → List Event × World
  unfolding check_times
  check_service_skylb none count name kind w =
      (set_gauge name not_applicable kind 0 ∷ set_zero_rate name kind ∷ [], w)
  check_service_skylb (some cli) count name kind w =
      let (events, success, w1) = check_times cli name kind count w in
      (events ++ set_rate name kind success count ∷ [], w1)

  -- The state of the package: the clients that are kept, by service id.
  abbrev pub Clients : Type 0
  Clients = GoMap ℤ (Option Client)

  abbrev pub kept : Option (Option Client) → Option Client
  kept none = none
  kept (some c) = c

  abbrev pub reuse_client :
      ℤ → Str → Option Client → Clients → World → Option Client × List Event × Clients × World
  reuse_client id name (some c) clients w = (some c, [], clients, w)
  reuse_client id name none clients w =
      let (c, w1) = start_client id w in (c, inc_dials name reuse ∷ [], put id c clients, w1)

  pub check_service_reuse : ℤ → Str → ℕ → Clients → World → List Event × Clients × World
  unfolding check_service_skylb
  check_service_reuse id name count clients w =
      let (c, dials, clients1, w1) = reuse_client id name (kept (get id clients)) clients w in
      let (events, w2) = check_service_skylb c count name reuse w1 in
      (dials ++ events, clients1, w2)

  pub check_service : ℤ → Str → ℕ → World → List Event × World
  unfolding check_service_skylb
  check_service id name count w =
      let (c, w1) = start_client id w in
      let (events, w2) = check_service_skylb c count name renew w1 in
      (inc_dials name renew ∷ events, w2)

  -- fmt.Sprintf("%s:%d", iep.Host, iep.Port)
  abbrev pub address_of : InstanceEndpoint → Str
  address_of iep = iep.host ++ b':' ∷ itoa iep.port

  -- The inner function of CheckServiceRawGrpc.
  abbrev pub check_dialed : Str → Option Client × World → List Event × Bool × World
  check_dialed name (none, w) = ([], false, w)
  check_dialed name (some cli, w) =
      let (answer, w1) = check cli w in
      let (events, good) = outcome_of name raw_grpc answer in
      (inc_starts name raw_grpc ∷ events, good, w1)

  pub check_instances : Str → List InstanceEndpoint → World → List Event × ℕ × World
  check_instances name [] w = ([], 0, w)
  check_instances name (iep ∷ ieps) w =
      let (events, good, w1) = check_dialed name (dial (address_of iep) w) in
      let (later, success, w2) = check_instances name ieps w1 in
      (inc_dials name raw_grpc ∷ events ++ later, count_of good success, w2)

  pub check_service_raw_grpc : Str → List InstanceEndpoint → World → List Event × World
  unfolding check_instances
  check_service_raw_grpc name ieps w =
      let (events, success, w1) = check_instances name ieps w in
      (events ++ set_rate name raw_grpc success (length ieps) ∷ [], w1)

  pub raw_if_enabled : Bool → Str → List InstanceEndpoint → World → List Event × World
  unfolding check_service_raw_grpc
  raw_if_enabled true name ieps w = check_service_raw_grpc name ieps w
  raw_if_enabled false name ieps w = ([], w)

  pub renew_if_enabled : Bool → ℤ → Str → ℕ → World → List Event × World
  unfolding check_service
  renew_if_enabled true id name count w = check_service id name count w
  renew_if_enabled false id name count w = ([], w)

  -- The checks of a service that has an id.
  pub check_known : ℤ → Str → List InstanceEndpoint → Clients → World → List Event × Clients × World
  unfolding raw_if_enabled renew_if_enabled check_service_reuse
  check_known id name ieps clients w =
      let (raw, w1) = raw_if_enabled enable_raw_grpc name ieps w in
      let (reused, clients1, w2) = check_service_reuse id name (length ieps) clients w1 in
      let (renewed, w3) = renew_if_enabled enable_renew_skylb id name (length ieps) w2 in
      (raw ++ reused ++ renewed, clients1, w3)

  -- One round of CheckAllServices.
  pub check_listed : Str → List InstanceEndpoint → Clients → World → List Event × Clients × World
  unfolding check_known
  check_listed name [] clients w = (
    set_gauge name not_applicable not_applicable 0 ∷ set_zero_rate name not_applicable ∷ [],
    clients,
    w,
  )
  check_listed name (iep ∷ ieps) clients w = elim (name_to_id name) [
    | none ↦ ([], clients, w)
    | some id ↦ check_known id name (iep ∷ ieps) clients w
  ]

  pub check_each : List ServiceEndpoints → Clients → World → List Event × Clients × World
  unfolding check_listed
  check_each [] clients w = ([], clients, w)
  check_each (seps ∷ rest) clients w =
      let (events, clients1, w1) =
        check_listed seps.spec.service_name seps.inst_endpoints clients w in
      let (later, clients2, w2) = check_each rest clients1 w1 in (events ++ later, clients2, w2)

  -- CheckAllServices, on what ListServices returns.
  pub check_all_services :
      Result EtcdError (List ServiceEndpoints) → Clients → World → List Event × Clients × World
  unfolding check_each
  check_all_services (err e) clients w = ([], clients, w)
  check_all_services (ok listed) clients w =
      let (events, clients1, w1) = check_each listed clients w in
      (reset_gauge ∷ events, clients1, w1)
