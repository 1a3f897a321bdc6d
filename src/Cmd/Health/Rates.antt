-- ===== src/Cmd/Health/Rates.antt =====
-- The rates that the health checks set are quotients of a number of successes by a count that is not
-- smaller and not 0.
use skylb.Prelude.{
  ℕ, zero, suc, ◌≤◌, Bool, true, false, List, [], ◌∷◌, ◌++◌, Option, none, some, Str, ℤ, arith,
  length, All, All-append, Option-cases, inl, inr, int_eq,
}
use skylb.Go.Maps.{get}
use skylb.Prelude.Results.{Result, ok, err}
use skylb.Api.{EtcdError, InstanceEndpoint, ServiceEndpoints}
use skylb.Cmd.Health.{
  Event, reset_gauge, set_gauge, inc_gauge, set_zero_rate, set_rate, reuse, inc_dials, inc_starts,
  Checked, healthy, failing, HealthDeps, outcome_of, count_of, raw_grpc, check_times,
  check_service_skylb, Clients, reuse_client, kept, check_service_reuse, check_dialed,
  check_instances, raw_if_enabled, renew_if_enabled, check_known, check_listed, check_each,
  check_all_services, address_of,
}

-- A rate that is set is a success count by a count that is at least as great and at least 1.
abbrev pub IsRate : Event → Type 0
IsRate (set_rate name kind success count) = (success ≤ count) × (1 ≤ count)
IsRate reset_gauge = Unit
IsRate (set_gauge name code kind value) = Unit
IsRate (inc_gauge name code kind) = Unit
IsRate (set_zero_rate name kind) = Unit
IsRate (inc_dials name kind) = Unit
IsRate (inc_starts name kind) = Unit

outcome_of-IsRate : (name kind : Str) (a : Checked) → All IsRate (outcome_of name kind a).0
outcome_of-IsRate name kind healthy = (tt, tt)
outcome_of-IsRate name kind (failing code safe) = (tt, tt)

count_of-le : (b : Bool) (n m : ℕ) → n ≤ m → count_of b n ≤ suc m
count_of-le true n m h = omega arith
count_of-le false n m h = omega arith

module _ (d : HealthDeps) where
  open d use {World, Client}

  check_times-rates :
      (cli : Client) (name kind : Str) (n : ℕ) (w : World)
      → All IsRate (check_times d cli name kind n w).0 × ((check_times d cli name kind n w).1 ≤ n)
  unfolding check_times
  check_times-rates cli name kind zero w = (tt, omega arith)
  check_times-rates cli name kind (suc n) w =
      let a = d.check cli w in
      let rest = check_times-rates cli name kind n a.1 in
      (
        (tt, All-append IsRate _ _ (outcome_of-IsRate name kind a.0) rest.0),
        count_of-le (outcome_of name kind a.0).1 _ n rest.1,
      )

  check_service_skylb-rates :
      (c : Option Client) (count : ℕ) (name kind : Str) (w : World)
      → 1 ≤ count
      → All IsRate (check_service_skylb d c count name kind w).0
  unfolding check_service_skylb
  check_service_skylb-rates none count name kind w h = (tt, (tt, tt))
  check_service_skylb-rates (some cli) count name kind w h =
      let r = check_times-rates cli name kind count w in All-append IsRate _ _ r.0 ((r.1, h), tt)

  reuse_client-rates :
      (id : ℤ) (name : Str) (c : Option Client) (clients : Clients d) (w : World)
      → All IsRate (reuse_client d id name c clients w).1
  reuse_client-rates id name (some c) clients w = tt
  reuse_client-rates id name none clients w = (tt, tt)

  check_service_reuse-rates :
      (id : ℤ) (name : Str) (count : ℕ) (clients : Clients d) (w : World)
      → 1 ≤ count
      → All IsRate (check_service_reuse d id name count clients w).0
  unfolding check_service_reuse
  check_service_reuse-rates id name count clients w h =
      let c = reuse_client d id name (kept d (get id clients)) clients w in
      All-append IsRate c.1 (check_service_skylb d c.0 count name reuse c.3).0
        (reuse_client-rates id name (kept d (get id clients)) clients w)
        (check_service_skylb-rates c.0 count name reuse c.3 h)

  renew_if_enabled-rates :
      (b : Bool) (id : ℤ) (name : Str) (count : ℕ) (w : World)
      → 1 ≤ count
      → All IsRate (renew_if_enabled d b id name count w).0
  unfolding renew_if_enabled
  renew_if_enabled-rates true id name count w h = (tt, check_service_skylb-rates _ count name _ _ h)
  renew_if_enabled-rates false id name count w h = tt

  check_dialed-rates :
      (name : Str) (a : Option Client × World) → All IsRate (check_dialed d name a).0
  check_dialed-rates name (none, w) = tt
  check_dialed-rates name (some cli, w) = (tt, outcome_of-IsRate name raw_grpc (d.check cli w).0)

  check_instances-rates :
      (name : Str) (ieps : List InstanceEndpoint) (w : World)
      → All IsRate (check_instances d name ieps w).0
        × ((check_instances d name ieps w).1 ≤ length ieps)
  unfolding check_instances
  check_instances-rates name [] w = (tt, omega arith)
  check_instances-rates name (iep ∷ ieps) w =
      let a = check_dialed d name (d.dial (address_of d iep) w) in
      let rest = check_instances-rates name ieps a.2 in
      (
        (tt, All-append IsRate _ _ (check_dialed-rates name (d.dial (address_of d iep) w)) rest.0),
        count_of-le a.1 _ (length ieps) rest.1,
      )

  raw_if_enabled-rates :
      (b : Bool) (name : Str) (ieps : List InstanceEndpoint) (w : World)
      → 1 ≤ length ieps
      → All IsRate (raw_if_enabled d b name ieps w).0
  unfolding raw_if_enabled
  raw_if_enabled-rates true name ieps w h =
      let r = check_instances-rates name ieps w in All-append IsRate _ _ r.0 ((r.1, h), tt)
  raw_if_enabled-rates false name ieps w h = tt

  check_known-rates :
      (id : ℤ) (name : Str) (ieps : List InstanceEndpoint) (clients : Clients d) (w : World)
      → 1 ≤ length ieps
      → All IsRate (check_known d id name ieps clients w).0
  unfolding check_known
  check_known-rates id name ieps clients w h =
      let raw = raw_if_enabled d d.enable_raw_grpc name ieps w in
      let reused = check_service_reuse d id name (length ieps) clients raw.1 in
      let renewed = renew_if_enabled d d.enable_renew_skylb id name (length ieps) reused.2 in
      All-append IsRate (raw.0 ++ reused.0) renewed.0
        (All-append IsRate raw.0 reused.0 (raw_if_enabled-rates d.enable_raw_grpc name ieps w h)
          (check_service_reuse-rates id name (length ieps) clients raw.1 h))
        (renew_if_enabled-rates d.enable_renew_skylb id name (length ieps) reused.2 h)

  check_listed-rates :
      (name : Str) (ieps : List InstanceEndpoint) (clients : Clients d) (w : World)
      → All IsRate (check_listed d name ieps clients w).0
  unfolding check_listed
  check_listed-rates name [] clients w = (tt, (tt, tt))
  check_listed-rates name (iep ∷ ieps) clients w = elim (Option-cases (d.name_to_id name)) [
    | inl n ↦ rw (check_listed, n) tt
    | inr (id, e) ↦
        rw (check_listed, e) (check_known-rates id name (iep ∷ ieps) clients w (omega arith))
  ]

  check_each-rates :
      (listed : List ServiceEndpoints) (clients : Clients d) (w : World)
      → All IsRate (check_each d listed clients w).0
  unfolding check_each
  check_each-rates [] clients w = tt
  check_each-rates (seps ∷ rest) clients w =
      All-append IsRate _ _
        (check_listed-rates seps.spec.service_name seps.inst_endpoints clients w)
        (check_each-rates rest _ _)

  -- Each success rate that the checks of all services set, apart from the 0 of a service without
  -- instances or without a client, divides a number of successes by a count that is not smaller, and
  -- the count is not 0.
  pub check_all_services-rates :
      (answer : Result EtcdError (List ServiceEndpoints)) (clients : Clients d) (w : World)
      → All IsRate (check_all_services d answer clients w).0
  unfolding check_all_services
  check_all_services-rates (err e) clients w = tt
  check_all_services-rates (ok listed) clients w = (tt, check_each-rates listed clients w)
