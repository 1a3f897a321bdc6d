-- ===== src/Rpc/Server.antt =====
-- rpc/server.go: the Resolve and ReportLoad methods. What a stream delivers and what the select
-- statement finds are lists: `events` for Resolve, `reports` for ReportLoad. Metrics and logs are
-- left out.
pub mod Updates
pub mod Cleanup
pub mod Reports
use skylb.Prelude.{
  ℕ, ◌≡◌, Bool, true, false, List, [], ◌∷◌, Option, none, some, Str, ℤ, pos, ltz, if◌then◌else◌,
  ◌=?◌, str_eq,
}
use skylb.Go.Strings.{lit, index, take_bytes}
use skylb.Go.Strconv.{itoa}
use skylb.Go.Maps.{GoMap, get, put}
use skylb.Api.{Operation, ServiceSpec, ServiceEndpoints, EtcdError}
use skylb.Deps.{Deps}
use skylb.Hub.State.{EndpointsUpdate, EndpointsHub}
use skylb.Hub.Observers.{Added, observing, failed, waiting, add_observer, remove_observer}
use skylb.Hub.Register.{insert_endpoint, upsert_endpoint}
use skylb.Hub.Tracking.{track_all, untrack_all}

unfoldable pub op_to_string : Operation → Str
op_to_string Operation.add = lit "ADD"
op_to_string Operation.delete = lit "DELETE"

-- How the sending of a response ends.
pub data SendResult : Type 0 where
  sent send_error timed_out : SendResult

-- What one round of the loop finds: the timer, the closed channel, or an update, with the way in
-- which its sending would end.
pub data Event : Type 0 where
  auto_disconnect closed : Event
  received : EndpointsUpdate → SendResult → Event

-- How Resolve ends; `running` says that the loop still waits for an event.
pub data Outcome : Type 0 where
  running done no_peer no_specs notify_timeout stream_error : Outcome
  add_failed : EtcdError → Outcome
  add_waits : Outcome

-- The value of a map of numbers at a key that may be missing.
abbrev pub or_zero : Option ℤ → ℤ
or_zero none = pos 0
or_zero (some id) = id

-- A response that was sent lets the loop go on; otherwise the stream is abandoned.
abbrev pub deliver :
    SendResult → EndpointsUpdate → List EndpointsUpdate × Outcome → List EndpointsUpdate × Outcome
deliver sent up rest = (up ∷ rest.0, rest.1)
deliver send_error up rest = (up ∷ [], stream_error)
deliver timed_out up rest = (up ∷ [], notify_timeout)

module _ (spec_string : ServiceSpec → Str) where
  -- maxIds[spec.String()]
  abbrev pub max_id : GoMap Str ℤ → EndpointsUpdate → ℤ
  max_id max_ids up = or_zero (get (spec_string up.endpoints.spec) max_ids)

  unfoldable pub init_max_ids : List ServiceSpec → GoMap Str ℤ → GoMap Str ℤ
  init_max_ids [] max_ids = max_ids
  init_max_ids (spec ∷ specs) max_ids = init_max_ids specs (put (spec_string spec) (pos 0) max_ids)

  -- The loop: what was sent to the stream, in order, and how the loop ended.
  unfoldable pub serve : GoMap Str ℤ → List Event → List EndpointsUpdate × Outcome
  serve max_ids [] = ([], running)
  serve max_ids (auto_disconnect ∷ events) = ([], done)
  serve max_ids (closed ∷ events) = ([], done)
  serve max_ids (received up result ∷ events) =
      let skipped = serve max_ids events in
      let rest = serve (put (spec_string up.endpoints.spec) up.id max_ids) events in
      if ltz up.id (max_id max_ids up) then skipped else deliver result up rest

pub record ResolveRequest : Type 0 where
  pub caller_service_name : Str
  pub services : List ServiceSpec
  pub resolve_full_endpoints : Bool

pub record LoadReport : Type 0 where
  pub spec : ServiceSpec
  pub port : ℤ
  pub weight : ℤ
  pub fixed_host : Str

pub data ReportOutcome : Type 0 where
  receive_failed : ReportOutcome
  write_failed : EtcdError → ReportOutcome

-- The peer's host name: the address up to its first colon.
unfoldable pub peer_host : Str → Str
peer_host addr = elim (index b':' addr) [ none ↦ addr | some n ↦ take_bytes n addr ]

-- The fixed host of the report, if it has one.
unfoldable pub report_host : Str → LoadReport → Str
report_host host req = if req.fixed_host =? [] then host else req.fixed_host

module _ (d : Deps) where
  open d use {World, spec_string, lameduck_host_port, is_lameduck_mode}

  -- The end of the loop. The deferred calls run in the reverse of their order.
  pub finish :
      ResolveRequest
      → Str
      → List EndpointsUpdate
      → Outcome
      → EndpointsHub
      → World
      → List EndpointsUpdate × Outcome × EndpointsHub × World
  finish req addr updates running h w = (updates, running, h, w)
  finish req addr updates outcome h w = (
    updates,
    outcome,
    untrack_all d req.caller_service_name req.services (remove_observer d req.services addr h),
    w,
  )

  -- What follows AddObserver.
  pub follow :
      ResolveRequest
      → Str
      → List Event
      → (EndpointsHub × World → EndpointsHub × World)
      → Added
      → EndpointsHub
      → World
      → List EndpointsUpdate × Outcome × EndpointsHub × World
  unfolding finish serve init_max_ids
  follow req addr events during (failed e) h w =
      ([], add_failed e, untrack_all d req.caller_service_name req.services h, w)
  follow req addr events during waiting h w = ([], add_waits, h, w)
  follow req addr events during (observing ch) h w =
      let served = serve spec_string (init_max_ids spec_string req.services []) events in
      let later = during (h, w) in finish req addr served.0 served.1 later.0 later.1

  abbrev is_empty {ℓ} : {A : Type ℓ} → List A → Bool
  is_empty [] = true
  is_empty (x ∷ xs) = false

  -- The state in which the loop of a request starts.
  abbrev pub opened : ResolveRequest → Str → EndpointsHub → World → Added × EndpointsHub × World
  opened req addr h w =
      let start = track_all d req.caller_service_name req.services h w in
      add_observer d req.services addr req.resolve_full_endpoints start.0 start.1

  -- Resolve for a request from the peer: `during` is what the rest of the program does to the state
  -- while the loop runs.
  pub resolve :
      ResolveRequest
      → Option Str
      → List Event
      → (EndpointsHub × World → EndpointsHub × World)
      → EndpointsHub
      → World
      → List EndpointsUpdate × Outcome × EndpointsHub × World
  unfolding follow
  resolve req none events during h w = ([], no_peer, h, w)
  resolve req (some addr) events during h w =
      let start = opened req addr h w in
      let rest = follow req addr events during start.0 start.1 start.2 in
      if is_empty req.services then ([], no_specs, h, w) else rest

  -- The loop of ReportLoad over the reports that the stream delivers before it fails.
  pub accept_reports : Bool → Str → List LoadReport → World → ReportOutcome × World
  accept_reports first host [] w = (receive_failed, w)
  accept_reports first host (req ∷ reqs) w =
      let h = report_host host req in
      let (e₁, w₁) =
        if first then insert_endpoint d req.spec h req.port req.weight w else (none, w) in
      elim e₁ [
        | some e ↦ (write_failed e, w₁)
        | none ↦
            let masked = accept_reports false host reqs w₁ in
            let (e₂, w₂) = upsert_endpoint d req.spec h req.port req.weight w₁ in
            let next : ReportOutcome × World = elim e₂ [
              | some e ↦ (write_failed e, w₂)
              | none ↦ accept_reports false host reqs w₂
            ] in
            if is_lameduck_mode (lameduck_host_port h (itoa req.port)) w₁ then masked else next
      ]

  pub report_load : Str → List LoadReport → World → ReportOutcome × World
  unfolding accept_reports
  report_load addr reports w = accept_reports true (peer_host addr) reports w
