-- ===== src/Rpc/Server/Reports.antt =====
-- rpc/server.go: what ReportLoad writes.
use skylb.Prelude.{
  ◌≡◌, refl, ◌∙◌, true, false, List, [], ◌∷◌, none, some, Str, arith, inl, inr, ◌⊎◌, All,
  Option-cases,
}
use skylb.Go.Strconv.{itoa}
use skylb.Api.{EtcdError}
use skylb.Deps.{Deps}
use skylb.Hub.Register.{insert_endpoint}
use skylb.Rpc.Server.{
  LoadReport, receive_failed, write_failed, report_host, peer_host, accept_reports, report_load,
}

module _ (d : Deps) where
  open d use {World, lameduck_host_port, is_lameduck_mode}

  -- The endpoint of the report is a lame duck, whatever happens to the cluster.
  abbrev pub IsLameduck : Str → LoadReport → Type 0
  IsLameduck host req =
      (w : World)
      → is_lameduck_mode (lameduck_host_port (report_host host req) (itoa req.port)) w ≡ true

  masked :
      (host : Str) (reqs : List LoadReport) (w : World)
      → All (IsLameduck host) reqs
      → accept_reports d false host reqs w ≡ (receive_failed, w)
  unfolding accept_reports
  masked host [] w h = refl
  masked host (req ∷ reqs) w h = rw (h.0 w) (masked host reqs w h.1)

  first_report :
      (host : Str) (req : LoadReport) (reqs : List LoadReport) (w : World)
      → IsLameduck host req
      → (insert_endpoint d req.spec (report_host host req) req.port req.weight w).0 ≡ none
      → accept_reports d true host (req ∷ reqs) w
        ≡ accept_reports d false host reqs
            (insert_endpoint d req.spec (report_host host req) req.port req.weight w).1
  unfolding accept_reports
  first_report host req reqs w h e =
      ground (arith, h (insert_endpoint d req.spec (report_host host req) req.port req.weight w).1)

  first_report_fails :
      (host : Str) (req : LoadReport) (reqs : List LoadReport) (w : World) (e : EtcdError)
      → (insert_endpoint d req.spec (report_host host req) req.port req.weight w).0 ≡ some e
      → accept_reports d true host (req ∷ reqs) w ≡ (
        write_failed e,
        (insert_endpoint d req.spec (report_host host req) req.port req.weight w).1,
      )
  unfolding accept_reports
  first_report_fails host req reqs w e q = ground arith

  -- Of the reports of an endpoint that is a lame duck only the first writes: it inserts the endpoint,
  -- and unless that fails every later report is dropped and the cluster stays as it is.
  pub report_load-lameduck :
      (addr : Str) (req : LoadReport) (reqs : List LoadReport) (w : World)
      → All (IsLameduck (peer_host addr)) (req ∷ reqs)
      → let inserted =
          insert_endpoint d req.spec (report_host (peer_host addr) req) req.port req.weight w in
        ((inserted.0 ≡ none) × (report_load d addr (req ∷ reqs) w ≡ (receive_failed, inserted.1)))
        ⊎ ((e : EtcdError) × (inserted.0 ≡ some e)
            × (report_load d addr (req ∷ reqs) w ≡ (write_failed e, inserted.1)))
  unfolding report_load
  report_load-lameduck addr req reqs w h =
      let host = peer_host addr in
      let inserted = insert_endpoint d req.spec (report_host host req) req.port req.weight w in
      elim (Option-cases inserted.0) [
        | inl good ↦
            inl (good, first_report host req reqs w h.0 good ∙ masked host reqs inserted.1 h.1)
        | inr (e, bad) ↦ inr (e, bad, first_report_fails host req reqs w e bad)
      ]
