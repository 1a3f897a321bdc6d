-- ===== src/Rpc/Server/Cleanup.antt =====
-- rpc/server.go: what Resolve leaves behind when it ends.
use mathlib.Core.Path.{subst}
use skylb.Prelude.{
  ℕ, ◌≡◌, ◌≢◌, refl, ap, sym, ◌∙◌, List, [], ◌∷◌, none, some, Str, arith, In, All, str_eq,
}
use skylb.Go.Maps.{get}
use skylb.Api.{ServiceSpec, EtcdError, Endpoints, ok}
use skylb.Deps.{Deps}
use skylb.Hub.Key.{calculate_key}
use skylb.Hub.State.{EndpointsHub, EndpointsUpdate}
use skylb.Hub.Observers.{observing, failed, add_observer, remove_observer, fetch}
use skylb.Hub.Observers.Addition.{IsWatched, add_observer-first}
use skylb.Hub.Observers.Removal.{IsKnown, IsUnwatched, remove_observer-clears}
use skylb.Hub.Tracking.{graph_key_of, track_all, untrack_all}
use skylb.Hub.Tracking.Laws.{untrack_all-clears, services-untrack_all}
use skylb.Rpc.Server.{
  Event, Outcome, running, done, add_failed, add_waits, notify_timeout, stream_error,
  ResolveRequest, resolve, serve, init_max_ids, finish, follow, opened, no_peer, no_specs,
}

module _ (d : Deps) where
  open d use {World, spec_string}

  -- Nothing of the request is left in the hub.
  abbrev pub IsCleared : ResolveRequest → Str → EndpointsHub → Type 0
  IsCleared req addr h =
      (spec : ServiceSpec)
      → In spec req.services
      → IsUnwatched d spec addr (calculate_key d spec.namespace spec.service_name) h
        × (get (graph_key_of d spec req.caller_service_name) h.graph_keys ≡ none)

  cleared :
      (req : ResolveRequest) (addr : Str) (h : EndpointsHub)
      → All (IsKnown d h) req.services
      → IsCleared req addr (
          untrack_all d req.caller_service_name req.services
            (remove_observer d req.services addr h))
  cleared req addr h known spec i =
      let gone = remove_observer d req.services addr h in
      (
        (λ so e. remove_observer-clears d req.services addr h spec known i so (
            ap (get (calculate_key d spec.namespace spec.service_name))
              (sym (services-untrack_all d req.caller_service_name req.services gone))
            ∙ e)),
        untrack_all-clears d req.caller_service_name req.services gone spec i,
      )

  finish-IsCleared :
      (req : ResolveRequest) (addr : Str) (updates : List EndpointsUpdate) (o : Outcome)
      (h : EndpointsHub) (w : World)
      → o ≢ running
      → All (IsKnown d h) req.services
      → IsCleared req addr (finish d req addr updates o h w).2
  unfolding finish
  finish-IsCleared req addr updates running h w r known = absurd (r refl)
  finish-IsCleared req addr updates done h w r known = cleared req addr h known
  finish-IsCleared req addr updates no_peer h w r known = cleared req addr h known
  finish-IsCleared req addr updates no_specs h w r known = cleared req addr h known
  finish-IsCleared req addr updates notify_timeout h w r known = cleared req addr h known
  finish-IsCleared req addr updates stream_error h w r known = cleared req addr h known
  finish-IsCleared req addr updates (add_failed e) h w r known = cleared req addr h known
  finish-IsCleared req addr updates add_waits h w r known = cleared req addr h known

  resolve-follow :
      (req : ResolveRequest) (addr : Str) (events : List Event)
      (during : EndpointsHub × World → EndpointsHub × World) (h : EndpointsHub) (w : World)
      → req.services ≢ []
      → resolve d req (some addr) events during h w
        ≡ follow d req addr events during
            (opened d req addr h w).0
            (opened d req addr h w).1
            (opened d req addr h w).2
  unfolding resolve
  resolve-follow req addr events during h w n = ground arith

  -- When AddObserver has succeeded, the rest of the program has kept the services of the request, and
  -- the loop has ended in whatever way, no observer of a spec of the request is left for the client
  -- and no key of the request is left in the graph keys.
  pub resolve-IsCleared :
      (req : ResolveRequest) (addr : Str) (events : List Event)
      (during : EndpointsHub × World → EndpointsHub × World) (h : EndpointsHub) (w : World) (ch : ℕ)
      → req.services ≢ []
      → (opened d req addr h w).0 ≡ observing ch
      → All
          (IsKnown d (during ((opened d req addr h w).1, (opened d req addr h w).2)).0)
          req.services
      → (serve spec_string (init_max_ids spec_string req.services []) events).1 ≢ running
      → IsCleared req addr (resolve d req (some addr) events during h w).2
  resolve-IsCleared req addr events during h w ch n o known r =
      rw (resolve-follow req addr events during h w n) (
        rw o (
          unfold follow in
          finish-IsCleared req addr _
            (serve spec_string (init_max_ids spec_string req.services []) events).1
            (during ((opened d req addr h w).1, (opened d req addr h w).2)).0 _ r known))

  -- When AddObserver fails at a later spec, the observer of the first spec is still registered after
  -- Resolve has returned the error: nothing removes it, and nothing reads its channel.
  pub resolve-leaks :
      (req : ResolveRequest) (addr : Str) (events : List Event)
      (during : EndpointsHub × World → EndpointsHub × World) (h : EndpointsHub) (w : World)
      (spec : ServiceSpec) (specs : List ServiceSpec) (e : EtcdError) (eps : Endpoints)
      → req.services ≡ spec ∷ specs
      → (opened d req addr h w).0 ≡ failed e
      → (fetch d spec (track_all d req.caller_service_name req.services h w).1).0 ≡ ok eps
      → ((resolve d req (some addr) events during h w).1 ≡ add_failed e)
        × IsWatched d spec addr
            (track_all d req.caller_service_name req.services h w).0.next_channel
            (resolve d req (some addr) events during h w).2
  resolve-leaks req addr events during h w spec specs e eps q o f =
      let caller = req.caller_service_name in
      let start = track_all d caller req.services h w in
      let ch = start.0.next_channel in
      let there : IsWatched d spec addr ch (opened d req addr h w).1 =
        subst
          (λ l.
            IsWatched d spec addr ch
              (add_observer d l addr req.resolve_full_endpoints start.0 start.1).1)
          (sym q)
          (add_observer-first d spec specs addr req.resolve_full_endpoints start.0 start.1 eps f) in
      let (so, co, at_key, here, p, p', p'') = there in
      let ended : resolve d req (some addr) events during h w ≡ (
        [],
        add_failed e,
        untrack_all d caller req.services (opened d req addr h w).1,
        (opened d req addr h w).2,
      ) =
        resolve-follow req addr events during h w (λ z. cc) ∙ rw o (unfold follow in refl) in
      rw ended (
        refl,
        (
          so,
          co,
          ap (get (calculate_key d spec.namespace spec.service_name))
                (services-untrack_all d caller req.services (opened d req addr h w).1)
              ∙ at_key,
          here,
          p,
          p',
          p'',
        ),
      )
