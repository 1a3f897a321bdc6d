-- ===== src/Hub/Observers/Removal.antt =====
-- hub/observer.go: what RemoveObserver removes.
use skylb.Prelude.{
  ◌≡◌, ◌≢◌, refl, ap, sym, ◌∙◌, Bool, not, ◌&&◌, List, [], ◌∷◌, ◌++◌, none, some, Str, arith, map,
  Bool-cases, Option-cases, ◌=?◌, =?_iff, =?_refl, str_eq, inl, inr, In, All, keep,
}
use skylb.Go.Maps.{get, put, get-put}
use skylb.Api.{ServiceSpec}
use skylb.Deps.{Deps}
use skylb.Hub.Key.{calculate_key}
use skylb.Hub.State.{ClientObject, ServiceObject, EndpointsHub}
use skylb.Hub.Observers.{remove_observer_from_slice, remove_observer}

-- The observer is one of the client at the address, for the spec.
abbrev pub watches : (ServiceSpec → Str) → ServiceSpec → Str → ClientObject → Bool
watches spec_string spec client_addr ob =
    ob.client_addr =? client_addr && spec_string ob.spec =? spec_string spec

module _ (spec_string : ServiceSpec → Str) (spec : ServiceSpec) (client_addr : Str) where
  -- The observers that stay are those of other clients or specs, in their order, and the stop channel
  -- of each of the others is closed once.
  pub remove_observer_from_slice_lem :
      (obs : List ClientObject)
      → remove_observer_from_slice spec_string obs spec client_addr ≡ (
        keep (λ ob. not (watches spec_string spec client_addr ob)) obs,
        map (λ ob. ob.stop_ch) (keep (watches spec_string spec client_addr) obs),
      )
  unfolding remove_observer_from_slice
  remove_observer_from_slice_lem [] = refl
  remove_observer_from_slice_lem (ob ∷ obs) =
      rw (remove_observer_from_slice_lem obs)
        (elim (Bool-cases (watches spec_string spec client_addr ob)) [
          | inl t ↦ rw t
          | inr f ↦ rw f
        ])

module _ (d : Deps) where
  open d use {spec_string}

  -- The service exists.
  abbrev pub IsKnown : EndpointsHub → ServiceSpec → Type 0
  IsKnown h spec = get (calculate_key d spec.namespace spec.service_name) h.services ≢ none

  -- No observer of the service at the key watches the spec for the client.
  abbrev pub IsUnwatched : ServiceSpec → Str → Str → EndpointsHub → Type 0
  IsUnwatched spec client_addr key h =
      (so : ServiceObject)
      → get key h.services ≡ some so
      → keep (watches spec_string spec client_addr) so.observers ≡ []

  keep-keep-nil :
      (p q : ClientObject → Bool) (obs : List ClientObject)
      → keep p obs ≡ []
      → keep p (keep q obs) ≡ []
  keep-keep-nil p q [] e = refl
  keep-keep-nil p q (x ∷ obs) e = ground (arith, keep-keep-nil p q obs)

  keep-not-nil :
      (p : ClientObject → Bool) (obs : List ClientObject)
      → keep p (keep (λ ob. not (p ob)) obs) ≡ []
  keep-not-nil p [] = refl
  keep-not-nil p (x ∷ obs) = ground (arith, keep-not-nil p obs)

  -- One step of the loop of RemoveObserver.
  abbrev step : ServiceSpec → Str → ServiceObject → EndpointsHub → EndpointsHub
  step spec client_addr so h = record h {
    services =
        put (calculate_key d spec.namespace spec.service_name)
          (record so {
            observers = (remove_observer_from_slice spec_string so.observers spec client_addr).0;
          })
          h.services;
    stopped = (remove_observer_from_slice spec_string so.observers spec client_addr).1 ++ h.stopped;
  }

  remove_observer-step :
      (spec : ServiceSpec) (specs : List ServiceSpec) (client_addr : Str) (h : EndpointsHub)
      (so : ServiceObject)
      → get (calculate_key d spec.namespace spec.service_name) h.services ≡ some so
      → remove_observer d (spec ∷ specs) client_addr h
        ≡ remove_observer d specs client_addr (step spec client_addr so h)
  unfolding remove_observer
  remove_observer-step spec specs client_addr h so e = rw (e, remove_observer)

  step-IsUnwatched :
      (spec spec' : ServiceSpec) (client_addr addr' key : Str) (h : EndpointsHub)
      (so : ServiceObject)
      → get (calculate_key d spec.namespace spec.service_name) h.services ≡ some so
      → IsUnwatched spec' addr' key h
      → IsUnwatched spec' addr' key (step spec client_addr so h)
  step-IsUnwatched spec spec' client_addr addr' key h so e u so' e' =
      let own = calculate_key d spec.namespace spec.service_name in
      let kept = (remove_observer_from_slice spec_string so.observers spec client_addr).0 in
      let left : ServiceObject = record so { observers = kept } in
      elim (Bool-cases (own =? key)) [
        | inl t ↦
            let same : left ≡ so' = ground (arith, get-put own key left h.services) in
            let here : keep (watches spec_string spec' addr') so.observers ≡ [] =
              u so (ap (λ k. get k h.services) (sym ((=?_iff own key).0 t)) ∙ e) in
            ap (λ (r : ServiceObject). keep (watches spec_string spec' addr') r.observers)
              (sym same)
            ∙ rw (remove_observer_from_slice_lem spec_string spec client_addr so.observers)
                (keep-keep-nil (watches spec_string spec' addr') _ so.observers here)
        | inr f ↦ u so' (ground (arith, get-put own key left h.services))
      ]

  step-clears :
      (spec : ServiceSpec) (client_addr : Str) (h : EndpointsHub) (so : ServiceObject)
      → IsUnwatched spec client_addr
          (calculate_key d spec.namespace spec.service_name)
          (step spec client_addr so h)
  step-clears spec client_addr h so so' e' =
      let own = calculate_key d spec.namespace spec.service_name in
      let kept = (remove_observer_from_slice spec_string so.observers spec client_addr).0 in
      let left : ServiceObject = record so { observers = kept } in
      let same : left ≡ so' = ground (arith, get-put own own left h.services, =?_refl own) in
      ap (λ (r : ServiceObject). keep (watches spec_string spec client_addr) r.observers) (sym same)
      ∙ rw (remove_observer_from_slice_lem spec_string spec client_addr so.observers)
          (keep-not-nil (watches spec_string spec client_addr) so.observers)

  step-IsKnown :
      (spec spec' : ServiceSpec) (client_addr : Str) (h : EndpointsHub) (so : ServiceObject)
      → IsKnown h spec'
      → IsKnown (step spec client_addr so h) spec'
  step-IsKnown spec spec' client_addr h so k e =
      let own = calculate_key d spec.namespace spec.service_name in
      let key = calculate_key d spec'.namespace spec'.service_name in
      let kept = (remove_observer_from_slice spec_string so.observers spec client_addr).0 in
      let left : ServiceObject = record so { observers = kept } in
      k (ground (arith, get-put own key left h.services))

  All-IsKnown-step :
      (spec : ServiceSpec) (specs : List ServiceSpec) (client_addr : Str) (h : EndpointsHub)
      (so : ServiceObject)
      → All (IsKnown h) specs
      → All (IsKnown (step spec client_addr so h)) specs
  All-IsKnown-step spec [] client_addr h so k = tt
  All-IsKnown-step spec (s ∷ specs) client_addr h so k =
      (step-IsKnown spec s client_addr h so k.0, All-IsKnown-step spec specs client_addr h so k.1)

  -- What is unwatched stays unwatched, whatever else is removed.
  remove_observer-IsUnwatched :
      (specs : List ServiceSpec) (client_addr : Str) (spec : ServiceSpec) (addr key : Str)
      (h : EndpointsHub)
      → IsUnwatched spec addr key h
      → IsUnwatched spec addr key (remove_observer d specs client_addr h)
  remove_observer-IsUnwatched [] client_addr spec addr key h u = unfold remove_observer in u
  remove_observer-IsUnwatched (s ∷ specs) client_addr spec addr key h u =
      elim (Option-cases (get (calculate_key d s.namespace s.service_name) h.services)) [
        | inl absent ↦ unfold remove_observer in rw (absent, remove_observer) u
        | inr (so, e) ↦ rw (remove_observer-step s specs client_addr h so e) (
            remove_observer-IsUnwatched specs client_addr spec addr key (step s client_addr so h)
              (step-IsUnwatched s spec client_addr addr key h so e u))
      ]

  -- When all services of the specs are known, RemoveObserver leaves no observer of any of the specs
  -- for the client.
  pub remove_observer-clears :
      (specs : List ServiceSpec) (client_addr : Str) (h : EndpointsHub) (spec : ServiceSpec)
      → All (IsKnown h) specs
      → In spec specs
      → IsUnwatched spec client_addr
          (calculate_key d spec.namespace spec.service_name)
          (remove_observer d specs client_addr h)
  remove_observer-clears [] client_addr h spec k i = absurd i.1
  remove_observer-clears (s ∷ specs) client_addr h spec k i =
      elim (Option-cases (get (calculate_key d s.namespace s.service_name) h.services)) [
        | inl absent ↦ absurd (k.0 absent)
        | inr (so, e) ↦ rw (remove_observer-step s specs client_addr h so e) (elim i [
          | inl same ↦
              remove_observer-IsUnwatched specs client_addr spec client_addr _
                (step s client_addr so h) (rw same (step-clears s client_addr h so))
          | inr later ↦
              remove_observer-clears specs client_addr (step s client_addr so h) spec
                (All-IsKnown-step s specs client_addr h so k.1) later
        ])
      ]
