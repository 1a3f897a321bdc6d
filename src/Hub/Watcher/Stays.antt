-- ===== src/Hub/Watcher/Stays.antt =====
-- What the critical sections of AddObserver and RemoveObserver keep of the services.
use mathlib.Core.Option.{some-injective}
use skylb.Prelude.{
  ℕ, ◌≡◌, refl, sym, ap, ◌∙◌, inl, inr, Bool, true, false, List, [], ◌∷◌, ◌++◌, some, Str,
  if◌then◌else◌, Bool-cases, Option-cases, ◌=?◌, =?_iff, =?_refl, str_eq, nat_eq, In,
  In-append_left, keep,
}
use skylb.Go.Maps.{get, get-put}
use skylb.Api.{Endpoints, ServiceSpec}
use skylb.Deps.{Deps}
use skylb.Hub.Key.{calculate_key}
use skylb.Hub.Endpoints.{skypb_endpoints_to_map, diff_endpoints}
use skylb.Hub.State.{ClientObject, ServiceObject, EndpointsHub}
use skylb.Hub.Observers.{
  append_observer, remove_observer, start_observing, enter, service_or_new,
  remove_observer_from_slice,
}
use skylb.Hub.Observers.Addition.{get-append_observer}
use skylb.Hub.Observers.Removal.{remove_observer_from_slice_lem, watches}
use skylb.Hub.Watcher.Kept.{KeepsObservers, HasServices-elim, send-HasServices}

module _ (d : Deps) where
  open d use {World, spec_string}

  -- The service object is still there, with its spec, and so is each of its observers that the test
  -- does not name.
  abbrev pub StaysBut : (ClientObject → Bool) → Str → ServiceObject → EndpointsHub → Type 0
  StaysBut gone j so h =
      (so' : ServiceObject) × (get j h.services ≡ some so')
      × (so'.spec ≡ so.spec)
      × ((ob : ClientObject) → In ob so.observers → gone ob ≡ false → In ob so'.observers)

  pub KeepsObservers-StaysBut :
      (gone : ClientObject → Bool) (j : Str) (so : ServiceObject) (h : EndpointsHub)
      → KeepsObservers j so h
      → StaysBut gone j so h
  KeepsObservers-StaysBut gone j so h (so', e, q, o) = (so', e, q, λ ob i n. rw o i)

  -- A service object under the key of AddObserver is the old one, where there is one.
  pub entered-StaysBut :
      (gone : ClientObject → Bool) (spec : ServiceSpec) (eps : Endpoints) (ch : ℕ)
      (h h' : EndpointsHub) (j : Str) (so : ServiceObject)
      → start_observing d spec eps ch h ≡ some h'
      → get j h.services ≡ some so
      → StaysBut gone j so h'
  unfolding start_observing
  entered-StaysBut gone spec eps ch h h' j so q e =
      let eps_map = skypb_endpoints_to_map spec eps in
      let key = calculate_key d spec.namespace spec.service_name in
      let new = service_or_new spec eps_map (get key h.services) in
      let h1 = enter d spec eps_map h in
      let same =
        HasServices-elim h1.services _ h'
          (send-HasServices ch
            (record { id = h1.next_update_id; endpoints = diff_endpoints spec [] eps_map }) h1)
          q in
      let at : get j h1.services ≡ (if key =? j then some new else get j h.services) =
        unfold enter in get-put key j new h.services in
      elim (Bool-cases (key =? j)) [
        | inl t ↦
            let own : get key h.services ≡ some so =
              ap (λ k. get k h.services) ((=?_iff key j).0 t) ∙ e in
            (
              so,
              ap (get j) same ∙ at ∙ rw t (ap (λ o. some (service_or_new spec eps_map o)) own),
              refl,
              λ ob i n. i,
            )
        | inr f ↦ (so, ap (get j) same ∙ at ∙ rw f e, refl, λ ob i n. i)
      ]

  pub appended-StaysBut :
      (gone : ClientObject → Bool) (key : Str) (co : ClientObject) (h : EndpointsHub) (j : Str)
      (so : ServiceObject)
      → get j h.services ≡ some so
      → StaysBut gone j so (append_observer key co h)
  appended-StaysBut gone key co h j so e = elim (Option-cases (get key h.services)) [
    | inl q ↦ (so, (unfold append_observer in rw (q, append_observer) e), refl, λ ob i n. i)
    | inr (there, q) ↦
        let at = get-append_observer d key j co h there q in
        elim (Bool-cases (key =? j)) [
          | inl t ↦
              let own : some so ≡ some there =
                sym e ∙ ap (λ k. get k h.services) (sym ((=?_iff key j).0 t)) ∙ q in
              let one = some-injective so there own in
              (
                record there { observers = there.observers ++ co ∷ [] },
                at ∙ rw t refl,
                ap (λ (x : ServiceObject). x.spec) (sym one),
                λ ob i n.
                    In-append_left ob there.observers (co ∷ [])
                      (rw (ap (λ (x : ServiceObject). x.observers) (sym one)) i),
              )
          | inr f ↦ (so, at ∙ rw f e, refl, λ ob i n. i)
        ]
  ]

  In-keep :
      (p : ClientObject → Bool) (ob : ClientObject) (obs : List ClientObject)
      → In ob obs
      → p ob ≡ true
      → In ob (keep p obs)
  In-keep p ob [] i e = absurd i.1
  In-keep p ob (x ∷ obs) (inl q) e = rw (← q, e) (inl refl)
  In-keep p ob (x ∷ obs) (inr i) e = elim (Bool-cases (p x)) [
    | inl t ↦ rw t (inr (In-keep p ob obs i e))
    | inr f ↦ rw f (In-keep p ob obs i e)
  ]

  pub removed-StaysBut :
      (spec : ServiceSpec) (client_addr : Str) (h : EndpointsHub) (j : Str) (so : ServiceObject)
      → get j h.services ≡ some so
      → StaysBut
          (watches spec_string spec client_addr)
          j
          so
          (remove_observer d (spec ∷ []) client_addr h)
  unfolding remove_observer
  removed-StaysBut spec client_addr h j so e =
      let key = calculate_key d spec.namespace spec.service_name in
      elim (Option-cases (get key h.services)) [
        | inl q ↦ (so, rw (q, remove_observer) e, refl, λ ob i n. i)
        | inr (there, q) ↦
            let left : ServiceObject = record there {
              observers =
                  (remove_observer_from_slice spec_string there.observers spec client_addr).0;
            } in
            elim (Bool-cases (key =? j)) [
              | inl t ↦
                  let own : some so ≡ some there =
                    sym e ∙ ap (λ k. get k h.services) (sym ((=?_iff key j).0 t)) ∙ q in
                  let one = some-injective so there own in
                  (
                    left,
                    rw (q, remove_observer) (get-put key j left h.services ∙ rw t refl),
                    ap (λ (x : ServiceObject). x.spec) (sym one),
                    λ ob i n.
                        rw
                          (remove_observer_from_slice_lem spec_string spec client_addr
                            there.observers)
                          (In-keep _ ob there.observers
                            (rw (ap (λ (x : ServiceObject). x.observers) (sym one)) i) (rw n refl)),
                  )
              | inr f ↦ (
                so,
                rw (q, remove_observer) (get-put key j left h.services ∙ rw f e),
                refl,
                λ ob i n. i,
              )
            ]
      ]

  pub there_after_enter :
      (spec : ServiceSpec) (eps : Endpoints) (ch : ℕ) (h h' : EndpointsHub)
      → start_observing d spec eps ch h ≡ some h'
      → (so : ServiceObject) × (get (calculate_key d spec.namespace spec.service_name) h'.services
          ≡ some so)
  unfolding start_observing
  there_after_enter spec eps ch h h' q =
      let eps_map = skypb_endpoints_to_map spec eps in
      let key = calculate_key d spec.namespace spec.service_name in
      let new = service_or_new spec eps_map (get key h.services) in
      let h1 = enter d spec eps_map h in
      let same =
        HasServices-elim h1.services _ h'
          (send-HasServices ch
            (record { id = h1.next_update_id; endpoints = diff_endpoints spec [] eps_map }) h1)
          q in
      let at : get key h1.services ≡ (if key =? key then some new else get key h.services) =
        unfold enter in get-put key key new h.services in
      (new, ap (get key) same ∙ at ∙ rw (=?_refl key) refl)
