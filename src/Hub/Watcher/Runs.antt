-- ===== src/Hub/Watcher/Runs.antt =====
-- What every run of the hub keeps, with the calls of AddObserver and RemoveObserver in between.
use skylb.Prelude.{
  ℕ, ◌≡◌, refl, ◌∙◌, inl, inr, Bool, true, false, [], ◌∷◌, ◌++◌, some, Str, if◌then◌else◌,
  Bool-cases, =?_refl, str_eq, nat_eq, In, In-append_right,
}
use skylb.Go.Maps.{get}
use skylb.Api.{Endpoints, ServiceSpec}
use skylb.Deps.{Deps}
use skylb.Hub.Key.{calculate_key}
use skylb.Hub.State.{ClientObject, ServiceObject, EndpointsHub}
use skylb.Hub.Updates.{notify, update_endpoints}
use skylb.Hub.Updates.Laws.{update_endpoints-observers}
use skylb.Hub.Observers.{append_observer, start_observing}
use skylb.Hub.Observers.Addition.{get-append_observer}
use skylb.Hub.Observers.Removal.{watches}
use skylb.Hub.Watcher.{
  open_channel, State, Step, watched, updated, notified, k8s_updated, rectified_tick, received,
  opening, stop_made, fetched, entered, appended, removed, Run, done, then_step,
}
use skylb.Hub.Watcher.Kept.{
  HasServices-elim, notify-HasServices, extract_updates-observers, k8s_updated-observers,
}
use skylb.Hub.Watcher.Stays.{
  StaysBut, KeepsObservers-StaysBut, entered-StaysBut, appended-StaysBut, removed-StaysBut,
  there_after_enter,
}

module _ (d : Deps) where
  open d use {World, spec_string}

  -- The step is one of RemoveObserver that is about the observer.
  abbrev pub is_removal : {s t : State d} → ClientObject → Step d s t → Bool
  is_removal ob (watched _ _ _ _ _) = false
  is_removal ob (updated _ _ _) = false
  is_removal ob (notified _ _ _ _ _ _ _ _ _) = false
  is_removal ob (rectified_tick _ _ _) = false
  is_removal ob (received _ _ _ _ _ _ _ _) = false
  is_removal ob (opening _ _ _) = false
  is_removal ob (stop_made _ _) = false
  is_removal ob (fetched _ _ _) = false
  is_removal ob (entered _ _ _ _ _ _ _) = false
  is_removal ob (appended _ _ _ _) = false
  is_removal ob (removed spec client_addr _ _) = watches spec_string spec client_addr ob

  -- Some step of the run removes the observer.
  abbrev pub is_removed_in : {s t : State d} → ClientObject → Run d s t → Bool
  is_removed_in ob (done s) = false
  is_removed_in ob (then_step s t u p r) = if is_removal ob p then true else is_removed_in ob r

  step-StaysBut :
      (j : Str) (so : ServiceObject) (s t : State d) (p : Step d s t)
      → get j s.0.services ≡ some so
      → StaysBut d (λ ob. is_removal ob p) j so t.0
  step-StaysBut j so _ _ (watched resp h w t q) e =
      KeepsObservers-StaysBut d _ j so t.0 (extract_updates-observers d j so resp h w t e q)
  step-StaysBut j so _ _ (updated eps h w) e =
      KeepsObservers-StaysBut d _ j so (k8s_updated d eps h) (k8s_updated-observers d j so eps h e)
  step-StaysBut j so _ _ (notified before n after stop_wins h h' w p q) e =
      let same =
        HasServices-elim h.services
          (notify stop_wins n (record h { notifications = before ++ after })) h'
          (notify-HasServices stop_wins n (record h { notifications = before ++ after })) q in
      (so, rw same e, refl, λ ob i x. i)
  step-StaysBut j so _ _ (rectified_tick key h w) e =
      KeepsObservers-StaysBut d _ j so (update_endpoints d key h w).0
        (update_endpoints-observers d key j h w so e)
  step-StaysBut j so _ _ (received ch c up rest h w q b) e = (so, e, refl, λ ob i x. i)
  step-StaysBut j so _ _ (opening specs h w) e = (so, unfold open_channel in e, refl, λ ob i x. i)
  step-StaysBut j so _ _ (stop_made h w) e = (so, e, refl, λ ob i x. i)
  step-StaysBut j so _ _ (fetched spec h w) e = (so, e, refl, λ ob i x. i)
  step-StaysBut j so _ _ (entered spec eps ch h h' w q) e =
      entered-StaysBut d _ spec eps ch h h' j so q e
  step-StaysBut j so _ _ (appended spec co h w) e =
      appended-StaysBut d _ (calculate_key d spec.namespace spec.service_name) co h j so e
  step-StaysBut j so _ _ (removed spec client_addr h w) e =
      removed-StaysBut d spec client_addr h j so e

  -- However watch events, updates of Kubernetes, the goroutines that notify observers, and the parts of
  -- any calls of AddObserver and RemoveObserver interleave, a service object stays, with its spec, and
  -- an observer of it stays unless a step of RemoveObserver is for the address of its client and for
  -- its spec, as the spec is printed.
  pub Run-StaysBut :
      (j : Str) (so : ServiceObject) (s t : State d) (r : Run d s t)
      → get j s.0.services ≡ some so
      → StaysBut d (λ ob. is_removed_in ob r) j so t.0
  Run-StaysBut j so _ _ (done s) e = (so, e, refl, λ ob i n. i)
  Run-StaysBut j so _ _ (then_step s t u p r) e =
      let (so1, e1, q, o) = step-StaysBut j so s t p e in
      let (so2, e2, q2, o2) = Run-StaysBut j so1 t u r e1 in
      (
        so2,
        e2,
        q2 ∙ q,
        λ ob i n. elim (Bool-cases (is_removal ob p)) [
          | inl x ↦ (let z : true ≡ false = (rw x at n) in cc)
          | inr x ↦ o2 ob (o ob i x) (rw x at n)
        ],
      )

  -- The round of AddObserver for a spec, with the rest of the hub running between its two critical
  -- sections and after them: once the section of the hub has been left, whatever happens before the
  -- observer is appended, the observer is then among those of the service of the spec, and stays there
  -- along every run that has no step of RemoveObserver for the address of its client and its spec.
  pub start_observing-append_observer :
      (spec : ServiceSpec) (eps : Endpoints) (ch : ℕ) (h h' : EndpointsHub) (w : World)
      (s t : State d) (co : ClientObject)
      (r' : Run d
        (append_observer (calculate_key d spec.namespace spec.service_name) co s.0, s.1)
        t)
      → start_observing d spec eps ch h ≡ some h'
      → Run d (h', w) s
      → is_removed_in co r' ≡ false
      → (so : ServiceObject) × (get (calculate_key d spec.namespace spec.service_name) t.0.services
          ≡ some so)
        × In co so.observers
  start_observing-append_observer spec eps ch h h' w s t co r' q r n =
      let key = calculate_key d spec.namespace spec.service_name in
      let (so0, e0) = there_after_enter d spec eps ch h h' q in
      let (so1, e1, spec1, kept1) = Run-StaysBut key so0 (h', w) s r e0 in
      let so2 : ServiceObject = record so1 { observers = so1.observers ++ co ∷ [] } in
      let e2 : get key (append_observer key co s.0).services ≡ some so2 =
        get-append_observer d key key co s.0 so1 e1 ∙ rw (=?_refl key) refl in
      let (so3, e3, spec3, kept3) =
        Run-StaysBut key so2 (append_observer key co s.0, s.1) t r' e2 in
      (so3, e3, kept3 co (In-append_right co so1.observers (co ∷ []) (inl refl)) n)
