-- ===== src/Hub/Model/Closing.antt =====
-- hub/model: an observer that RemoveObservers has removed is closed, and is told nothing more.
use skylb.Prelude.{
  ℕ, ◌≡◌, refl, ap, sym, ◌∙◌, Bool, true, false, List, [], ◌∷◌, Option, none, some, Str, arith, In,
  inl, inr, Bool-cases, ◌==◌, ==_iff, str_eq,
}
use skylb.Api.{ServiceSpec, ServiceEndpoints}
use skylb.Hub.Model.{
  Model, ClientObserver, remove_observers, notify, stop_ticker, stop_for, remove_loop,
  is_observer_of, close, unless_empty,
}

module _ (s : ServiceSpec → Str) (spec : ServiceSpec) (addr : Str) where
  abbrev Watches : (ℕ → ClientObserver) → ℕ → Type 0
  Watches clients id = is_observer_of s spec addr (clients id) ≡ true

  close-Watches :
      (j id : ℕ) (clients : ℕ → ClientObserver)
      → is_observer_of s spec addr (close j clients id) ≡ is_observer_of s spec addr (clients id)
  unfolding close
  close-Watches j id clients = elim (Bool-cases (id == j)) [
    | inl e ↦ rw e (ap (λ k. is_observer_of s spec addr (clients k)) (sym ((==_iff id j).0 e)))
    | inr e ↦ rw e
  ]

  close-closed :
      (j id : ℕ) (clients : ℕ → ClientObserver)
      → (clients id).closed ≡ true
      → (close j clients id).closed ≡ true
  unfolding close
  close-closed j id clients c = elim (Bool-cases (id == j)) [ inl e ↦ rw e | inr e ↦ rw e c ]

  close-own : (id : ℕ) (clients : ℕ → ClientObserver) → (close id clients id).closed ≡ true
  unfolding close
  close-own id clients = rw ((==_iff id id).1 refl)

  remove_loop-keeps :
      (ids : List ℕ) (clients : ℕ → ClientObserver) (id : ℕ)
      → (clients id).closed ≡ true
      → ((remove_loop s spec addr ids clients).1 id).closed ≡ true
  unfolding remove_loop
  remove_loop-keeps [] clients id c = c
  remove_loop-keeps (j ∷ ids) clients id c =
      elim (Bool-cases (is_observer_of s spec addr (clients j))) [
        | inl y ↦ rw y (remove_loop-keeps ids (close j clients) id (close-closed j id clients c))
        | inr n ↦ rw n (remove_loop-keeps ids clients id c)
      ]

  remove_loop-closes :
      (ids : List ℕ) (clients : ℕ → ClientObserver) (id : ℕ)
      → In id ids
      → Watches clients id
      → ((remove_loop s spec addr ids clients).1 id).closed ≡ true
  unfolding remove_loop
  remove_loop-closes [] clients id i w = absurd i.1
  remove_loop-closes (j ∷ ids) clients id i w =
      elim (Bool-cases (is_observer_of s spec addr (clients j))) [
        | inl y ↦ rw y (elim i [
          | inl e ↦
              remove_loop-keeps ids (close j clients) id
                (ap (λ k. (close j clients k).closed) e ∙ close-own j clients)
          | inr later ↦
              remove_loop-closes ids (close j clients) id later (close-Watches j id clients ∙ w)
        ])
        | inr n ↦ rw n (elim i [
          | inl e ↦
              absurd
                (ground (arith, n, ap (λ k. is_observer_of s spec addr (clients k)) (sym e) ∙ w))
          | inr later ↦ remove_loop-closes ids clients id later w
        ])
      ]

  remove_loop-others :
      (ids : List ℕ) (clients : ℕ → ClientObserver) (id : ℕ)
      → In id (remove_loop s spec addr ids clients).0
      → is_observer_of s spec addr (clients id) ≡ false
  unfolding remove_loop
  remove_loop-others [] clients id i = absurd i.1
  remove_loop-others (j ∷ ids) clients id i =
      elim (Bool-cases (is_observer_of s spec addr (clients j))) [
        | inl y ↦
            sym (close-Watches j id clients)
            ∙ remove_loop-others ids (close j clients) id (rw y at i)
        | inr n ↦ elim (rw n at i) [
          | inl e ↦ ap (λ k. is_observer_of s spec addr (clients k)) e ∙ n
          | inr later ↦ remove_loop-others ids clients id later
        ]
      ]

stop_for-same :
    (os : List ℕ) (ch : Option ℕ) (m : Model)
    → ((stop_for os ch m).clients ≡ m.clients)
      × ((stop_for os ch m).service.observers ≡ m.service.observers)
stop_for-same [] none m = (refl, refl)
stop_for-same [] (some c) m = (refl, refl)
stop_for-same (o ∷ os) ch m = (refl, refl)

-- RemoveObservers as a whole, on the observers and the clients.
remove_observers-loop :
    (s : ServiceSpec → Str) (addr : Str) (m : Model)
    → let left = remove_loop s m.service.spec addr m.service.observers m.clients in
      ((remove_observers s addr m).clients ≡ left.1)
      × ((remove_observers s addr m).service.observers ≡ left.0)
unfolding remove_observers stop_ticker remove_loop
remove_observers-loop s addr m = go m.service.observers refl
  where
    loop : List ℕ → List ℕ × (ℕ → ClientObserver)
    loop ids = remove_loop s m.service.spec addr ids m.clients

    stripped : Model
    stripped = record m {
      service = record m.service { observers = (loop m.service.observers).0 };
      clients = (loop m.service.observers).1;
    }

    go :
        (os : List ℕ)
        → os ≡ m.service.observers
        → ((unless_empty os m (stop_ticker stripped)).clients ≡ (loop m.service.observers).1)
          × ((unless_empty os m (stop_ticker stripped)).service.observers
              ≡ (loop m.service.observers).0)
    go [] e = (
      ap (λ ids. (remove_loop s m.service.spec addr ids m.clients).1) e,
      sym e ∙ ap (λ ids. (remove_loop s m.service.spec addr ids m.clients).0) e,
    )
    go (o ∷ os) e = stop_for-same (loop m.service.observers).0 m.service.stop_ch stripped

notify-closed :
    (id : ℕ) (eps : Option ServiceEndpoints) (late : Bool) (m : Model)
    → (m.clients id).closed ≡ true
    → notify id eps late m ≡ m
unfolding notify
notify-closed id eps late m c = rw c

-- Each observer of the client, for the spec of the service, is no observer after RemoveObservers of
-- the client's address, and no Notify that is still to run tells it anything.
pub remove_observers-closes :
    (s : ServiceSpec → Str) (addr : Str) (m : Model) (id : ℕ) (eps : Option ServiceEndpoints)
    (late : Bool)
    → In id m.service.observers
    → is_observer_of s m.service.spec addr (m.clients id) ≡ true
    → (In id (remove_observers s addr m).service.observers → ⊥)
      × (notify id eps late (remove_observers s addr m) ≡ remove_observers s addr m)
remove_observers-closes s addr m id eps late i w =
    let after = remove_observers-loop s addr m in
    let ids = m.service.observers in
    (
      (λ still.
          let other =
            remove_loop-others s m.service.spec addr ids m.clients id (rw after.1 at still) in
          ground (arith, other, w)),
      notify-closed id eps late (remove_observers s addr m) (
          ap (λ (f : ℕ → ClientObserver). (f id).closed) after.0
          ∙ remove_loop-closes s m.service.spec addr ids m.clients id i w),
    )
