-- ===== src/Hub/Watcher/Kept.antt =====
-- What the watchers and the goroutines that notify keep of the services.
use mathlib.Core.Option.{some-injective}
use skylb.Prelude.{
  ℕ, ◌≡◌, refl, sym, ap, ◌∙◌, ◌⊎◌, inl, inr, Bool, true, false, List, [], ◌∷◌, Option, none, some,
  Str, if◌then◌else◌, length, ltb, Bool-cases, Option-cases, str_eq, nat_eq, inc_int64,
}
use skylb.Go.Maps.{get, GoMap}
use skylb.Api.{Endpoints, Response}
use skylb.Deps.{Deps}
use skylb.Hub.Key.{calculate_key}
use skylb.Hub.State.{ServiceObject, EndpointsHub, EndpointsUpdate, Notification, send}
use skylb.Hub.Updates.{
  Change, changed, ignored, no_node, notify, is_stopped, extract_updates, changed_key,
  update_endpoints, apply_k8s_endpoints,
}
use skylb.Hub.Updates.Laws.{update_endpoints-observers, apply_endpoints-observers}
use skylb.Hub.Watcher.{State, k8s_updated}

-- A service object is still there, with its spec and its observers.
abbrev pub KeepsObservers : Str → ServiceObject → EndpointsHub → Type 0
KeepsObservers j so h =
    (so' : ServiceObject) × (get j h.services ≡ some so')
    × (so'.spec ≡ so.spec)
    × (so'.observers ≡ so.observers)

-- A hub that a send or a goroutine leaves has the services of before.
abbrev pub HasServices : GoMap Str ServiceObject → Option EndpointsHub → Type 0
HasServices services none = Unit
HasServices services (some h) = h.services ≡ services

pub HasServices-elim :
    (services : GoMap Str ServiceObject) (o : Option EndpointsHub) (h : EndpointsHub)
    → HasServices services o
    → o ≡ some h
    → h.services ≡ services
HasServices-elim services none h p e = cc
HasServices-elim services (some k) h p e =
    ap (λ (x : EndpointsHub). x.services) (some-injective h k (sym e)) ∙ p

pub send-HasServices :
    (ch : ℕ) (up : EndpointsUpdate) (h : EndpointsHub) → HasServices h.services (send ch up h)
unfolding send
send-HasServices ch up h = elim (Option-cases (get ch h.channels)) [
  | inl q ↦ rw (send, q) tt
  | inr (c, q) ↦ elim (Bool-cases (ltb (length c.buffer) c.capacity)) [
    | inl t ↦ rw (send, q, t) refl
    | inr f ↦ rw (send, q, f) tt
  ]
]

delivered-HasServices :
    (stopped stop_wins : Bool) (services : GoMap Str ServiceObject) (h : EndpointsHub)
    (o : Option EndpointsHub)
    → h.services ≡ services
    → HasServices services o
    → HasServices services (
        if stopped
        then (if stop_wins then some h else elim o [ none ↦ some h | some k ↦ some k ])
        else o)
delivered-HasServices true true services h o e p = e
delivered-HasServices true false services h none e p = e
delivered-HasServices true false services h (some k) e p = p
delivered-HasServices false stop_wins services h o e p = p

Change-cases : (c : Change) → ((key : Str) × (c ≡ changed key)) ⊎ ((c ≡ ignored) ⊎ (c ≡ no_node))
Change-cases (changed key) = inl (key, refl)
Change-cases ignored = inr (inl refl)
Change-cases no_node = inr (inr refl)

List-cases : {A : Type 0} (xs : List A) → (xs ≡ []) ⊎ ((y : A) × (ys : List A) × (xs ≡ y ∷ ys))
List-cases [] = inl refl
List-cases (y ∷ ys) = inr (y, ys, refl)

pub notify-HasServices :
    (stop_wins : Bool) (n : Notification) (h : EndpointsHub)
    → HasServices h.services (notify stop_wins n h)
unfolding notify
notify-HasServices stop_wins n h = elim (List-cases n.endpoints.inst_endpoints) [
  | inl q ↦ rw (notify, q) refl
  | inr (ep, eps, q) ↦
      let h' = record h { next_update_id = inc_int64 h.next_update_id } in
      rw (notify, q)
        (delivered-HasServices (is_stopped n.observer.stop_ch h.stopped) stop_wins h.services h' _
          refl
          (send-HasServices n.observer.notify_ch
            (record { id = h'.next_update_id; endpoints = n.endpoints }) h'))
]

module _ (d : Deps) where
  open d use {World}

  pub k8s_updated-observers :
      (j : Str) (so : ServiceObject) (eps : Endpoints) (h : EndpointsHub)
      → get j h.services ≡ some so
      → KeepsObservers j so (k8s_updated d eps h)
  unfolding k8s_updated
  k8s_updated-observers j so eps h e =
      let key = calculate_key d eps.namespace eps.name in
      elim (Option-cases (get key h.services)) [
        | inl q ↦ rw (apply_k8s_endpoints, q) (so, e, refl, refl)
        | inr (found, q) ↦
            rw (apply_k8s_endpoints, q) (apply_endpoints-observers d key j h so found eps q e)
      ]

  -- extractUpdates from the change that the event is about.
  abbrev after_change : Change → EndpointsHub → World → Option (State d)
  after_change (changed key) h w = some (update_endpoints d key h w)
  after_change ignored h w = some (h, w)
  after_change no_node h w = none

  extracted :
      (j : Str) (so : ServiceObject) (h : EndpointsHub) (w : World) (s : State d) (c : Change)
      → get j h.services ≡ some so
      → after_change c h w ≡ some s
      → KeepsObservers j so s.0
  extracted j so h w s (changed key) e q =
      rw (some-injective s (update_endpoints d key h w) (sym q))
        (update_endpoints-observers d key j h w so e)
  extracted j so h w s ignored e q = rw (some-injective s (h, w) (sym q)) (so, e, refl, refl)
  extracted j so h w s no_node e q = cc

  pub extract_updates-observers :
      (j : Str) (so : ServiceObject) (resp : Response) (h : EndpointsHub) (w : World) (s : State d)
      → get j h.services ≡ some so
      → extract_updates d resp h w ≡ some s
      → KeepsObservers j so s.0
  unfolding extract_updates
  extract_updates-observers j so resp h w s e q = elim (Change-cases (changed_key d resp)) [
    | inl (key, c) ↦ extracted j so h w s (changed key) e (rw (extract_updates, c) at q)
    | inr (inl c) ↦ extracted j so h w s ignored e (rw (extract_updates, c) at q)
    | inr (inr c) ↦ extracted j so h w s no_node e (rw (extract_updates, c) at q)
  ]
