-- ===== src/Hub/Model/Lifecycle.antt =====
-- hub/model: the stop channel and the goroutines of the rectification, along any calls and moves.
use mathlib.Core.Option.{some-injective}
use skylb.Prelude.{
  ℕ, ◌+◌, ◌<◌, ◌≡◌, ◌≢◌, refl, ap, ◌∙◌, Bool, List, [], ◌∷◌, ◌++◌, Option, none, some, Str, arith,
  In, In-append_right, ◌⊎◌, inl, inr, Option-cases, Bool-cases,
}
use skylb.Api.{ServiceSpec, ServiceEndpoints}
use skylb.Hub.Rectifier.{Rectifier, at_loop, Move, IsAlive, advance_at-IsAlive}
use skylb.Hub.Model.{
  Model, unless_empty, ClientObserver, add_observer, remove_observers, set_endpoints, notify,
  start_ticker, start_for, stop_ticker, stop_for, Call, adding, removing, setting, notifying_one,
  call, calls, new_service_object, rectify, rectifying,
}

-- No channel stands in the list twice.
abbrev pub IsOnce : List ℕ → Type 0
IsOnce [] = Unit
IsOnce (c ∷ cs) = (In c cs → ⊥) × IsOnce cs

-- There is an open stop channel exactly while there are observers, and then there is a goroutine that
-- has not ended and reads or has read this channel; no channel has been closed twice.
pub record IsTicking (m : Model) : Type 0 where
  pub idle : m.service.observers ≡ [] → m.service.stop_ch ≡ none
  pub ticking : m.service.observers ≢ [] → m.service.stop_ch ≢ none
  pub current :
      (ch : ℕ) → m.service.stop_ch ≡ some ch → (ch < m.next_channel) × (In ch m.stopped → ⊥)
  pub alive :
      (ch : ℕ) → m.service.stop_ch ≡ some ch → (r : Rectifier) × In r m.tickers × IsAlive ch r
  pub known : (ch : ℕ) → In ch m.stopped → ch < m.next_channel
  pub once : IsOnce m.stopped

-- The rectification runs.
record IsRunning (m : Model) : Type 0 where
  running : m.service.stop_ch ≢ none
  current : (ch : ℕ) → m.service.stop_ch ≡ some ch → (ch < m.next_channel) × (In ch m.stopped → ⊥)
  alive : (ch : ℕ) → m.service.stop_ch ≡ some ch → (r : Rectifier) × In r m.tickers × IsAlive ch r
  known : (ch : ℕ) → In ch m.stopped → ch < m.next_channel
  once : IsOnce m.stopped

append-ne-nil : (xs : List ℕ) (x : ℕ) → xs ++ x ∷ [] ≢ []
append-ne-nil [] x e = ground (arith, e)
append-ne-nil (y ∷ ys) x e = ground (arith, e)

List-cases : (xs : List ℕ) → (xs ≡ []) ⊎ ((x : ℕ) × (ys : List ℕ) × (xs ≡ x ∷ ys))
List-cases [] = inl refl
List-cases (x ∷ ys) = inr (x, ys, refl)

start_ticker-first :
    (m : Model)
    → m.service.observers ≡ []
    → start_ticker m ≡ record m {
      service = record m.service { stop_ch = some m.next_channel };
      next_channel = m.next_channel + 1;
      tickers = m.tickers ++ at_loop ∷ [];
    }
unfolding start_ticker
start_ticker-first m e = ap (λ os. start_for os m) e

start_ticker-more :
    (m : Model) (x : ℕ) (ys : List ℕ) → m.service.observers ≡ x ∷ ys → start_ticker m ≡ m
unfolding start_ticker
start_ticker-more m x ys e = ap (λ os. start_for os m) e

start_ticker-IsRunning : (m : Model) → IsTicking m → IsRunning (start_ticker m)
start_ticker-IsRunning m h = elim (List-cases m.service.observers) [
  | inl e ↦ rw (start_ticker-first m e) (record {
    running = λ q. cc;
    current = λ ch q.
        let same : m.next_channel ≡ ch = some-injective m.next_channel ch q in
        (
          omega (arith, same),
          λ i. let below : ch < m.next_channel = h.known ch i in omega (arith, same, below),
        );
    alive =
        λ ch q. (at_loop, In-append_right at_loop m.tickers (at_loop ∷ []) (inl refl), inl refl);
    known = λ ch i. let below : ch < m.next_channel = h.known ch i in omega (arith, below);
    once = h.once;
  })
  | inr (x, ys, e) ↦ rw (start_ticker-more m x ys e) (record {
    running = h.ticking (λ q. cc);
    current = h.current;
    alive = h.alive;
    known = h.known;
    once = h.once;
  })
]

add_observer-IsTicking : (id : ℕ) (m : Model) → IsTicking m → IsTicking (add_observer id m)
unfolding add_observer
add_observer-IsTicking id m h =
    let r = start_ticker-IsRunning m h in
    record {
      idle = λ e. absurd (append-ne-nil (start_ticker m).service.observers id e);
      ticking = λ e. r.running;
      current = r.current;
      alive = r.alive;
      known = r.known;
      once = r.once;
    }

stop_ticker-more :
    (m : Model) (x : ℕ) (ys : List ℕ) → m.service.observers ≡ x ∷ ys → stop_ticker m ≡ m
unfolding stop_ticker
stop_ticker-more m x ys e = ap (λ os. stop_for os m.service.stop_ch m) e

stop_ticker-last :
    (m : Model) (ch : ℕ)
    → m.service.observers ≡ []
    → m.service.stop_ch ≡ some ch
    → stop_ticker m
      ≡ record m { service = record m.service { stop_ch = none }; stopped = ch ∷ m.stopped }
unfolding stop_ticker
stop_ticker-last m ch e q =
    ap (λ os. stop_for os m.service.stop_ch m) e ∙ ap (λ c. stop_for [] c m) q

stop_ticker-IsTicking : (m : Model) → IsRunning m → IsTicking (stop_ticker m)
stop_ticker-IsTicking m r = elim (List-cases m.service.observers) [
  | inr (x, ys, e) ↦ rw (stop_ticker-more m x ys e) (record {
    idle = λ q. cc;
    ticking = λ q. r.running;
    current = r.current;
    alive = r.alive;
    known = r.known;
    once = r.once;
  })
  | inl e ↦ elim (Option-cases m.service.stop_ch) [
    | inl q ↦ absurd (r.running q)
    | inr (ch, q) ↦ rw (stop_ticker-last m ch e q) (record {
      idle = λ z. refl;
      ticking = λ z. absurd (z e);
      current = λ c z. cc;
      alive = λ c z. cc;
      known = λ c i. elim i [
        | inl same ↦
            let below : ch < m.next_channel = (r.current ch q).0 in omega (arith, same, below)
        | inr i' ↦ r.known c i'
      ];
      once = ((r.current ch q).1, r.once);
    })
  ]
]

unless_empty-IsTicking :
    (os : List ℕ) (m m' : Model)
    → IsTicking m
    → (os ≢ [] → IsTicking m')
    → IsTicking (unless_empty os m m')
unless_empty-IsTicking [] m m' h h' = h
unless_empty-IsTicking (o ∷ os) m m' h h' = h' (λ q. cc)

remove_observers-IsTicking :
    (s : ServiceSpec → Str) (addr : Str) (m : Model)
    → IsTicking m
    → IsTicking (remove_observers s addr m)
unfolding remove_observers
remove_observers-IsTicking s addr m h = unless_empty-IsTicking m.service.observers m _ h (λ more.
    stop_ticker-IsTicking _ (record {
      running = h.ticking more;
      current = h.current;
      alive = h.alive;
      known = h.known;
      once = h.once;
    }))

notify-IsTicking :
    (id : ℕ) (eps : Option ServiceEndpoints) (late : Bool) (m : Model)
    → IsTicking m
    → IsTicking (notify id eps late m)
unfolding notify
notify-IsTicking id eps late m h = elim (Bool-cases (m.clients id).closed) [
  | inl c ↦ rw c h
  | inr o ↦ elim (Bool-cases late) [
    | inl l ↦ rw (o, l) h
    | inr l ↦
        rw (o, l)
          (record {
            idle = h.idle;
            ticking = h.ticking;
            current = h.current;
            alive = h.alive;
            known = h.known;
            once = h.once;
          })
  ]
]

rectify-IsTicking : (n : ℕ) (move : Move) (m : Model) → IsTicking m → IsTicking (rectify n move m)
unfolding rectify
rectify-IsTicking n move m h = record {
  idle = h.idle;
  ticking = h.ticking;
  current = h.current;
  alive = λ ch e.
      let (r, i, a) = h.alive ch e in
      rw e (advance_at-IsAlive ch n move m.stopped m.tickers r (h.current ch e).1 i a);
  known = h.known;
  once = h.once;
}

call-IsTicking :
    (s : ServiceSpec → Str) (c : Call s) (m : Model) → IsTicking m → IsTicking (call s c m)
unfolding call set_endpoints
call-IsTicking s (adding id) m h = add_observer-IsTicking id m h
call-IsTicking s (removing addr) m h = remove_observers-IsTicking s addr m h
call-IsTicking s (setting eps) m h = record {
  idle = h.idle;
  ticking = h.ticking;
  current = h.current;
  alive = h.alive;
  known = h.known;
  once = h.once;
}
call-IsTicking s (notifying_one id eps late) m h = notify-IsTicking id eps late m h
call-IsTicking s (rectifying n move) m h = rectify-IsTicking n move m h

-- A new service object, with clients that nothing has been sent to.
abbrev pub fresh : ServiceSpec → Bool → (ℕ → ClientObserver) → Model
fresh spec has_listener clients = record {
  service = new_service_object spec has_listener;
  clients = clients;
  next_channel = 0;
  stopped = [];
  tickers = [];
  told = [];
  notifying = [];
  delivered = [];
}

calls-keep :
    (s : ServiceSpec → Str) (cs : List (Call s)) (m : Model)
    → IsTicking m
    → IsTicking (calls s cs m)
unfolding calls
calls-keep s [] m h = h
calls-keep s (c ∷ cs) m h = calls-keep s cs (call s c m) (call-IsTicking s c m h)

-- After any calls on a new service object and any moves of its goroutines, in any order: the stop
-- channel is nil without observers; with observers it is a channel that is not closed, and some
-- goroutine of startAutoRectify has not returned and is either before its select or waits in it for
-- this channel and the ticker; and no stop channel has been closed twice. Whether other goroutines,
-- started for earlier observers, have returned is not stated.
pub calls-IsTicking :
    (s : ServiceSpec → Str) (spec : ServiceSpec) (has_listener : Bool)
    (clients : ℕ → ClientObserver) (cs : List (Call s))
    → IsTicking (calls s cs (fresh spec has_listener clients))
calls-IsTicking s spec has_listener clients cs = calls-keep s cs (fresh spec has_listener clients) (
    unfold new_service_object in
    record {
      idle = λ e. refl;
      ticking = λ e. absurd (e refl);
      current = λ ch e. cc;
      alive = λ ch e. cc;
      known = λ ch i. absurd i.1;
      once = tt;
    })
