-- ===== src/Rpc/Server/Updates.antt =====
-- rpc/server.go: which updates the loop of Resolve hands to the stream.
use mathlib.Core.Bool.{false≢true}
use skylb.Prelude.{
  ◌≡◌, refl, ap, sym, ◌∙◌, true, false, List, [], ◌∷◌, Str, ℤ, pos, negsuc, ltz, arith,
  if◌then◌else◌, Bool-cases, ◌=?◌, =?_iff, str_eq, inl, inr, ◌⊎◌, In,
}
use skylb.Go.Maps.{GoMap, get, put, get-put}
use skylb.Api.{ServiceSpec}
use skylb.Hub.State.{EndpointsUpdate}
use skylb.Rpc.Server.{
  Event, auto_disconnect, closed, received, SendResult, sent, send_error, timed_out, running,
  max_id, init_max_ids, serve, deliver, or_zero,
}

not-ltz_trans : (a b c : ℤ) → ltz a b ≡ false → ltz b c ≡ false → ltz a c ≡ false
not-ltz_trans (pos a) (pos b) (pos c) h k = ground arith
not-ltz_trans (pos a) (pos b) (negsuc c) h k = refl
not-ltz_trans (pos a) (negsuc b) (pos c) h k = ground arith
not-ltz_trans (pos a) (negsuc b) (negsuc c) h k = refl
not-ltz_trans (negsuc a) (pos b) c h k = cc
not-ltz_trans (negsuc a) (negsuc b) (pos c) h k = cc
not-ltz_trans (negsuc a) (negsuc b) (negsuc c) h k = ground arith

ltz_asymm : (a b : ℤ) → ltz a b ≡ true → ltz b a ≡ false
ltz_asymm (pos a) (pos b) h = ground arith
ltz_asymm (pos a) (negsuc b) h = cc
ltz_asymm (negsuc a) (pos b) h = refl
ltz_asymm (negsuc a) (negsuc b) h = ground arith

module _ (spec_string : ServiceSpec → Str) where
  -- The two updates are for one spec.
  abbrev pub SameSpec : EndpointsUpdate → EndpointsUpdate → Type 0
  SameSpec u v = spec_string u.endpoints.spec ≡ spec_string v.endpoints.spec

  -- No update has a smaller id than one before it for the same spec.
  abbrev pub IsAscending : List EndpointsUpdate → Type 0
  IsAscending [] = Unit
  IsAscending (u ∷ us) =
      ((v : EndpointsUpdate) → In v us → SameSpec u v → ltz v.id u.id ≡ false) × IsAscending us

  max_id-put :
      (m : GoMap Str ℤ) (u v : EndpointsUpdate)
      → max_id spec_string (put (spec_string u.endpoints.spec) u.id m) v ≡ (
          if spec_string u.endpoints.spec =? spec_string v.endpoints.spec
          then u.id
          else max_id spec_string m v)
  max_id-put m u v =
      ground (arith, get-put (spec_string u.endpoints.spec) (spec_string v.endpoints.spec) u.id m)

  max_id-put_same :
      (m : GoMap Str ℤ) (u v : EndpointsUpdate)
      → SameSpec u v
      → max_id spec_string (put (spec_string u.endpoints.spec) u.id m) v ≡ u.id
  max_id-put_same m u v e =
      max_id-put m u v
      ∙ rw ((=?_iff (spec_string u.endpoints.spec) (spec_string v.endpoints.spec)).1 e)

  max_id-put_ne :
      (m : GoMap Str ℤ) (u v : EndpointsUpdate)
      → (spec_string u.endpoints.spec =? spec_string v.endpoints.spec) ≡ false
      → max_id spec_string (put (spec_string u.endpoints.spec) u.id m) v ≡ max_id spec_string m v
  max_id-put_ne m u v e = max_id-put m u v ∙ rw e

  max_id_same :
      (m : GoMap Str ℤ) (u v : EndpointsUpdate)
      → SameSpec u v
      → max_id spec_string m u ≡ max_id spec_string m v
  max_id_same m u v e = ap (λ k. or_zero (get k m)) e

  -- What is sent has at least the id that the loop holds for its spec.
  serve-floor :
      (m : GoMap Str ℤ) (events : List Event) (v : EndpointsUpdate)
      → In v (serve spec_string m events).0
      → ltz v.id (max_id spec_string m v) ≡ false
  unfolding serve
  serve-floor m [] v i = absurd i.1
  serve-floor m (auto_disconnect ∷ events) v i = absurd i.1
  serve-floor m (closed ∷ events) v i = absurd i.1
  serve-floor m (received u r ∷ events) v i =
      elim (Bool-cases (ltz u.id (max_id spec_string m u))) [
        | inl old ↦ serve-floor m events v (rw old at i)
        | inr new ↦
            go r (serve-floor (put (spec_string u.endpoints.spec) u.id m) events v) new
              (rw new at i)
      ]
    where
      head :
          v ≡ u
          → ltz u.id (max_id spec_string m u) ≡ false
          → ltz v.id (max_id spec_string m v) ≡ false
      head e new = ap (λ (t : EndpointsUpdate). ltz t.id (max_id spec_string m t)) e ∙ new

      go :
          (r : SendResult)
          → (In v (serve spec_string (put (spec_string u.endpoints.spec) u.id m) events).0
              → ltz v.id (max_id spec_string (put (spec_string u.endpoints.spec) u.id m) v) ≡ false)
          → ltz u.id (max_id spec_string m u) ≡ false
          → In v
              (deliver r u (serve spec_string (put (spec_string u.endpoints.spec) u.id m) events)).0
          → ltz v.id (max_id spec_string m v) ≡ false
      go sent ih new (inl e) = head e new
      go send_error ih new (inl e) = head e new
      go send_error ih new (inr e) = absurd e.1
      go timed_out ih new (inl e) = head e new
      go timed_out ih new (inr e) = absurd e.1
      go sent ih new (inr later) =
          elim (Bool-cases (spec_string u.endpoints.spec =? spec_string v.endpoints.spec)) [
            | inl same ↦
                let above : ltz v.id u.id ≡ false =
                  rw (max_id-put_same m u v ((=?_iff _ _).0 same)) at (ih later) in
                not-ltz_trans v.id u.id (max_id spec_string m v) above
                  (ap (λ k. ltz u.id k) (sym (max_id_same m u v ((=?_iff _ _).0 same))) ∙ new)
            | inr differs ↦ rw (max_id-put_ne m u v differs) at (ih later)
          ]

  -- The updates that Resolve hands to the stream are ascending for each spec.
  serve-IsAscending :
      (m : GoMap Str ℤ) (events : List Event) → IsAscending (serve spec_string m events).0
  unfolding serve
  serve-IsAscending m [] = tt
  serve-IsAscending m (auto_disconnect ∷ events) = tt
  serve-IsAscending m (closed ∷ events) = tt
  serve-IsAscending m (received u r ∷ events) =
      elim (Bool-cases (ltz u.id (max_id spec_string m u))) [
        | inl old ↦ rw old (serve-IsAscending m events)
        | inr new ↦
            rw new (go r (serve-IsAscending (put (spec_string u.endpoints.spec) u.id m) events))
      ]
    where
      go :
          (r : SendResult)
          → IsAscending (serve spec_string (put (spec_string u.endpoints.spec) u.id m) events).0
          → IsAscending
              (deliver r u (serve spec_string (put (spec_string u.endpoints.spec) u.id m) events)).0
      go sent ih = (
        (λ v later same.
            ap (λ k. ltz v.id k) (sym (max_id-put_same m u v same))
            ∙ serve-floor (put (spec_string u.endpoints.spec) u.id m) events v later),
        ih,
      )
      go send_error ih = ((λ v later same. absurd later.1), tt)
      go timed_out ih = ((λ v later same. absurd later.1), tt)

  -- What becomes of a received update: it is sent, or the loop held a larger id for its spec, or one
  -- with at least its id is sent.
  abbrev Fate : GoMap Str ℤ → EndpointsUpdate → List EndpointsUpdate → Type 0
  Fate m u sent_updates =
      In u sent_updates
      ⊎ (ltz u.id (max_id spec_string m u) ≡ true)
      ⊎ ((v : EndpointsUpdate) × In v sent_updates × SameSpec v u × (ltz v.id u.id ≡ false))

  -- The loop received the update.
  abbrev pub WasReceived : EndpointsUpdate → List Event → Type 0
  WasReceived u [] = ⊥
  WasReceived u (auto_disconnect ∷ events) = WasReceived u events
  WasReceived u (closed ∷ events) = WasReceived u events
  WasReceived u (received v r ∷ events) = (u ≡ v) ⊎ WasReceived u events

  serve-Fate :
      (m : GoMap Str ℤ) (events : List Event) (u : EndpointsUpdate)
      → (serve spec_string m events).1 ≡ running
      → WasReceived u events
      → Fate m u (serve spec_string m events).0
  unfolding serve
  serve-Fate m [] u o i = absurd i
  serve-Fate m (auto_disconnect ∷ events) u o i = cc
  serve-Fate m (closed ∷ events) u o i = cc
  serve-Fate m (received v r ∷ events) u o i =
      elim (Bool-cases (ltz v.id (max_id spec_string m v))) [
        | inl old ↦ rw old (elim i [
          | inl same ↦
              inr (inl (ap (λ (t : EndpointsUpdate). ltz t.id (max_id spec_string m t)) same ∙ old))
          | inr later ↦ serve-Fate m events u (rw old at o) later
        ])
        | inr new ↦
            rw new (
              go r (serve-Fate (put (spec_string v.endpoints.spec) v.id m) events u) (rw new at o)
                i)
      ]
    where
      go :
          (r : SendResult)
          → ((serve spec_string (put (spec_string v.endpoints.spec) v.id m) events).1 ≡ running
              → WasReceived u events
              → Fate
                  (put (spec_string v.endpoints.spec) v.id m)
                  u
                  (serve spec_string (put (spec_string v.endpoints.spec) v.id m) events).0)
          → (deliver r v (serve spec_string (put (spec_string v.endpoints.spec) v.id m) events)).1
            ≡ running
          → (u ≡ v) ⊎ WasReceived u events
          → Fate m u
              (deliver r v (serve spec_string (put (spec_string v.endpoints.spec) v.id m) events)).0
      go send_error ih o i = cc
      go timed_out ih o i = cc
      go sent ih o (inl same) = inl (inl same)
      go sent ih o (inr later) = elim (ih o later) [
        | inl there ↦ inl (inr there)
        | inr (inl held) ↦
            elim (Bool-cases (spec_string v.endpoints.spec =? spec_string u.endpoints.spec)) [
              | inl same ↦
                  let e =
                    (=?_iff (spec_string v.endpoints.spec) (spec_string u.endpoints.spec)).0 same in
                  inr (
                    inr
                      (v, inl refl, e, ltz_asymm u.id v.id (rw (max_id-put_same m v u e) at held)))
              | inr differs ↦ inr (inl (rw (max_id-put_ne m v u differs) at held))
            ]
        | inr (inr (x, there, e, above)) ↦ inr (inr (x, inr there, e, above))
      ]

  init_max_ids-zero :
      (specs : List ServiceSpec) (m : GoMap Str ℤ) (k : Str)
      → or_zero (get k m) ≡ pos 0
      → or_zero (get k (init_max_ids spec_string specs m)) ≡ pos 0
  unfolding init_max_ids
  init_max_ids-zero [] m k e = e
  init_max_ids-zero (s ∷ specs) m k e =
      init_max_ids-zero specs (put (spec_string s) (pos 0) m) k
        (ground (arith, get-put (spec_string s) k (pos 0) m))

  -- From the start of Resolve, and as long as it runs, each received update with an id that is not
  -- negative is handed to the stream, or an update for the same spec with at least its id is.
  pub serve_latest :
      (specs : List ServiceSpec) (events : List Event) (u : EndpointsUpdate)
      → (serve spec_string (init_max_ids spec_string specs []) events).1 ≡ running
      → WasReceived u events
      → ltz u.id (pos 0) ≡ false
      → In u (serve spec_string (init_max_ids spec_string specs []) events).0
        ⊎ ((v : EndpointsUpdate) × In v
              (serve spec_string (init_max_ids spec_string specs []) events).0
            × SameSpec v u
            × (ltz v.id u.id ≡ false))
  serve_latest specs events u o i n =
      elim (serve-Fate (init_max_ids spec_string specs []) events u o i) [
        | inl there ↦ inl there
        | inr (inl held) ↦
            let zero_id =
              init_max_ids-zero specs [] (spec_string u.endpoints.spec) (unfold get in refl) in
            absurd (false≢true (sym n ∙ (rw zero_id at held)))
        | inr (inr found) ↦ inr found
      ]

  -- The updates that Resolve hands to the stream never go back to a smaller id of the same spec.
  pub resolve-IsAscending :
      (specs : List ServiceSpec) (events : List Event)
      → IsAscending (serve spec_string (init_max_ids spec_string specs []) events).0
  resolve-IsAscending specs events = serve-IsAscending (init_max_ids spec_string specs []) events
