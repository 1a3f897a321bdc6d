-- ===== src/Hub/Observers/Addition.antt =====
-- hub/observer.go: what AddObserver adds.
use skylb.Prelude.{
  ℕ, suc, ◌+◌, ◌*◌, ◌≤◌, ◌≡◌, refl, ap, sym, ◌∙◌, Bool, List, [], ◌∷◌, ◌++◌, some, Str, arith,
  length, length-append, if◌then◌else◌, Bool-cases, ◌=?◌, =?_iff, =?_refl, str_eq, nat_eq, inl, inr,
  ◌⊎◌, In, In-append_left, In-append_right,
}
use skylb.Go.Maps.{get, put, get-put}
use skylb.Api.{ServiceSpec, Endpoints, Fetched, ok, err, EtcdError}
use skylb.Deps.{Deps}
use skylb.Hub.Key.{calculate_key}
use skylb.Hub.Endpoints.{skypb_endpoints_to_map, diff_endpoints}
use skylb.Hub.State.{ClientObject, ServiceObject, EndpointsUpdate, Channel, EndpointsHub, send_room}
use skylb.Hub.Observers.{
  Added, observing, failed, service_or_new, append_observer, fetch, enter, start_observing,
  observe_all, add_observer, chan_cap_multiplication, client_object, new_channel,
}

-- The channel has room for `n` more updates.
abbrev pub HasRoom : ℕ → ℕ → EndpointsHub → Type 0
HasRoom ch n h = (c : Channel) × (get ch h.channels ≡ some c) × (length c.buffer + n ≤ c.capacity)

module _ (d : Deps) where
  abbrev key_of : ServiceSpec → Str
  key_of spec = calculate_key d spec.namespace spec.service_name

  -- The client at the address watches the spec over the channel.
  abbrev pub IsWatched : ServiceSpec → Str → ℕ → EndpointsHub → Type 0
  IsWatched spec client_addr ch h =
      (so : ServiceObject) × (co : ClientObject) × (get (key_of spec) h.services ≡ some so)
      × In co so.observers
      × (co.spec ≡ spec)
      × (co.client_addr ≡ client_addr)
      × (co.notify_ch ≡ ch)

  start_observing_room :
      (spec : ServiceSpec) (eps : Endpoints) (ch n : ℕ) (h : EndpointsHub)
      → HasRoom ch (suc n) h
      → (h' : EndpointsHub) × (start_observing d spec eps ch h ≡ some h')
        × HasRoom ch n h'
        × (h'.services
            ≡ put
                (key_of spec)
                (service_or_new spec
                  (skypb_endpoints_to_map spec eps)
                  (get (key_of spec) h.services))
                h.services)
  unfolding start_observing
  start_observing_room spec eps ch n h (c, e, room) =
      let eps_map = skypb_endpoints_to_map spec eps in
      let entered = enter d spec eps_map h in
      let up : EndpointsUpdate = record {
        id = entered.next_update_id;
        endpoints = diff_endpoints spec [] eps_map;
      } in
      let c' : Channel = record c { buffer = c.buffer ++ up ∷ [] } in
      (
        record entered { channels = put ch c' h.channels },
        send_room ch up entered c (unfold enter in e) (omega arith),
        (
          c',
          ground (arith, get-put ch ch c' h.channels, =?_refl ch),
          omega (arith, length-append c.buffer (up ∷ [])),
        ),
        unfold enter in refl,
      )

  -- The services after one round of the loop.
  pub get-append_observer :
      (key j : Str) (co : ClientObject) (h : EndpointsHub) (so : ServiceObject)
      → get key h.services ≡ some so
      → get j (append_observer key co h).services ≡ (
          if key =? j
          then some (record so { observers = so.observers ++ co ∷ [] })
          else get j h.services)
  unfolding append_observer
  get-append_observer key j co h so e =
      rw (e, append_observer)
        (get-put key j (record so { observers = so.observers ++ co ∷ [] }) h.services)

  channels-append_observer :
      (key : Str) (co : ClientObject) (h : EndpointsHub)
      → (append_observer key co h).channels ≡ h.channels
  unfolding append_observer
  channels-append_observer key co h = ground arith

  -- What one round of the loop does where the fetch returned `eps`.
  record Round (spec : ServiceSpec) (co : ClientObject) (ch n : ℕ) (h h' : EndpointsHub)
      : Type 0 where
    room : HasRoom ch n h'
    new : (so : ServiceObject) × (get (key_of spec) h'.services ≡ some so) × In co so.observers
    old :
        (j : Str) (so : ServiceObject) (ob : ClientObject)
        → get j h.services ≡ some so
        → In ob so.observers
        → (so' : ServiceObject) × (get j h'.services ≡ some so') × In ob so'.observers

  round_lem :
      (spec : ServiceSpec) (eps : Endpoints) (co : ClientObject) (ch n : ℕ) (h : EndpointsHub)
      → HasRoom ch (suc n) h
      → (h' : EndpointsHub) × (start_observing d spec eps ch h ≡ some h')
        × Round spec co ch n h (append_observer (key_of spec) co h')
  round_lem spec eps co ch n h r =
      let (h', e, (c, ec, rc), es) = start_observing_room spec eps ch n h r in
      let key = key_of spec in
      let so = service_or_new spec (skypb_endpoints_to_map spec eps) (get key h.services) in
      let so' : ServiceObject = record so { observers = so.observers ++ co ∷ [] } in
      let at_key : get key h'.services ≡ some so =
        ap (get key) es ∙ get-put key key so h.services ∙ rw (=?_refl key) in
      (
        h',
        e,
        record {
          room = (c, ap (get ch) (channels-append_observer key co h') ∙ ec, rc);
          new = (
            so',
            get-append_observer key key co h' so at_key ∙ rw (=?_refl key),
            In-append_right co so.observers (co ∷ []) (inl refl),
          );
          old = λ j t ob et i. elim (Bool-cases (key =? j)) [
            | inl same ↦
                let own : get key h.services ≡ some t =
                  ap (λ k. get k h.services) ((=?_iff key j).0 same) ∙ et in
                (
                  so',
                  get-append_observer key j co h' so at_key ∙ rw same,
                  In-append_left ob so.observers (co ∷ [])
                      (rw (ap (service_or_new spec (skypb_endpoints_to_map spec eps)) own) i),
                )
            | inr differs ↦ (
              t,
              get-append_observer key j co h' so at_key
                  ∙ rw differs (ap (get j) es ∙ get-put key j so h.services ∙ rw differs et),
              i,
            )
          ];
        },
      )

  observe_all-failed :
      (spec : ServiceSpec) (specs : List ServiceSpec) (addr : Str) (full : Bool) (ch : ℕ)
      (h : EndpointsHub) (w : d.World) (e : EtcdError)
      → (fetch d spec w).0 ≡ err e
      → observe_all d (spec ∷ specs) addr full ch h w
        ≡ (failed e, new_channel h, (fetch d spec w).1)
  unfolding observe_all
  observe_all-failed spec specs addr full ch h w e q = rw (q, observe_all)

  observe_all-round :
      (spec : ServiceSpec) (specs : List ServiceSpec) (addr : Str) (full : Bool) (ch : ℕ)
      (h h' : EndpointsHub) (w : d.World) (eps : Endpoints)
      → (fetch d spec w).0 ≡ ok eps
      → start_observing d spec eps ch (new_channel h) ≡ some h'
      → observe_all d (spec ∷ specs) addr full ch h w
        ≡ observe_all d specs addr full ch
            (append_observer (key_of spec) (client_object spec addr full ch h.next_channel) h')
            (fetch d spec w).1
  unfolding observe_all
  observe_all-round spec specs addr full ch h h' w eps q e =
      rw (q, observe_all) (rw (e, observe_all))

  -- The fetch of a service returned, or failed.
  fetch_cases :
      (spec : ServiceSpec) (w : d.World)
      → ((e : EtcdError) × ((fetch d spec w).0 ≡ err e))
        ⊎ ((eps : Endpoints) × ((fetch d spec w).0 ≡ ok eps))
  fetch_cases spec w = go (fetch d spec w).0 refl
    where
      go :
          (r : Fetched Endpoints)
          → (fetch d spec w).0 ≡ r
          → ((e : EtcdError) × ((fetch d spec w).0 ≡ err e))
            ⊎ ((eps : Endpoints) × ((fetch d spec w).0 ≡ ok eps))
      go (err e) q = inl (e, q)
      go (ok eps) q = inr (eps, q)

  -- Observers that are there stay there.
  observe_all-old :
      (specs : List ServiceSpec) (addr : Str) (full : Bool) (ch : ℕ) (h : EndpointsHub)
      (w : d.World) (s : ServiceSpec) (a : Str) (c : ℕ)
      → HasRoom ch (length specs) h
      → IsWatched s a c h
      → IsWatched s a c (observe_all d specs addr full ch h w).1
  observe_all-old [] addr full ch h w s a c r i = unfold observe_all in i
  observe_all-old (spec ∷ specs) addr full ch h w s a c r i = elim (fetch_cases spec w) [
    | inl (e, q) ↦ rw (observe_all-failed spec specs addr full ch h w e q) i
    | inr (eps, q) ↦
        let co = client_object spec addr full ch h.next_channel in
        let (h', e, round) = round_lem spec eps co ch (length specs) (new_channel h) r in
        let (so, ob, at_key, here, p, p', p'') = i in
        let (so', at_key', here') = round.old (key_of s) so ob at_key here in
        rw (observe_all-round spec specs addr full ch h h' w eps q e) (
          observe_all-old specs addr full ch (append_observer (key_of spec) co h')
            (fetch d spec w).1 s a c round.room (so', ob, at_key', here', p, p', p''))
  ]

  observe_all-watches :
      (specs : List ServiceSpec) (addr : Str) (full : Bool) (ch c : ℕ) (h : EndpointsHub)
      (w : d.World) (spec : ServiceSpec)
      → HasRoom ch (length specs) h
      → (observe_all d specs addr full ch h w).0 ≡ observing c
      → In spec specs
      → IsWatched spec addr ch (observe_all d specs addr full ch h w).1
  observe_all-watches [] addr full ch c h w s r o i = absurd i.1
  observe_all-watches (spec ∷ specs) addr full ch c h w s r o i = elim (fetch_cases spec w) [
    | inl (e, q) ↦
        let clash : failed e ≡ observing c =
          ap (λ (t : Added × EndpointsHub × d.World). t.0)
            (sym (observe_all-failed spec specs addr full ch h w e q))
          ∙ o in
        cc
    | inr (eps, q) ↦
        let co = client_object spec addr full ch h.next_channel in
        let (h', e, round) = round_lem spec eps co ch (length specs) (new_channel h) r in
        let h'' = append_observer (key_of spec) co h' in
        let w' = (fetch d spec w).1 in
        let (so, at_key, here) = round.new in
        rw (observe_all-round spec specs addr full ch h h' w eps q e) (elim i [
          | inl same ↦
              observe_all-old specs addr full ch h'' w' s addr ch round.room
                (rw same (so, co, at_key, here, refl, refl, refl))
          | inr later ↦
              observe_all-watches specs addr full ch c h'' w' s round.room
                (ap (λ (t : Added × EndpointsHub × d.World). t.0)
                    (sym (observe_all-round spec specs addr full ch h h' w eps q e))
                  ∙ o)
                later
        ])
  ]

  -- The channel that the loop returns is the one that it sent to.
  observe_all-channel :
      (specs : List ServiceSpec) (addr : Str) (full : Bool) (ch c : ℕ) (h : EndpointsHub)
      (w : d.World)
      → HasRoom ch (length specs) h
      → (observe_all d specs addr full ch h w).0 ≡ observing c
      → ch ≡ c
  observe_all-channel [] addr full ch c h w r o =
      let start : (observe_all d [] addr full ch h w).0 ≡ observing ch =
        unfold observe_all in refl in
      let same : observing ch ≡ observing c = sym start ∙ o in cc
  observe_all-channel (spec ∷ specs) addr full ch c h w r o = elim (fetch_cases spec w) [
    | inl (e, q) ↦
        let clash : failed e ≡ observing c =
          ap (λ (t : Added × EndpointsHub × d.World). t.0)
            (sym (observe_all-failed spec specs addr full ch h w e q))
          ∙ o in
        cc
    | inr (eps, q) ↦
        let co = client_object spec addr full ch h.next_channel in
        let (h', e, round) = round_lem spec eps co ch (length specs) (new_channel h) r in
        observe_all-channel specs addr full ch c (append_observer (key_of spec) co h')
          (fetch d spec w).1 round.room
          (ap (λ (t : Added × EndpointsHub × d.World). t.0)
              (sym (observe_all-round spec specs addr full ch h h' w eps q e))
            ∙ o)
  ]

  -- The channel that AddObserver makes has room for one update of each spec.
  fresh_room :
      (specs : List ServiceSpec) (h : EndpointsHub)
      → HasRoom h.next_channel (length specs) (record h {
        channels =
            put h.next_channel
              (record { capacity = chan_cap_multiplication * length specs; buffer = [] })
              h.channels;
        next_channel = h.next_channel + 1;
      })
  unfolding chan_cap_multiplication
  fresh_room specs h =
      let c : Channel = record { capacity = 10 * length specs; buffer = [] } in
      (
        c,
        get-put h.next_channel h.next_channel c h.channels ∙ rw (=?_refl h.next_channel),
        omega arith,
      )

  -- When AddObserver, run with no other goroutine of the hub in between, returns a channel, each of the
  -- specs is watched for the client over this channel.
  pub add_observer-watches :
      (specs : List ServiceSpec) (addr : Str) (full : Bool) (h : EndpointsHub) (w : d.World) (c : ℕ)
      (spec : ServiceSpec)
      → (add_observer d specs addr full h w).0 ≡ observing c
      → In spec specs
      → IsWatched spec addr c (add_observer d specs addr full h w).1
  unfolding add_observer
  add_observer-watches specs addr full h w c spec o i =
      let room = fresh_room specs h in
      let same = observe_all-channel specs addr full h.next_channel c _ w room o in
      rw (← same) (observe_all-watches specs addr full h.next_channel c _ w spec room o i)

  -- Once the fetch of the first spec has returned, its observer is there, however AddObserver ends.
  pub add_observer-first :
      (spec : ServiceSpec) (specs : List ServiceSpec) (addr : Str) (full : Bool) (h : EndpointsHub)
      (w : d.World) (eps : Endpoints)
      → (fetch d spec w).0 ≡ ok eps
      → IsWatched spec addr h.next_channel (add_observer d (spec ∷ specs) addr full h w).1
  unfolding add_observer
  add_observer-first spec specs addr full h w eps q =
      let ch = h.next_channel in
      let c : Channel = record {
        capacity = chan_cap_multiplication * length (spec ∷ specs);
        buffer = [];
      } in
      let start : EndpointsHub = record h {
        channels = put ch c h.channels;
        next_channel = ch + 1;
      } in
      let co = client_object spec addr full ch start.next_channel in
      let (h', e, round) =
        round_lem spec eps co ch (length specs) (new_channel start) (fresh_room (spec ∷ specs) h) in
      let (so, at_key, here) = round.new in
      rw (observe_all-round spec specs addr full ch start h' w eps q e) (
        observe_all-old specs addr full ch (append_observer (key_of spec) co h') (fetch d spec w).1
          spec addr ch round.room (so, co, at_key, here, refl, refl, refl))
