-- ===== src/Hub/Watcher/Order.antt =====
-- The goroutines of applyEndpoints take their numbers when they run: the order of the numbers is not
-- that of the updates.
use skylb.Prelude.{
  ℕ, ◌+◌, ◌<◌, ◌≡◌, refl, ◌∙◌, false, List, [], ◌∷◌, ◌++◌, some, arith, length, length-append,
  nat_eq, inc_int64, =?_refl,
}
use skylb.Go.Maps.{get, put, get-put}
use skylb.Api.{ServiceSpec, ServiceEndpoints, InstanceEndpoint}
use skylb.Deps.{Deps}
use skylb.Hub.State.{ClientObject, EndpointsHub, Notification, Channel, send_room}
use skylb.Hub.Updates.{notify, is_stopped}
use skylb.Hub.Watcher.{notified, Run, done, then_step}

abbrev pub served : ServiceSpec → InstanceEndpoint → List InstanceEndpoint → ServiceEndpoints
served spec ep eps = record { spec = spec; inst_endpoints = ep ∷ eps }

-- The hub after a goroutine has sent.
abbrev sent : ℕ → Channel → ServiceEndpoints → EndpointsHub → EndpointsHub
sent ch c eps h = record h {
  next_update_id = inc_int64 h.next_update_id;
  channels =
      put ch
        (record c {
          buffer = c.buffer ++ record { id = inc_int64 h.next_update_id; endpoints = eps } ∷ [];
        })
        h.channels;
}

notify_room :
    (ob : ClientObject) (spec : ServiceSpec) (ep : InstanceEndpoint) (eps : List InstanceEndpoint)
    (h : EndpointsHub) (c : Channel)
    → is_stopped ob.stop_ch h.stopped ≡ false
    → get ob.notify_ch h.channels ≡ some c
    → length c.buffer < c.capacity
    → notify false (record { observer = ob; endpoints = served spec ep eps }) h
      ≡ some (sent ob.notify_ch c (served spec ep eps) h)
unfolding notify
notify_room ob spec ep eps h c live e room =
    rw live
      (send_room ob.notify_ch _ (record h { next_update_id = inc_int64 h.next_update_id }) c e room)

module _ (d : Deps) where
  -- Of two goroutines for one observer, whose channel has room for both and which is not stopped, the
  -- later one may run first: then the channel gets the later endpoints under the smaller number, and
  -- after them the earlier ones under the next.
  pub notified_in_reverse :
      (ob : ClientObject) (spec : ServiceSpec) (ep ep' : InstanceEndpoint)
      (eps eps' : List InstanceEndpoint) (h : EndpointsHub) (w : d.World) (c : Channel)
      → h.notifications
        ≡ record { observer = ob; endpoints = served spec ep eps }
          ∷ record { observer = ob; endpoints = served spec ep' eps' }
          ∷ []
      → is_stopped ob.stop_ch h.stopped ≡ false
      → get ob.notify_ch h.channels ≡ some c
      → length c.buffer + 1 < c.capacity
      → (after : EndpointsHub) × Run d (h, w) (after, w)
        × (get ob.notify_ch after.channels
            ≡ some (record c {
              buffer =
                  (c.buffer
                    ++ record { id = inc_int64 h.next_update_id; endpoints = served spec ep' eps' }
                      ∷ [])
                  ++ record {
                    id = inc_int64 (inc_int64 h.next_update_id);
                    endpoints = served spec ep eps;
                  }
                    ∷ [];
            }))
  notified_in_reverse ob spec ep ep' eps eps' h w c pending live e room =
      let old : Notification = record { observer = ob; endpoints = served spec ep eps } in
      let new : Notification = record { observer = ob; endpoints = served spec ep' eps' } in
      let h1 : EndpointsHub = record h { notifications = old ∷ [] } in
      let k1 : EndpointsHub = sent ob.notify_ch c (served spec ep' eps') h1 in
      let c1 : Channel = record c {
        buffer =
            c.buffer
            ++ record { id = inc_int64 h.next_update_id; endpoints = served spec ep' eps' } ∷ [];
      } in
      let h2 : EndpointsHub = record k1 { notifications = [] } in
      let k2 : EndpointsHub = sent ob.notify_ch c1 (served spec ep eps) h2 in
      let e1 : get ob.notify_ch h2.channels ≡ some c1 =
        get-put ob.notify_ch ob.notify_ch c1 h.channels ∙ rw (=?_refl ob.notify_ch) refl in
      (
        k2,
        then_step (h, w) (k1, w) (k2, w)
            (notified (old ∷ []) new [] false h k1 w pending
              (notify_room ob spec ep' eps' h1 c live e (omega (arith, room))))
            (then_step (k1, w) (k2, w) (k2, w)
              (notified [] old [] false k1 k2 w refl (
                notify_room ob spec ep eps h2 c1 live e1 (
                  ground (
                    arith,
                    length-append c.buffer (
                        record { id = inc_int64 h.next_update_id; endpoints = served spec ep' eps' }
                        ∷ []),
                  ))))
              (done (k2, w))),
        get-put ob.notify_ch ob.notify_ch
              (record c1 {
                buffer =
                    c1.buffer
                    ++ record { id = inc_int64 h2.next_update_id; endpoints = served spec ep eps }
                      ∷ [];
              })
              h2.channels
            ∙ rw (=?_refl ob.notify_ch) refl,
      )
