-- ===== src/Dashboard/Handlers/Guards.antt =====
-- Who may change what through the handlers of the dashboard, and what an answer tells.
use skylb.Prelude.{
  ℕ, ◌≡◌, ◌≢◌, refl, inl, inr, Bool, true, false, not, ◌&&◌, List, [], ◌∷◌, Option, none, some, Str,
  ℤ, arith, str_eq, Bool-cases, Option-cases, length, ◌≤◌,
}
use skylb.Go.Strings.{split, index, push, split-ne-nil}
use skylb.Dashboard.Users.{User, is_admin}
use skylb.Dashboard.Database.{Result, ok, err}
use skylb.Dashboard.Handlers.{
  Site, Reply, bad_request, Status, status, UpsertUserRequest, upsert_user_handler,
}
use skylb.Dashboard.Handlers.Instances.{
  AddInstanceRequest, ToggleLameduckRequest, is_address, host_port_of, add_instance_handler,
  toggle_lameduck_handler, add_instance_request, toggle_request, log_operation,
}

-- The requests that change something, each with what proto.Unmarshal makes of its body.
pub data WriteRequest : Type 0 where
  add_instance : Option AddInstanceRequest → WriteRequest
  toggle_lameduck : Option ToggleLameduckRequest → WriteRequest
  save_user : Option UpsertUserRequest → WriteRequest

-- Who may make a request: an administrator, and to save a user one whose account is not disabled.
abbrev pub may_write : WriteRequest → Option User → Bool
may_write req none = false
may_write (add_instance body) (some u) = is_admin u
may_write (toggle_lameduck body) (some u) = is_admin u
may_write (save_user body) (some u) = is_admin u && not u.disabled

module _ (site : Site) where
  -- A handler answers and changes nothing.
  abbrev pub IsRefused : Option (Reply Status × site.db.World) → site.db.World → Type 0
  IsRefused outcome w = (r : Reply Status) × (outcome ≡ some (r, w))

  -- The routes of web.go for these requests.
  pub write_handler :
      WriteRequest → Option User → site.db.World → Option (Reply Status × site.db.World)
  unfolding add_instance_handler toggle_lameduck_handler upsert_user_handler
  write_handler (add_instance body) session w = add_instance_handler site body session w
  write_handler (toggle_lameduck body) session w = toggle_lameduck_handler site body session w
  write_handler (save_user body) session w = upsert_user_handler site body session w

  upsert_user_handler-IsRefused :
      (u : User) (w : site.db.World) (req : UpsertUserRequest)
      → (is_admin u && not u.disabled) ≡ false
      → IsRefused (upsert_user_handler site (some req) (some u) w) w
  unfolding upsert_user_handler
  upsert_user_handler-IsRefused u w req h = elim (Bool-cases (is_admin u)) [
    | inl t ↦ let d : u.disabled ≡ true = ground arith in rw (t, d) (_, refl)
    | inr f ↦ rw f (_, refl)
  ]

  -- A request that the user of the session may not make is answered, and changes nothing: adding an
  -- instance and changing a lame duck mode take an administrator, and saving a user takes one whose
  -- account is not disabled. Without a user in the session none of them changes anything.
  pub write_handler-IsRefused :
      (req : WriteRequest) (session : Option User) (w : site.db.World)
      → may_write req session ≡ false
      → IsRefused (write_handler req session w) w
  unfolding write_handler add_instance_handler toggle_lameduck_handler upsert_user_handler
  write_handler-IsRefused (add_instance body) none w h = (_, refl)
  write_handler-IsRefused (add_instance body) (some u) w h = rw h (_, refl)
  write_handler-IsRefused (toggle_lameduck body) none w h = (_, refl)
  write_handler-IsRefused (toggle_lameduck body) (some u) w h = rw h (_, refl)
  write_handler-IsRefused (save_user none) session w h = (_, refl)
  write_handler-IsRefused (save_user (some req)) none w h = (_, refl)
  write_handler-IsRefused (save_user (some req)) (some u) w h =
      upsert_user_handler-IsRefused u w req h

length-nonzero : (ws : List Str) → ws ≢ [] → 1 ≤ length ws
length-nonzero [] h = absurd (h refl)
length-nonzero (w ∷ ws) h = omega arith

-- A text with the separator in it is split in two pieces or more.
length-push : (x : ℕ) (ws : List Str) → ws ≢ [] → length (push x ws) ≡ length ws
length-push x [] h = absurd (h refl)
length-push x (w ∷ ws) h = refl

length-split : (c : ℕ) (s : Str) (i : ℕ) → index c s ≡ some i → 2 ≤ length (split c s)
unfolding split index
length-split c [] i h = ground arith
length-split c (x ∷ s) i h =
    let tail_cases : (split c s ≢ []) = split-ne-nil c s in
    elim (Option-cases (index c s)) [
      | inl n ↦ ground (arith, length-nonzero (split c s) tail_cases)
      | inr (j, e) ↦ ground (arith, length-split c s j e, length-push x (split c s) tail_cases)
    ]

is_address-split : (a : Str) → is_address a ≡ true → 2 ≤ length (split b':' a)
unfolding is_address
is_address-split a h = elim (Option-cases (index b':' a)) [
  | inl n ↦ ground arith
  | inr (i, e) ↦ length-split b':' a i e
]

module _ (site : Site) where
  open site use {db, service_id_to_name, host_port, set_lame_duck_mode, unset_lame_duck_mode}

  HostPort-of_two : (ps : List Str) → 2 ≤ length ps → (hp : Str) × (host_port_of site ps ≡ some hp)
  HostPort-of_two [] h = ground arith
  HostPort-of_two (x ∷ []) h = ground arith
  HostPort-of_two (x ∷ y ∷ ps) h = (host_port x y, refl)

  -- A handler answers: it does not panic.
  abbrev pub Answers : Option (Reply Status × db.World) → Type 0
  Answers outcome = (r : Reply Status) × (w : db.World) × (outcome ≡ some (r, w))

  -- It answers without an error message.
  abbrev pub AnswersNoError : Option (Reply Status × db.World) → Type 0
  AnswersNoError outcome = (w : db.World) × (outcome ≡ some (status [], w))

  log_operation-status :
      (u : User) (id : ℤ) (operation : Str) (a : Result db.Error (Unit {0}) × db.World)
      → AnswersNoError (some (log_operation site u id operation a))
  unfolding log_operation
  log_operation-status u id operation (ok n, w) = (_, refl)
  log_operation-status u id operation (err e, w) = (_, refl)

  add_instance_request-lem :
      (u : User) (req : AddInstanceRequest) (w : db.World) (name : Str)
      → service_id_to_name req.id ≡ some name
      → is_address req.address ≡ true
      → AnswersNoError (add_instance_request site u req w)
  unfolding add_instance_request
  add_instance_request-lem u req w name n h =
      let hp = HostPort-of_two (split b':' req.address) (is_address-split req.address h) in
      rw (add_instance_request, n, h, hp.1)
        (log_operation-status u req.id _ (set_lame_duck_mode name hp.0 w))

  toggle_request-lem :
      (u : User) (req : ToggleLameduckRequest) (w : db.World) (name : Str)
      → service_id_to_name req.id ≡ some name
      → is_address req.address ≡ true
      → AnswersNoError (toggle_request site u req w)
  unfolding toggle_request
  toggle_request-lem u req w name n h =
      let hp = HostPort-of_two (split b':' req.address) (is_address-split req.address h) in
      rw (toggle_request, n, h, hp.1) (log_operation-status u req.id _ _)

  -- For an administrator who names a known service and an address with a colon, both handlers answer
  -- without an error message, whatever the lame duck call and the write of the log return.
  pub valid_requests :
      (u : User) (w : db.World) (add : AddInstanceRequest) (toggle : ToggleLameduckRequest)
      (name other_name : Str)
      → is_admin u ≡ true
      → service_id_to_name add.id ≡ some name
      → is_address add.address ≡ true
      → service_id_to_name toggle.id ≡ some other_name
      → is_address toggle.address ≡ true
      → AnswersNoError (add_instance_handler site (some add) (some u) w)
        × AnswersNoError (toggle_lameduck_handler site (some toggle) (some u) w)
  unfolding add_instance_handler toggle_lameduck_handler
  valid_requests u w add toggle name other_name m n h n' h' =
      rw m
        (add_instance_request-lem u add w name n h, toggle_request-lem u toggle w other_name n' h')

  Answers-of_NoError : (o : Option (Reply Status × db.World)) → AnswersNoError o → Answers o
  Answers-of_NoError o (w, e) = (status [], w, e)

  add_instance_request-Answers :
      (u : User) (req : AddInstanceRequest) (w : db.World)
      → Answers (add_instance_request site u req w)
  unfolding add_instance_request
  add_instance_request-Answers u req w = elim (Option-cases (service_id_to_name req.id)) [
    | inl n ↦ rw (add_instance_request, n) (_, _, refl)
    | inr (name, n) ↦ elim (Bool-cases (is_address req.address)) [
      | inl t ↦ Answers-of_NoError _ (add_instance_request-lem u req w name n t)
      | inr f ↦ rw (add_instance_request, n, f) (_, _, refl)
    ]
  ]

  toggle_request-Answers :
      (u : User) (req : ToggleLameduckRequest) (w : db.World)
      → Answers (toggle_request site u req w)
  unfolding toggle_request
  toggle_request-Answers u req w = elim (Option-cases (service_id_to_name req.id)) [
    | inl n ↦ rw (toggle_request, n) (_, _, refl)
    | inr (name, n) ↦ elim (Bool-cases (is_address req.address)) [
      | inl t ↦ Answers-of_NoError _ (toggle_request-lem u req w name n t)
      | inr f ↦ rw (toggle_request, n, f) (_, _, refl)
    ]
  ]

  add_decoded :
      (u : User) (w : db.World) (add : Option AddInstanceRequest)
      → Answers
          (elim add [ none ↦ some (bad_request, w) | some req ↦ add_instance_request site u req w ])
  add_decoded u w none = (_, _, refl)
  add_decoded u w (some req) = add_instance_request-Answers u req w

  toggle_decoded :
      (u : User) (w : db.World) (toggle : Option ToggleLameduckRequest)
      → Answers
          (elim toggle [ none ↦ some (bad_request, w) | some req ↦ toggle_request site u req w ])
  toggle_decoded u w none = (_, _, refl)
  toggle_decoded u w (some req) = toggle_request-Answers u req w

  -- Both handlers answer every request, so the pieces of the address that they take are there.
  pub instance_handlers_answer :
      (session : Option User) (w : db.World) (add : Option AddInstanceRequest)
      (toggle : Option ToggleLameduckRequest)
      → Answers (add_instance_handler site add session w)
        × Answers (toggle_lameduck_handler site toggle session w)
  unfolding add_instance_handler toggle_lameduck_handler
  instance_handlers_answer none w add toggle = ((_, _, refl), (_, _, refl))
  instance_handlers_answer (some u) w add toggle = elim (Bool-cases (is_admin u)) [
    | inl t ↦ rw t (add_decoded u w add, toggle_decoded u w toggle)
    | inr f ↦ rw f ((_, _, refl), (_, _, refl))
  ]
