-- ===== src/Dashboard/Handlers/Sessions.antt =====
-- The user of the session after a login.
use skylb.Prelude.{
  ◌≡◌, refl, ap, ◌∙◌, ◌⊎◌, inl, inr, Bool, true, false, Option, some, Str, if◌then◌else◌,
}
use skylb.Go.Strings.{lit}
use skylb.Dashboard.Users.{User, add_role}
use skylb.Dashboard.Database.{
  ok, err, Answer, Database, authenticate, answer_user, merge_user_roles, merge_begun, merge_loaded,
  merge_new_user, load_user_by_login_name, named,
}
use skylb.Dashboard.Database.Laws.{and_then-elim}
use skylb.Dashboard.Handlers.{Site}
use skylb.Dashboard.Handlers.Login.{login_post_handler, login_api_handler, post_login, api_login}

module _ (db : Database) where
  open db use {World, Error, Tx}

  missing_name :
      (t : Tx) (user : User) (w : World) (e : Error) (b : Bool)
      → (if b
          then merge_new_user db user (db.commit t w).1
          else (user, (err e, db.rollback t w))).0.login_name
        ≡ user.login_name
  unfolding merge_new_user add_role
  missing_name t user w e true = refl
  missing_name t user w e false = refl

  loaded_name :
      (t : Tx) (user : User) (a : Answer db User)
      → (merge_loaded db t user a).0.login_name ≡ user.login_name
  unfolding merge_loaded
  loaded_name t user (ok u, w) = refl
  loaded_name t user (err e, w) = missing_name t user w e (db.is_no_more_rows e)

  begun_name :
      (user : User) (a : Answer db Tx) → (merge_begun db user a).0.login_name ≡ user.login_name
  unfolding merge_begun
  begun_name user (ok t, w) = loaded_name t user (load_user_by_login_name db t user.login_name w)
  begun_name user (err e, w) = refl

  -- The LDAP server accepts the password.
  abbrev pub IsAccepted : Str → Str → World → Type 0
  IsAccepted name password w =
      ((db.ldap_dial w).0 ≡ ok tt) × ((db.ldap_auth name password (db.ldap_dial w).1).0 ≡ ok true)

  -- An answer with a user: the user has the name, whose password is accepted.
  abbrev IsVouched : Str → Str → World → Answer db User → Type 0
  IsVouched name password w (ok u, w') = (u.login_name ≡ name) × IsAccepted name password w
  IsVouched name password w (err e, w') = Unit

  answered :
      (name password : Str) (w : World) (m : User × Answer db (Unit {0}))
      → m.0.login_name ≡ name
      → IsAccepted name password w
      → IsVouched name password w (answer_user db m)
  answered name password w (u, (ok n, w')) h k = (h, k)
  answered name password w (u, (err e, w')) h k = tt

  decided :
      (name password : Str) (w w' : World) (b : Bool)
      → (b ≡ true → IsAccepted name password w)
      → IsVouched name password w (
          if b
          then answer_user db (merge_user_roles db (named db name) w')
          else (err (db.errors_new (lit "invalid user name or password")), w'))
  unfolding merge_user_roles
  decided name password w w' true h =
      answered name password w (merge_user_roles db (named db name) w')
        (begun_name (named db name) (db.new_tx w')) (h refl)
  decided name password w w' false h = tt

  authenticate-IsVouched :
      (name password : Str) (w : World)
      → IsVouched name password w (authenticate db name password w)
  unfolding authenticate
  authenticate-IsVouched name password w =
      and_then-elim db (IsVouched name password w) (db.ldap_dial w) _
        (λ u w1 e.
          and_then-elim db (IsVouched name password w) (db.ldap_auth name password w1) _
            (λ b w2 f.
              decided name password w w2 b
                (λ t. (ap (λ a. a.0) e, rw (ap (λ a. a.1) e) (ap (λ a. a.0) f ∙ ap ok t))))
            (λ x w2 f. tt))
        (λ x w1 e. tt)

module _ (site : Site) where
  open site use {db}

  -- The session is the one of before, or it has a user of the name whose password is accepted.
  abbrev pub IsVouchedSession : Str → Str → db.World → Option User → Option User → Type 0
  IsVouchedSession name password w before after =
      (after ≡ before)
      ⊎ ((u : User) × (after ≡ some u) × (u.login_name ≡ name) × IsAccepted db name password w)

  post_login-lem :
      (name password : Str) (w : db.World) (session : Option User) (a : Answer db User)
      → IsVouched db name password w a
      → IsVouchedSession name password w session (post_login site session a).1
  post_login-lem name password w session (ok u, w') h = inr (u, refl, h.0, h.1)
  post_login-lem name password w session (err e, w') h = inl refl

  api_login-lem :
      (name password : Str) (w : db.World) (session : Option User) (a : Answer db User)
      → IsVouched db name password w a
      → IsVouchedSession name password w session (api_login site session a).1
  api_login-lem name password w session (ok u, w') h = inr (u, refl, h.0, h.1)
  api_login-lem name password w session (err e, w') h = inl refl

  -- Outside the debug mode a login, by the form or by the message, leaves the user of the session as it
  -- was, or sets a user of the name that is given, for whom the LDAP server accepts the password.
  pub login_sessions :
      (name password : Str) (session : Option User) (w : db.World)
      → IsVouchedSession name password w session
          (login_post_handler site false name password session w).1
        × IsVouchedSession name password w session
            (login_api_handler site false
              (some (record { login_name = name; password = password }))
              session
              w).1
  unfolding login_post_handler login_api_handler
  login_sessions name password session w = (
    post_login-lem name password w session _ (authenticate-IsVouched db name password w),
    api_login-lem name password w session _ (authenticate-IsVouched db name password w),
  )
