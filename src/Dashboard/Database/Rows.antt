-- ===== src/Dashboard/Database/Rows.antt =====
-- What the operations of dashboard/db that succeed do to the rows of users.
use skylb.Prelude.{
  ◌≡◌, refl, sym, ap, ◌∙◌, ◌⊎◌, inl, inr, Bool, true, false, Option, none, some, Str, pos,
  if◌then◌else◌, to_int32, inc_int64, ◌=?◌, str_eq,
}
use skylb.Go.Strings.{lit}
use skylb.Dashboard.Users.{User, add_role, role_developer}
use skylb.Dashboard.Database.{
  Result, ok, err, Database, Answer, roll_back_on_error, and_then, commit_or_roll_back, begun,
  update_user_in, update_user, merge_loaded, merge_begun, merge_new_user, merge_user_roles,
  updated_row, with_row, log_change, write_found, quoted,
}
use skylb.Dashboard.Database.Laws.{
  TxView, TxLaws, Rows, IsIdle, Begins, Commits, Finds, Reads, Writes,
}

-- The rows with one of them written.
abbrev pub with_stored : Str → User → Rows → Rows
with_stored name u rows k = if name =? k then some u else rows k

err-ne-ok : {E A : Type 0} (e : E) (a : A) (r : Result E A) → r ≡ err e → ¬ (r ≡ ok a)
err-ne-ok e a r h k = cc

module _ (db : Database) (v : TxView db) (laws : TxLaws db v) where
  open db use {World, Error, Tx}
  open v use {stored, view}

  -- The rows that a successful update sees in the place of those before it.
  abbrev pub IsUpdate : User → Rows → Rows → Type 0
  IsUpdate target before after =
      (u : User) × (before target.login_name ≡ some u)
      × (after
          ≡ with_stored target.login_name
              (record {
                login_name = u.login_name;
                roles = target.roles;
                disabled = target.disabled;
                version = to_int32 (inc_int64 u.version);
              })
              before)

  -- The body of an update, where it succeeds: what its transaction sees, and nothing stored yet.
  abbrev IsDone : Tx → User → World → Answer db (Unit {0}) → Type 0
  IsDone t target w (ok n, w') = (stored w' ≡ stored w) × IsUpdate target (view t w) (view t w')
  IsDone t target w (err e, w') = Unit

  logged-IsDone :
      (t : Tx) (target u : User) (w w1 w2 : World) (a : Answer db (Unit {0}))
      → IsIdle db v w w1
      → (view t w1 ≡ view t w) × (view t w target.login_name ≡ some u)
      → IsIdle db v w1 w2
        × (view t w2 ≡ with_stored target.login_name (updated_row target u) (view t w1))
      → Reads db v t w2 a
      → IsDone t target w a
  logged-IsDone t target u w w1 w2 (ok n, w3) i f g r = (
    r.0.0 ∙ g.0.0 ∙ i.0,
    (u, f.1, r.1 ∙ g.1 ∙ ap (with_stored target.login_name (updated_row target u)) f.0),
  )
  logged-IsDone t target u w w1 w2 (err e, w3) i f g r = tt

  written-IsDone :
      (t : Tx) (cur target u : User) (w w1 : World) (a : Answer db (Unit {0}))
      → IsIdle db v w w1
      → (view t w1 ≡ view t w) × (view t w target.login_name ≡ some u)
      → Writes db v t target.login_name (updated_row target u) w1 a
      → IsDone t target w (and_then db a (log_change db t (lit "Update user ") cur target))
  written-IsDone t cur target u w w1 (ok n, w2) i f g =
      logged-IsDone t target u w w1 w2 _ i f g
        (laws.logs t cur.login_name (pos 0) (quoted (lit "Update user ") target.login_name) w2)
  written-IsDone t cur target u w w1 (err e, w2) i f g = tt

  found-IsDone :
      (t : Tx) (cur target : User) (w : World) (a : Answer db User)
      → Finds db v t target.login_name w a
      → IsDone t target w (and_then db a (write_found db t cur target))
  found-IsDone t cur target w (ok u, w1) h =
      written-IsDone t cur target u w w1
        (db.update_row t target.login_name (updated_row target u) w1) h.0 (h.1, h.2)
        (laws.updates t target.login_name (updated_row target u) w1)
  found-IsDone t cur target w (err e, w1) h = tt

  -- A Commit of a transaction that had made the update has failed, and has ended in the world.
  abbrev pub IsLost : User → Rows → World → Type 0
  IsLost target before after =
      (t : Tx) × (w : World) × (e : Error) × (db.commit t w ≡ (err e, after))
      × IsUpdate target before (view t w)

  abbrev IsUpdateOrSame : User → World → Answer db (Unit {0}) → Type 0
  IsUpdateOrSame target w (ok n, w') =
      ((stored w' ≡ stored w) × IsLost target (stored w) w')
      ⊎ IsUpdate target (stored w) (stored w')
  IsUpdateOrSame target w (err e, w') = Unit

  seen-IsUpdate :
      (t : Tx) (target : User) (w w1 w2 : World)
      → Begins db v w (ok t, w1)
      → IsDone t target w1 (ok tt, w2)
      → IsUpdate target (stored w) (view t w2)
  seen-IsUpdate t target w w1 w2 b (s, (u, f, e)) = (
    u,
    ap (λ r. r target.login_name) (sym b.1) ∙ f,
    e ∙ ap (with_stored target.login_name (updated_row target u)) b.1,
  )

  committed :
      (t : Tx) (target : User) (w w1 w2 : World) (a : Answer db (Unit {0}))
      → db.commit t w2 ≡ a
      → Begins db v w (ok t, w1)
      → IsDone t target w1 (ok tt, w2)
      → Commits db v t w2 a
      → IsUpdateOrSame target w (ok tt, a.1)
  committed t target w w1 w2 (ok n, w3) q b d c =
      let (u, f, e) = seen-IsUpdate t target w w1 w2 b d in inr (u, f, c.0 ∙ e)
  committed t target w w1 w2 (err e, w3) q b d c =
      inl (c.0 ∙ d.0 ∙ b.0, (t, w2, e, q, seen-IsUpdate t target w w1 w2 b d))

  finished :
      (t : Tx) (target : User) (w w1 : World) (a : Answer db (Unit {0}))
      → Begins db v w (ok t, w1)
      → IsDone t target w1 a
      → IsUpdateOrSame target w (commit_or_roll_back db t (roll_back_on_error db t a))
  finished t target w w1 (ok n, w2) b d =
      committed t target w w1 w2 (db.commit t w2) refl b d (laws.commits t w2)
  finished t target w w1 (err e, w2) b d = tt

  begun-IsUpdateOrSame :
      (cur target : User) (w : World) (a : Answer db Tx)
      → Begins db v w a
      → IsUpdateOrSame target w (
          begun db
            (λ t w1.
              commit_or_roll_back db t
                (roll_back_on_error db t (update_user_in db t cur target w1)))
            a)
  begun-IsUpdateOrSame cur target w (ok t, w1) b =
      finished t target w w1 (update_user_in db t cur target w1) b (
        found-IsDone t cur target w1 (db.find_user t target.login_name w1)
          (laws.finds t target.login_name w1))
  begun-IsUpdateOrSame cur target w (err e, w1) b = tt

  on_success :
      (target : User) (w : World) (a : Answer db (Unit {0}))
      → IsUpdateOrSame target w a
      → a.0 ≡ ok tt
      → ((stored a.1 ≡ stored w) × IsLost target (stored w) a.1)
        ⊎ IsUpdate target (stored w) (stored a.1)
  on_success target w (ok n, w') h e = h
  on_success target w (err x, w') h e = absurd (err-ne-ok x tt _ refl e)

  -- An update that reports no error has either replaced the row of the user, which was there, by one
  -- with the new roles, the new flag and the next version, with no other row changed; or it ended with a
  -- Commit that failed, of a transaction that saw exactly this update, and the stored rows are those of
  -- before.
  pub update_user-rows :
      (cur target : User) (w : World)
      → (update_user db cur target w).0 ≡ ok tt
      → ((stored (update_user db cur target w).1 ≡ stored w)
          × IsLost target (stored w) (update_user db cur target w).1)
        ⊎ IsUpdate target (stored w) (stored (update_user db cur target w).1)
  unfolding update_user
  update_user-rows cur target w =
      on_success target w _ (begun-IsUpdateOrSame cur target w (db.new_tx w) (laws.begins w))

  -- What MergeUserRoles makes of the user, from the stored row.
  abbrev pub merged : User → Option User → User
  merged user none = add_role role_developer user
  merged user (some u) = with_row db user u

  abbrev IsMerged : User → Option User → User × Answer db (Unit {0}) → Type 0
  IsMerged user row (after, (ok n, w)) = after ≡ merged user row
  IsMerged user row (after, (err e, w)) = Unit

  IsMerged-refl :
      (user after : User) (row : Option User) (a : Answer db (Unit {0}))
      → after ≡ merged user row
      → IsMerged user row (after, a)
  IsMerged-refl user after row (ok n, w) h = h
  IsMerged-refl user after row (err e, w) h = tt

  missing-IsMerged :
      (t : Tx) (user : User) (w : World) (row : Option User) (e : db.Error) (b : Bool)
      → (b ≡ true → row ≡ none)
      → IsMerged user row
          (if b then merge_new_user db user (db.commit t w).1 else (user, (err e, db.rollback t w)))
  unfolding merge_new_user
  missing-IsMerged t user w row e true h =
      IsMerged-refl user (add_role role_developer user) row _ (ap (merged user) (sym (h refl)))
  missing-IsMerged t user w row e false h = tt

  loaded-IsMerged :
      (t : Tx) (user : User) (w : World) (a : Answer db User)
      → Finds db v t user.login_name w a
      → IsMerged user
          (view t w user.login_name)
          (merge_loaded db t user (roll_back_on_error db t a))
  unfolding merge_loaded
  loaded-IsMerged t user w (ok u, w1) h = ap (merged user) (sym h.2)
  loaded-IsMerged t user w (err e, w1) h =
      missing-IsMerged t user (db.rollback t w1) (view t w user.login_name) e (db.is_no_more_rows e)
        (λ m. (h.1 m).1)

  begun-IsMerged :
      (user : User) (w : World) (a : Answer db Tx)
      → Begins db v w a
      → IsMerged user (stored w user.login_name) (merge_begun db user a)
  unfolding merge_begun
  begun-IsMerged user w (ok t, w1) b = rw (ap (λ r. r user.login_name) (sym b.1)) (
      loaded-IsMerged t user w1 (db.find_user t user.login_name w1)
        (laws.finds t user.login_name w1))
  begun-IsMerged user w (err e, w1) b = tt

  IsMerged-on_success :
      (user : User) (row : Option User) (a : User × Answer db (Unit {0}))
      → IsMerged user row a
      → a.1.0 ≡ ok tt
      → a.0 ≡ merged user row
  IsMerged-on_success user row (after, (ok n, w)) h e = h
  IsMerged-on_success user row (after, (err x, w)) h e = absurd (err-ne-ok x tt _ refl e)

  -- A user whose roles are merged without an error has the roles, the flag and the version of the stored
  -- row of the login name, or, where there is none, the role of a developer besides those of before.
  pub merge_user_roles-rows :
      (user : User) (w : World)
      → (merge_user_roles db user w).1.0 ≡ ok tt
      → (merge_user_roles db user w).0 ≡ merged user (stored w user.login_name)
  unfolding merge_user_roles
  merge_user_roles-rows user w =
      IsMerged-on_success user (stored w user.login_name) _
        (begun-IsMerged user w (db.new_tx w) (laws.begins w))
