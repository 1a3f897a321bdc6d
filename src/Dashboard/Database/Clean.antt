-- ===== src/Dashboard/Database/Clean.antt =====
-- No operation of dashboard/db leaves a transaction open, and none changes a stored row and fails.
use skylb.Prelude.{
  ◌≡◌, ◌≢◌, refl, sym, ◌∙◌, Bool, true, false, Str, ℤ, pos, if◌then◌else◌, arith, Bool-cases, inl,
  inr,
}
use skylb.Go.Strings.{lit}
use skylb.Dashboard.Users.{User, add_role, role_developer}
use skylb.Dashboard.Database.{
  ok, err, Database, Answer, roll_back_on_error, and_then, get_users, insert_user_in, insert_user,
  update_user_in, update_user, upsert_user, merge_loaded, merge_begun, merge_new_user,
  merge_user_roles, create_log, get_logs, system, updated_row, log_change, write_found, quoted,
}
use skylb.Dashboard.Database.Laws.{
  TxView, TxLaws, OpensNone, IsIdle, Closes, Begins, Commits, Finds, Writes, IsClean, IsIdle-trans,
  begun-IsClean, commit_or_return-IsSettled, commit_or_roll_back-IsSettled, roll_back_idle,
  commit-Closes, OpensNone-of_Closes,
}

false-ne-true : false ≢ true
false-ne-true e = ground arith

module _ (db : Database) (v : TxView db) (laws : TxLaws db v) where
  open db use {World, Error, Tx}

  Writes-IsIdle :
      (t : Tx) (name : Str) (u : User) (w : World) (a : Answer db (Unit {0}))
      → Writes db v t name u w a
      → IsIdle db v w a.1
  Writes-IsIdle t name u w (ok n, w') h = h.0
  Writes-IsIdle t name u w (err e, w') h = h

  Finds-IsIdle :
      (t : Tx) (name : Str) (w : World) (a : Answer db User)
      → Finds db v t name w a
      → IsIdle db v w a.1
  Finds-IsIdle t name w (ok n, w') h = h.0
  Finds-IsIdle t name w (err e, w') h = h.0

  and_then-IsIdle :
      {A B : Type 0} (w : World) (a : Answer db A) (f : A → World → Answer db B)
      → IsIdle db v w a.1
      → ((x : A) (w' : World) → IsIdle db v w' (f x w').1)
      → IsIdle db v w (and_then db a f).1
  and_then-IsIdle w (ok x, w') f h k = IsIdle-trans db v laws w w' (f x w').1 h (k x w')
  and_then-IsIdle w (err e, w') f h k = h

  log_change-IsIdle :
      (t : Tx) (verb : Str) (cur new : User) (n : Unit {0}) (w : World)
      → IsIdle db v w (log_change db t verb cur new n w).1
  log_change-IsIdle t verb cur new n w =
      (laws.logs t cur.login_name (pos 0) (quoted verb new.login_name) w).0

  insert_user_in-IsIdle :
      (t : Tx) (cur new : User) (w : World) → IsIdle db v w (insert_user_in db t cur new w).1
  insert_user_in-IsIdle t cur new w =
      and_then-IsIdle w (db.insert_row t new w) (log_change db t (lit "Insert user ") cur new)
        (Writes-IsIdle t new.login_name new w (db.insert_row t new w) (laws.inserts t new w))
        (log_change-IsIdle t (lit "Insert user ") cur new)

  write_found-IsIdle :
      (t : Tx) (cur target u : User) (w : World) → IsIdle db v w (write_found db t cur target u w).1
  write_found-IsIdle t cur target u w =
      and_then-IsIdle w (db.update_row t target.login_name (updated_row target u) w)
        (log_change db t (lit "Update user ") cur target)
        (Writes-IsIdle t target.login_name (updated_row target u) w
          (db.update_row t target.login_name (updated_row target u) w)
          (laws.updates t target.login_name (updated_row target u) w))
        (log_change-IsIdle t (lit "Update user ") cur target)

  update_user_in-IsIdle :
      (t : Tx) (cur target : User) (w : World) → IsIdle db v w (update_user_in db t cur target w).1
  update_user_in-IsIdle t cur target w =
      and_then-IsIdle w (db.find_user t target.login_name w) (write_found db t cur target)
        (Finds-IsIdle t target.login_name w (db.find_user t target.login_name w)
          (laws.finds t target.login_name w))
        (write_found-IsIdle t cur target)

  insert_user-IsClean :
      (cur new : User) (w : World) → IsClean db v laws w (insert_user db cur new w)
  unfolding insert_user
  insert_user-IsClean cur new w =
      begun-IsClean db v laws w _ _
        (λ t w'. commit_or_return-IsSettled db v laws t w' _ (insert_user_in-IsIdle t cur new w'))
        (laws.begins w)

  update_user-IsClean :
      (cur target : User) (w : World) → IsClean db v laws w (update_user db cur target w)
  unfolding update_user
  update_user-IsClean cur target w =
      begun-IsClean db v laws w _ _
        (λ t w'.
          commit_or_roll_back-IsSettled db v laws t w' _ (update_user_in-IsIdle t cur target w'))
        (laws.begins w)

  upsert_user-IsClean :
      (cur new : User) (is_new : Bool) (w : World)
      → IsClean db v laws w (upsert_user db cur new is_new w)
  unfolding upsert_user
  upsert_user-IsClean cur new true w = insert_user-IsClean cur new w
  upsert_user-IsClean cur new false w = update_user-IsClean cur new w

  create_log-IsClean :
      (operator : Str) (id : ℤ) (content : Str) (w : World)
      → IsClean db v laws w (create_log db operator id content w)
  unfolding create_log
  create_log-IsClean operator id content w =
      begun-IsClean db v laws w _ _
        (λ t w'.
          commit_or_roll_back-IsSettled db v laws t w' _ (laws.logs t operator id content w').0)
        (laws.begins w)

  get_logs-IsClean :
      (operator : Str) (id : ℤ) (w : World) → IsClean db v laws w (get_logs db operator id w)
  unfolding get_logs
  get_logs-IsClean operator id w =
      begun-IsClean db v laws w _ _
        (λ t w'. commit_or_roll_back-IsSettled db v laws t w' _ (laws.reads_logs t _ w').0)
        (laws.begins w)

  get_users-IsClean : (w : World) → IsClean db v laws w (get_users db w)
  unfolding get_users
  get_users-IsClean w =
      begun-IsClean db v laws w _ _
        (λ t w'. commit_or_return-IsSettled db v laws t w' _ (laws.reads_users t w').0)
        (laws.begins w)

  -- Commit on a transaction that is closed does nothing.
  commit_answer-IsIdle :
      (t : Tx) (w : World) (a : Answer db (Unit {0}))
      → ¬ (v.is_open t w ≡ true)
      → Commits db v t w a
      → IsIdle db v w a.1
  commit_answer-IsIdle t w (ok n, w') h c = absurd (h c.1)
  commit_answer-IsIdle t w (err e, w') h c = (c.0, λ s o. (c.1 s o).0)

  after_rollback :
      (t : Tx) (w w' : World)
      → (v.stored w' ≡ v.stored w) × Closes db v t w w'
      → (v.stored (db.commit t w').1 ≡ v.stored w) × Closes db v t w (db.commit t w').1
  after_rollback t w w' h =
      let i : IsIdle db v w' (db.commit t w').1 =
        commit_answer-IsIdle t w' (db.commit t w') (λ o. (h.1 t o).1 refl) (laws.commits t w') in
      (i.0 ∙ h.0, λ s o. h.1 s (i.1 s o))

  IsClean-from :
      (w w' : World) (a : Answer db (Unit {0}))
      → IsIdle db v w w'
      → IsClean db v laws w' a
      → IsClean db v laws w a
  IsClean-from w w' (ok n, w2) h c = λ s o. h.1 s (c s o)
  IsClean-from w w' (err e, w2) h c = IsIdle-trans db v laws w w' w2 h c

  missing_user-IsClean :
      (t : Tx) (user : User) (w w1 w3 : World) (e : db.Error) (b : Bool)
      → Begins db v w (ok t, w1)
      → (v.stored w3 ≡ v.stored w1) × Closes db v t w1 w3
      → IsClean db v laws w
          (if b
            then merge_new_user db user (db.commit t w3).1
            else (user, (err e, db.rollback t w3))).1
  unfolding merge_new_user
  missing_user-IsClean t user w w1 w3 e true b h =
      let k = after_rollback t w1 w3 h in
      IsClean-from w (db.commit t w3).1 _
        (k.0 ∙ b.0, OpensNone-of_Closes db v laws t w w1 (db.commit t w3).1 b k.1)
        (insert_user-IsClean (system db) (add_role role_developer user) (db.commit t w3).1)
  missing_user-IsClean t user w w1 w3 e false b h =
      let r = roll_back_idle db v laws t w1 w3 (h.0, λ s o. (h.1 s o).0) in
      (r.0 ∙ b.0, OpensNone-of_Closes db v laws t w w1 (db.rollback t w3) b r.1)

  merge_loaded-IsClean :
      (t : Tx) (user : User) (w w1 : World) (a : Answer db User)
      → Begins db v w (ok t, w1)
      → IsIdle db v w1 a.1
      → IsClean db v laws w (merge_loaded db t user (roll_back_on_error db t a)).1
  unfolding merge_loaded
  merge_loaded-IsClean t user w w1 (ok u, w2) b i =
      OpensNone-of_Closes db v laws t w w1 (db.commit t w2).1 b (commit-Closes db v laws t w1 w2 i)
  merge_loaded-IsClean t user w w1 (err e, w2) b i =
      missing_user-IsClean t user w w1 (db.rollback t w2) e (db.is_no_more_rows e) b
        (roll_back_idle db v laws t w1 w2 i)

  merge_begun-IsClean :
      (user : User) (w : World) (a : Answer db Tx)
      → Begins db v w a
      → IsClean db v laws w (merge_begun db user a).1
  unfolding merge_begun
  merge_begun-IsClean user w (ok t, w1) b =
      merge_loaded-IsClean t user w w1 (db.find_user t user.login_name w1) b
        (Finds-IsIdle t user.login_name w1 _ (laws.finds t user.login_name w1))
  merge_begun-IsClean user w (err e, w1) b = b

  merge_user_roles-IsClean :
      (user : User) (w : World) → IsClean db v laws w (merge_user_roles db user w).1
  unfolding merge_user_roles
  merge_user_roles-IsClean user w = merge_begun-IsClean user w (db.new_tx w) (laws.begins w)

  -- An operation that fails leaves the stored rows.
  abbrev pub KeepsOnError : {A : Type 0} → World → Answer db A → Type 0
  KeepsOnError w (ok x, w') = Unit
  KeepsOnError w (err e, w') = v.stored w' ≡ v.stored w

  KeepsOnError-of_IsClean :
      {A : Type 0} (w : World) (a : Answer db A) → IsClean db v laws w a → KeepsOnError w a
  KeepsOnError-of_IsClean w (ok x, w') h = tt
  KeepsOnError-of_IsClean w (err e, w') h = h.0

  OpensNone-of_IsClean :
      {A : Type 0} (w : World) (a : Answer db A) → IsClean db v laws w a → OpensNone db v w a.1
  OpensNone-of_IsClean w (ok x, w') h = h
  OpensNone-of_IsClean w (err e, w') h = h.1

  still_closed :
      {A : Type 0} (s : Tx) (w : World) (a : Answer db A)
      → v.is_open s w ≡ false
      → IsClean db v laws w a
      → v.is_open s a.1 ≡ false
  still_closed s w a h c = elim (Bool-cases (v.is_open s a.1)) [
    | inl t ↦ absurd (false-ne-true (sym h ∙ OpensNone-of_IsClean w a c s t))
    | inr f ↦ f
  ]

  -- Saving a user, merging the roles of a user, writing to the log and reading either table each end
  -- the transaction that they begin, whatever fails: one that is not open before is not open after.
  pub operations_close :
      (cur user : User) (is_new : Bool) (operator : Str) (id : ℤ) (content : Str) (w : World)
      (s : Tx)
      → v.is_open s w ≡ false
      → (v.is_open s (upsert_user db cur user is_new w).1 ≡ false)
        × (v.is_open s (merge_user_roles db user w).1.1 ≡ false)
        × (v.is_open s (create_log db operator id content w).1 ≡ false)
        × (v.is_open s (get_users db w).1 ≡ false)
        × (v.is_open s (get_logs db operator id w).1 ≡ false)
  operations_close cur user is_new operator id content w s h = (
    still_closed s w _ h (upsert_user-IsClean cur user is_new w),
    still_closed s w _ h (merge_user_roles-IsClean user w),
    still_closed s w _ h (create_log-IsClean operator id content w),
    still_closed s w _ h (get_users-IsClean w),
    still_closed s w _ h (get_logs-IsClean operator id w),
  )

  -- Where saving a user or merging the roles of a user returns an error, the stored rows are those from
  -- before the call.
  pub failed_writes :
      (cur user : User) (is_new : Bool) (w : World)
      → KeepsOnError w (upsert_user db cur user is_new w)
        × KeepsOnError w (merge_user_roles db user w).1
  failed_writes cur user is_new w = (
    KeepsOnError-of_IsClean w _ (upsert_user-IsClean cur user is_new w),
    KeepsOnError-of_IsClean w _ (merge_user_roles-IsClean user w),
  )
