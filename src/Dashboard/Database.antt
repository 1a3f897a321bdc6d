-- ===== src/Dashboard/Database.antt =====
-- dashboard/db: the transactions of users.go, logs.go and tx.go. The package upper.io/db, the LDAP
-- client and the table of service names are parameters; what is written to the program's log is left out.
pub mod Laws
pub mod Clean
pub mod Rows
use Prim.Native.Nat.{◌-◌}
use skylb.Prelude.{
  ◌≡◌, Bool, true, false, not, List, [], ◌∷◌, ◌++◌, Option, none, some, Str, ℤ, pos, negsuc,
  if◌then◌else◌, ltz, to_int32, inc_int64, ◌=?◌, str_eq,
}
pub use skylb.Prelude.Results.{Result, ok, err}
use skylb.Go.Strings.{lit}
use skylb.Go.Strconv.{itoa}
use skylb.Dashboard.Users.{User, add_role, role_developer}

-- A row of the table of logs; the time is that of UnixNano, in milliseconds.
pub record Log : Type 0 where
  pub id : Str
  pub operator : Str
  pub service_id : ℤ
  pub content : Str
  pub op_time : ℤ

pub record LogInfo : Type 0 where
  pub operator : Str
  pub service : Str
  pub content : Str
  pub op_time : ℤ

-- A condition of a query of the logs.
pub data Filter : Type 0 where
  by_operator : Str → Filter
  by_service_id : ℤ → Filter

-- The database and the LDAP server over a state of both.
pub record Database : Type 1 where
  pub World : Type 0
  pub Error : Type 0
  pub Tx : Type 0
  pub errors_new : Str → Error
  pub is_no_more_rows : Error → Bool
  pub new_tx : World → Result Error Tx × World
  pub find_users : Tx → World → Result Error (List User) × World
  pub find_user : Tx → Str → World → Result Error User × World
  pub insert_row : Tx → User → World → Result Error (Unit {0}) × World
  pub update_row : Tx → Str → User → World → Result Error (Unit {0}) × World
  pub exec_log : Tx → Str → ℤ → Str → World → Result Error (Unit {0}) × World
  pub find_logs : Tx → List Filter → World → Result Error (List Log) × World
  pub commit : Tx → World → Result Error (Unit {0}) × World
  pub rollback : Tx → World → World
  pub ldap_dial : World → Result Error (Unit {0}) × World
  pub ldap_auth : Str → Str → World → Result Error Bool × World

-- Log.ToLogInfo, with the table ServiceIDsToNames.
unfoldable pub to_log_info : (ℤ → Option Str) → Log → LogInfo
to_log_info service_ids_to_names l = record {
  operator = l.operator;
  service = elim (service_ids_to_names l.service_id) [
    | some name ↦ name
    | none ↦ itoa l.service_id
  ];
  content = l.content;
  op_time = l.op_time;
}

-- The filters of GetLogs: those of the arguments that are set.
abbrev operator_filter : Str → List Filter
operator_filter [] = []
operator_filter (x ∷ xs) = by_operator (x ∷ xs) ∷ []

pub log_filters : Str → ℤ → List Filter
log_filters operator service_id =
    operator_filter operator
    ++ (if ltz (negsuc 0) service_id then by_service_id service_id ∷ [] else [])

-- The addition of 1 to an int32, which wraps round.
abbrev pub inc_int32 : ℤ → ℤ
inc_int32 z = to_int32 (inc_int64 z)

-- fmt.Sprintf("Insert user \"%s\"", name), and the like.
abbrev pub quoted : Str → Str → Str
quoted verb name = verb ++ b'"' ∷ name ++ b'"' ∷ []

-- The row that updateUser writes over the row that it has found.
abbrev pub updated_row : User → User → User
updated_row target u = record {
  login_name = u.login_name;
  roles = target.roles;
  disabled = target.disabled;
  version = inc_int32 u.version;
}

module _ (db : Database) where
  open db use {
    World, Error, Tx, errors_new, is_no_more_rows, new_tx, find_users, find_user, insert_row,
    update_row, exec_log, find_logs, commit, rollback, ldap_dial, ldap_auth,
  }

  -- An answer beside the state after it.
  abbrev pub Answer : Type 0 → Type 0
  Answer A = Result Error A × World

  abbrev pub roll_back_on_error : {A : Type 0} → Tx → Answer A → Answer A
  roll_back_on_error tx (ok a, w) = (ok a, w)
  roll_back_on_error tx (err e, w) = (err e, rollback tx w)

  -- withTx
  abbrev pub with_tx : {A : Type 0} → Tx → (World → Answer A) → World → Answer A
  with_tx tx fn w = roll_back_on_error tx (fn w)

  -- The rest of a chain of calls inside the function that withTx gets.
  abbrev pub and_then : {A B : Type 0} → Answer A → (A → World → Answer B) → Answer B
  and_then (ok a, w) f = f a w
  and_then (err e, w) f = (err e, w)

  -- After withTx: the error is returned, or the transaction is committed and an error of Commit ignored.
  abbrev pub commit_or_return : {A : Type 0} → Tx → Answer A → Answer A
  commit_or_return tx (ok a, w) = (ok a, (commit tx w).1)
  commit_or_return tx (err e, w) = (err e, w)

  -- The same with a further Rollback on an error.
  abbrev pub commit_or_roll_back : {A : Type 0} → Tx → Answer A → Answer A
  commit_or_roll_back tx (ok a, w) = (ok a, (commit tx w).1)
  commit_or_roll_back tx (err e, w) = (err e, rollback tx w)

  -- What follows NewTx: its error is returned.
  abbrev pub begun : {A : Type 0} → (Tx → World → Answer A) → Answer Tx → Answer A
  begun body (ok tx, w) = body tx w
  begun body (err e, w) = (err e, w)

  abbrev pub load_users : Tx → World → Answer (List User)
  load_users tx = with_tx tx (find_users tx)

  unfoldable pub get_users : World → Answer (List User)
  get_users w = begun (λ tx w. commit_or_return tx (load_users tx w)) (new_tx w)

  abbrev pub load_user_by_login_name : Tx → Str → World → Answer User
  load_user_by_login_name tx loginname = with_tx tx (find_user tx loginname)

  abbrev pub log_change : Tx → Str → User → User → Unit {0} → World → Answer (Unit {0})
  log_change tx verb cur_user new_user n =
      exec_log tx cur_user.login_name (pos 0) (quoted verb new_user.login_name)

  abbrev pub insert_user_in : Tx → User → User → World → Answer (Unit {0})
  insert_user_in tx cur_user new_user w =
      and_then (insert_row tx new_user w) (log_change tx (lit "Insert user ") cur_user new_user)

  pub insert_user : User → User → World → Answer (Unit {0})
  insert_user cur_user new_user w =
      begun (λ tx w. commit_or_return tx (with_tx tx (insert_user_in tx cur_user new_user) w))
        (new_tx w)

  abbrev pub write_found : Tx → User → User → User → World → Answer (Unit {0})
  write_found tx cur_user target u w =
      and_then (update_row tx target.login_name (updated_row target u) w)
        (log_change tx (lit "Update user ") cur_user target)

  abbrev pub update_user_in : Tx → User → User → World → Answer (Unit {0})
  update_user_in tx cur_user target w =
      and_then (find_user tx target.login_name w) (write_found tx cur_user target)

  unfoldable pub update_user : User → User → World → Answer (Unit {0})
  update_user cur_user target w =
      begun (λ tx w. commit_or_roll_back tx (with_tx tx (update_user_in tx cur_user target) w))
        (new_tx w)

  unfoldable pub upsert_user : User → User → Bool → World → Answer (Unit {0})
  unfolding insert_user update_user
  upsert_user cur_user new_user is_new w =
      if is_new then insert_user cur_user new_user w else update_user cur_user new_user w

  abbrev pub system : User
  system = record { login_name = lit "System"; roles = []; disabled = false; version = pos 0 }

  abbrev pub with_row : User → User → User
  with_row user u = record {
    login_name = user.login_name;
    roles = u.roles;
    disabled = u.disabled;
    version = u.version;
  }

  -- The branch of MergeUserRoles for a user who is not in the database.
  unfoldable pub merge_new_user : User → World → User × Answer (Unit {0})
  unfolding insert_user
  merge_new_user user w =
      (add_role role_developer user, insert_user system (add_role role_developer user) w)

  -- MergeUserRoles after loadUserByLoginName. The transaction is committed also where withTx has
  -- rolled it back.
  unfoldable pub merge_loaded : Tx → User → Answer User → User × Answer (Unit {0})
  unfolding merge_new_user
  merge_loaded tx user (ok u, w) = (with_row user u, (ok tt, (commit tx w).1))
  merge_loaded tx user (err e, w) =
      if is_no_more_rows e
      then merge_new_user user (commit tx w).1
      else (user, (err e, rollback tx w))

  unfoldable pub merge_begun : User → Answer Tx → User × Answer (Unit {0})
  unfolding merge_loaded
  merge_begun user (ok tx, w) = merge_loaded tx user (load_user_by_login_name tx user.login_name w)
  merge_begun user (err e, w) = (user, (err e, w))

  -- MergeUserRoles: the user as the call leaves it, also where the call fails, and the answer.
  unfoldable pub merge_user_roles : User → World → User × Answer (Unit {0})
  unfolding merge_begun
  merge_user_roles user w = merge_begun user (new_tx w)

  abbrev pub named : Str → User
  named loginname = record { login_name = loginname; roles = []; disabled = false; version = pos 0 }

  abbrev pub answer_user : User × Answer (Unit {0}) → Answer User
  answer_user (user, (ok u, w)) = (ok user, w)
  answer_user (user, (err e, w)) = (err e, w)

  unfoldable pub authenticate : Str → Str → World → Answer User
  unfolding merge_user_roles
  authenticate loginname passwd w = and_then (ldap_dial w) λ u w.
      and_then (ldap_auth loginname passwd w) λ accepted w.
        if accepted
        then answer_user (merge_user_roles (named loginname) w)
        else (err (errors_new (lit "invalid user name or password")), w)

  unfoldable pub create_log : Str → ℤ → Str → World → Answer (Unit {0})
  create_log operator service_id content w =
      begun
        (λ tx w. commit_or_roll_back tx (with_tx tx (exec_log tx operator service_id content) w))
        (new_tx w)

  unfoldable pub get_logs : Str → ℤ → World → Answer (List Log)
  unfolding log_filters
  get_logs operator service_id w =
      begun
        (λ tx w.
          commit_or_roll_back tx (with_tx tx (find_logs tx (log_filters operator service_id)) w))
        (new_tx w)
