-- ===== src/Dashboard/Handlers/Instances.antt =====
-- dashboard/lameduck.go and instance.go: the handlers that put an instance in lame duck mode or take it
-- out of it. `none` as an outcome stands for a panic.
use skylb.Prelude.{
  Bool, true, false, not, ◌&&◌, List, [], ◌∷◌, ◌++◌, Option, none, some, Str, ℤ, if◌then◌else◌,
  ◌=?◌, str_eq,
}
use skylb.Go.Strings.{lit, split, index}
use skylb.Go.Strconv.{itoa}
use skylb.Dashboard.Users.{User, is_admin}
use skylb.Dashboard.Database.{Result, ok, err, create_log}
use skylb.Dashboard.Handlers.{Site, Reply, bad_request, Status, status}

pub record AddInstanceRequest : Type 0 where
  pub id : ℤ
  pub address : Str

pub record ToggleLameduckRequest : Type 0 where
  pub id : ℤ
  pub address : Str
  pub lameduck : Bool

-- The test of an address: it is not empty and has a colon.
unfoldable pub is_address : Str → Bool
is_address address =
    not (address =? []) && elim (index b':' address) [ none ↦ false | some i ↦ true ]

module _ (site : Site) where
  open site use {db, service_id_to_name, host_port, set_lame_duck_mode, unset_lame_duck_mode}

  -- What follows a call for a lame duck: an error of the call ends the handler with no error message.
  unfoldable pub log_operation :
      User → ℤ → Str → Result db.Error (Unit {0}) × db.World → Reply Status × db.World
  unfolding create_log
  log_operation cur_user id operation (ok n, w) =
      (status [], (create_log db cur_user.login_name id operation w).1)
  log_operation cur_user id operation (err e, w) = (status [], w)

  -- parts[0] and parts[1]
  abbrev pub host_port_of : List Str → Option Str
  host_port_of [] = none
  host_port_of (host ∷ []) = none
  host_port_of (host ∷ port ∷ more) = some (host_port host port)

  abbrev not_found_text : ℤ → Str
  not_found_text id = lit "Service ID " ++ itoa id ++ lit " not found"

  abbrev bad_address_text : Str → Str
  bad_address_text address = address ++ lit " is not a valid address"

  unfoldable pub add_instance_request :
      User → AddInstanceRequest → db.World → Option (Reply Status × db.World)
  unfolding log_operation
  add_instance_request cur_user req w = elim (service_id_to_name req.id) [
    | none ↦ some (status (not_found_text req.id), w)
    | some name ↦
        if not (is_address req.address)
        then some (status (bad_address_text req.address), w)
        else elim (host_port_of (split b':' req.address)) [
          | none ↦ none
          | some hp ↦ some (
              log_operation cur_user req.id
                (lit "Add instance " ++ req.address ++ lit " and put in lameduck mode")
                (set_lame_duck_mode name hp w))
        ]
  ]

  unfoldable pub add_instance_handler :
      Option AddInstanceRequest → Option User → db.World → Option (Reply Status × db.World)
  unfolding add_instance_request is_admin
  add_instance_handler decoded none w = some (status (lit "Not login."), w)
  add_instance_handler decoded (some cur_user) w =
      if not (is_admin cur_user) then some (status (lit "No permission."), w) else elim decoded [
        | none ↦ some (bad_request, w)
        | some req ↦ add_instance_request cur_user req w
      ]

  abbrev toggle_operation : ToggleLameduckRequest → Str
  toggle_operation req =
      if req.lameduck
      then lit "Put " ++ req.address ++ lit " in lameduck mode"
      else lit "Take " ++ req.address ++ lit " out of lameduck mode"

  unfoldable pub toggle_request :
      User → ToggleLameduckRequest → db.World → Option (Reply Status × db.World)
  unfolding log_operation
  toggle_request cur_user req w = elim (service_id_to_name req.id) [
    | none ↦ some (status (not_found_text req.id), w)
    | some name ↦
        if not (is_address req.address)
        then some (status (bad_address_text req.address), w)
        else elim (host_port_of (split b':' req.address)) [
          | none ↦ none
          | some hp ↦ some (
              log_operation cur_user req.id (toggle_operation req) (
                if req.lameduck
                then set_lame_duck_mode name hp w
                else unset_lame_duck_mode name hp w))
        ]
  ]

  unfoldable pub toggle_lameduck_handler :
      Option ToggleLameduckRequest → Option User → db.World → Option (Reply Status × db.World)
  unfolding toggle_request is_admin
  toggle_lameduck_handler decoded none w = some (status (lit "Not login."), w)
  toggle_lameduck_handler decoded (some cur_user) w =
      if not (is_admin cur_user)
      then some (status (lit "No permission."), w)
      else elim decoded [ none ↦ some (bad_request, w) | some req ↦ toggle_request cur_user req w ]
