-- ===== src/Cmd/Shell/Commands.antt =====
-- The loop of main, one command at a time, and the commands on services: addService, listServices,
-- selectService and setPortname.
use skylb.Prelude.{
  ℕ, List, [], ◌∷◌, ◌++◌, map, Option, none, some, Str, if◌then◌else◌, length, get_elem?, drop,
  ◌=?◌, str_eq,
}
use skylb.Go.Strings.{lit, split, trim_space, has_prefix}
use skylb.Go.Strconv.{atoi}
use skylb.Go.Path.{join_path, base}
use skylb.Go.Text.{sort}
use skylb.Api.{Response, Fetched, ok, err, Node, node_key, node_nodes}
use skylb.Cmd.Shell.{
  Service, Shell, ShellDeps, Outcome, goes_on, panics, quits, prefix, default_prompt, index_in,
  node_less,
}
use skylb.Cmd.Shell.Instances.{add_instance, delete_instance, list_instances}

abbrev pub service_of_node : Node → Node → Service
service_of_node ns_node service_node = record {
  name = base (node_key service_node);
  namespace = base (node_key ns_node);
  endpoints = [];
}

unfoldable pub services_of : List Node → List Service
services_of [] = []
services_of (ns ∷ rest) = map (service_of_node ns) (node_nodes ns) ++ services_of rest

unfoldable pub set_portname : Str → Shell → Shell
set_portname pn s = record s { port_name = pn }

abbrev pub selected : Shell → Option ℕ → Option Service → Shell
selected s none svc = s
selected s (some i) none = s
selected s (some i) (some svc) = record s {
  current = some i;
  prompt = svc.name ++ b' ' ∷ default_prompt;
}

abbrev pub get_at : List Service → Option ℕ → Option Service
get_at services none = none
get_at services (some i) = get_elem? services i

unfoldable pub select_service : Str → Shell → Shell
select_service svc_num s =
    let num = atoi svc_num in
    let place = index_in num.value (length s.services) in
    if num.failed then s else selected s place (get_at s.services place)

abbrev pub unselected : Shell → Shell
unselected s = record s { current = none; prompt = default_prompt }

abbrev pub while_running : {W : Type 0} → Outcome W → (Shell → W → Outcome W) → Outcome W
while_running (goes_on s w) f = f s w
while_running quits f = quits
while_running panics f = panics

module _ (d : ShellDeps) where
  open d use {deps, create_dir}
  open deps use {World, etcd_get}

  abbrev pub add_if_unselected : Shell → Option ℕ → Str → World → Outcome World
  add_if_unselected s (some i) key w = goes_on s w
  add_if_unselected s none key w = goes_on s (create_dir key w)

  unfoldable pub add_service : Shell → Str → Str → World → Outcome World
  add_service s namespace name w =
      add_if_unselected s s.current (join_path (prefix ∷ namespace ∷ name ∷ [])) w

  abbrev pub list_found : Shell → Option Node → World → Outcome World
  list_found s none w = panics
  list_found s (some root) w =
      goes_on (record s { services = services_of (sort node_less (node_nodes root)) }) w

  -- After the Get: a response is used also where there is an error and none.
  abbrev pub list_got : Shell → Fetched Response × World → Outcome World
  list_got s (err e, w) = panics
  list_got s (ok resp, w) = list_found s resp.node w

  unfoldable pub list_services : Shell → World → Outcome World
  list_services s w = list_got s (etcd_get prefix w)

  abbrev pub new_service : Shell → List Str → World → Outcome World
  new_service s [] w = goes_on s w
  new_service s (namespace ∷ []) w = goes_on s w
  new_service s (namespace ∷ name ∷ []) w = add_service s namespace name w
  new_service s (p ∷ q ∷ r ∷ ps) w = goes_on s w

  -- The commands with a parameter.
  unfoldable pub run_with_parameter : Str → Shell → World → Outcome World
  unfolding add_service add_instance delete_instance select_service set_portname
  run_with_parameter cmd s w =
      if has_prefix cmd (lit "add ")
      then add_instance d s (drop 4 cmd) w
      else if has_prefix cmd (lit "new ")
      then new_service s (split b' ' (drop 4 cmd)) w
      else if has_prefix cmd (lit "rm ")
      then delete_instance d s (drop 3 cmd) w
      else if has_prefix cmd (lit "select ")
      then goes_on (select_service (drop 7 cmd) s) w
      else if has_prefix cmd (lit "portname ")
      then goes_on (set_portname (drop 9 cmd) s) w
      else goes_on s w

  abbrev pub list_for : Option ℕ → Shell → World → Outcome World
  list_for none s w = list_services s w
  list_for (some i) s w = list_instances d s w

  -- One round of the loop of main, on a line that is read. "add", "new", "portname", "rm", "?" and
  -- "help" alone only print.
  unfoldable pub run_command : Str → Shell → World → Outcome World
  unfolding list_services list_instances run_with_parameter
  run_command text s w =
      let cmd = trim_space text in
      if cmd =? lit "exit"
      then quits
      else if cmd =? lit "quit"
      then quits
      else if cmd =? lit "ls"
      then list_for s.current s w
      else if cmd =? lit "select"
      then goes_on (unselected s) w
      else run_with_parameter cmd s w

  -- The loop of main over the lines that the user types.
  unfoldable pub run_commands : List Str → Shell → World → Outcome World
  unfolding run_command
  run_commands [] s w = goes_on s w
  run_commands (text ∷ texts) s w = while_running (run_command text s w) (run_commands texts)
