-- ===== src/Cmd/Shell/Selection.antt =====
-- The commands of the shell, and the service that it has selected.
use skylb.Prelude.{
  ℕ, ◌≡◌, refl, List, [], ◌∷◌, Option, none, some, Str, pos, ltz, ◌||◌, length, get_elem?, ◌=?◌,
  str_eq, drop,
}
use skylb.Go.Strings.{lit, split, trim_space, has_prefix}
use skylb.Go.Strconv.{atoi}
use skylb.Api.{Response, Fetched, ok, err, Node, node_ttl, node_nodes}
use skylb.Cmd.Shell.{
  node_less, Service, Shell, ShellDeps, Outcome, goes_on, panics, quits, index_in, current_service,
}
use skylb.Cmd.Shell.Instances.{
  add_instance, add_to, add_parts, add_port, write_marshaled, delete_instance, delete_from,
  delete_chosen, delete_got, delete_found, confirmed, listed_key, endpoint_at, is_port,
  instance_key, instance_value, list_instances, list_selected, list_of_service, keep_listed,
}
use skylb.Cmd.Shell.Instances as Inst
use skylb.Cmd.Shell.Commands.{
  services_of, select_service, unselected, set_portname, add_service, list_services,
  run_with_parameter, run_command, run_commands, list_for, new_service, list_got, list_found,
  add_if_unselected, while_running,
}
use skylb.Go.Text.{sort}
use skylb.Cmd.Shell.Places.{
  IsSound, StaysSound, if-StaysSound, select_service-IsSound, set_endpoints_at-IsPlace,
  replaced_services,
}

module _ (d : ShellDeps) where
  open d use {deps, ask}
  open deps use {World, etcd_get, marshal}

  write_marshaled-StaysSound :
      (s : Shell) (key : Str) (text : Option Str) (w : World)
      → IsSound s
      → StaysSound (write_marshaled d s key text w)
  write_marshaled-StaysSound s key none w h = h
  write_marshaled-StaysSound s key (some text) w h = h

  add_port-StaysSound :
      (s : Shell) (svc : Service) (host : Str) (parts : List Str) (w : World)
      → IsSound s
      → StaysSound (add_port d s svc host parts w)
  add_port-StaysSound s svc host [] w h = tt
  add_port-StaysSound s svc host (second ∷ more) w h =
      let port = trim_space second in
      if-StaysSound (is_port port)
        (write_marshaled d s (instance_key svc host port)
          (marshal (instance_value svc s.port_name host port)) w)
        (goes_on s w)
        (write_marshaled-StaysSound s (instance_key svc host port)
          (marshal (instance_value svc s.port_name host port)) w h)
        h

  add_parts-StaysSound :
      (s : Shell) (svc : Service) (parts : List Str) (w : World)
      → IsSound s
      → StaysSound (add_parts d s svc parts w)
  add_parts-StaysSound s svc [] w h = tt
  add_parts-StaysSound s svc (part ∷ parts) w h =
      if-StaysSound (trim_space part =? []) (goes_on s w)
        (add_port d s svc (trim_space part) parts w) h
        (add_port-StaysSound s svc (trim_space part) parts w h)

  add_to-StaysSound :
      (s : Shell) (svc : Option Service) (param : Str) (w : World)
      → IsSound s
      → StaysSound (add_to d s svc param w)
  add_to-StaysSound s none param w h = h
  add_to-StaysSound s (some svc) param w h =
      add_parts-StaysSound s svc (split b':' (trim_space param)) w h

  confirmed-StaysSound :
      (s : Shell) (key : Str) (a : Option Str × World)
      → IsSound s
      → StaysSound (confirmed d s key a)
  confirmed-StaysSound s key (none, w) h = h
  confirmed-StaysSound s key (some input, w) h =
      let t = trim_space input in
      if-StaysSound (t =? [] || (t =? lit "y" || t =? lit "Y")) (goes_on s (d.remove key w))
        (goes_on s w) h h

  delete_found-StaysSound :
      (s : Shell) (eps key : Str) (n : Option Node) (w : World)
      → IsSound s
      → StaysSound (delete_found d s eps key n w)
  delete_found-StaysSound s eps key none w h = tt
  delete_found-StaysSound s eps key (some n) w h =
      if-StaysSound (ltz (pos 0) (node_ttl n)) (goes_on s w) (confirmed d s key (ask eps w)) h
        (confirmed-StaysSound s key (ask eps w) h)

  delete_got-StaysSound :
      (s : Shell) (eps key : Str) (a : Fetched Response × World)
      → IsSound s
      → StaysSound (delete_got d s eps key a)
  delete_got-StaysSound s eps key (err e, w) h = tt
  delete_got-StaysSound s eps key (ok resp, w) h = delete_found-StaysSound s eps key resp.node w h

  delete_chosen-StaysSound :
      (s : Shell) (svc : Service) (eps : Option Str) (w : World)
      → IsSound s
      → StaysSound (delete_chosen d s svc eps w)
  delete_chosen-StaysSound s svc none w h = h
  delete_chosen-StaysSound s svc (some eps) w h =
      delete_got-StaysSound s eps (listed_key svc eps) (etcd_get (listed_key svc eps) w) h

  delete_from-StaysSound :
      (s : Shell) (svc : Option Service) (param : Str) (w : World)
      → IsSound s
      → StaysSound (delete_from d s svc param w)
  delete_from-StaysSound s none param w h = h
  delete_from-StaysSound s (some svc) param w h =
      let num = atoi (trim_space param) in
      let eps = endpoint_at d svc.endpoints (index_in num.value (length svc.endpoints)) in
      if-StaysSound num.failed (goes_on s w) (delete_chosen d s svc eps w) h
        (delete_chosen-StaysSound s svc eps w h)

  keep_listed-StaysSound :
      (s : Shell) (i : ℕ) (eps : Option (List Str)) (w : World)
      → IsSound s
      → StaysSound (keep_listed d s i eps w)
  keep_listed-StaysSound s i none w h = tt
  keep_listed-StaysSound s i (some eps) w h =
      set_endpoints_at-IsPlace s.prompt s.current i eps s.services h

  list_node-StaysSound :
      (s : Shell) (i : ℕ) (n : Option Node) (w : World)
      → IsSound s
      → StaysSound (Inst.list_found d s i n w)
  list_node-StaysSound s i none w h = tt
  list_node-StaysSound s i (some n) w h = keep_listed-StaysSound s i _ w h

  list_answer-StaysSound :
      (s : Shell) (i : ℕ) (a : Fetched Response × World)
      → IsSound s
      → StaysSound (Inst.list_got d s i a)
  list_answer-StaysSound s i (err e, w) h = h
  list_answer-StaysSound s i (ok resp, w) h = list_node-StaysSound s i resp.node w h

  list_of_service-StaysSound :
      (s : Shell) (i : ℕ) (svc : Option Service) (w : World)
      → IsSound s
      → StaysSound (list_of_service d s i svc w)
  list_of_service-StaysSound s i none w h = h
  list_of_service-StaysSound s i (some svc) w h = list_answer-StaysSound s i _ h

  list_selected-StaysSound :
      (s : Shell) (place : Option ℕ) (w : World)
      → IsSound s
      → StaysSound (list_selected d s place w)
  list_selected-StaysSound s none w h = h
  list_selected-StaysSound s (some i) w h =
      list_of_service-StaysSound s i (get_elem? s.services i) w h

  -- Services are listed only where none is selected.
  list_services-StaysSound :
      (s : Shell) (n : Option Node) (w : World)
      → s.current ≡ none
      → IsSound s
      → StaysSound (list_found d s n w)
  list_services-StaysSound s none w e h = tt
  list_services-StaysSound s (some root) w e h =
      replaced_services s.prompt s.current s.services
        (services_of (sort node_less (node_nodes root))) e h.1

  services_answer-StaysSound :
      (s : Shell) (a : Fetched Response × World)
      → s.current ≡ none
      → IsSound s
      → StaysSound (list_got d s a)
  services_answer-StaysSound s (err x, w) e h = tt
  services_answer-StaysSound s (ok resp, w) e h = list_services-StaysSound s resp.node w e h

  list_for-StaysSound :
      (place : Option ℕ) (s : Shell) (w : World)
      → s.current ≡ place
      → IsSound s
      → StaysSound (list_for d place s w)
  unfolding list_services list_instances
  list_for-StaysSound none s w e h = services_answer-StaysSound s _ e h
  list_for-StaysSound (some i) s w e h = list_selected-StaysSound s s.current w h

  add_if_unselected-StaysSound :
      (s : Shell) (place : Option ℕ) (key : Str) (w : World)
      → IsSound s
      → StaysSound (add_if_unselected d s place key w)
  add_if_unselected-StaysSound s none key w h = h
  add_if_unselected-StaysSound s (some i) key w h = h

  new_service-StaysSound :
      (s : Shell) (params : List Str) (w : World)
      → IsSound s
      → StaysSound (new_service d s params w)
  unfolding add_service
  new_service-StaysSound s [] w h = h
  new_service-StaysSound s (p ∷ []) w h = h
  new_service-StaysSound s (p ∷ q ∷ []) w h = add_if_unselected-StaysSound s s.current _ w h
  new_service-StaysSound s (p ∷ q ∷ r ∷ ps) w h = h

  run_with_parameter-StaysSound :
      (cmd : Str) (s : Shell) (w : World) → IsSound s → StaysSound (run_with_parameter d cmd s w)
  unfolding run_with_parameter add_instance delete_instance set_portname
  run_with_parameter-StaysSound cmd s w h =
      if-StaysSound (has_prefix cmd (lit "add ")) (add_instance d s (drop 4 cmd) w) _
        (add_to-StaysSound s (current_service s) (drop 4 cmd) w h)
        (if-StaysSound (has_prefix cmd (lit "new ")) (new_service d s (split b' ' (drop 4 cmd)) w) _
          (new_service-StaysSound s (split b' ' (drop 4 cmd)) w h)
          (if-StaysSound (has_prefix cmd (lit "rm ")) (delete_instance d s (drop 3 cmd) w) _
            (delete_from-StaysSound s (current_service s) (drop 3 cmd) w h)
            (if-StaysSound (has_prefix cmd (lit "select "))
              (goes_on (select_service (drop 7 cmd) s) w) _
              (select_service-IsSound (drop 7 cmd) s h)
              (if-StaysSound (has_prefix cmd (lit "portname "))
                (goes_on (set_portname (drop 9 cmd) s) w) (goes_on s w) h h))))

  run_command-StaysSound :
      (text : Str) (s : Shell) (w : World) → IsSound s → StaysSound (run_command d text s w)
  unfolding run_command
  run_command-StaysSound text s w h =
      let cmd = trim_space text in
      if-StaysSound (cmd =? lit "exit") quits _ tt (
        if-StaysSound (cmd =? lit "quit") quits _ tt (
          if-StaysSound (cmd =? lit "ls") (list_for d s.current s w) _
            (list_for-StaysSound s.current s w refl h)
            (if-StaysSound (cmd =? lit "select") (goes_on (unselected s) w)
              (run_with_parameter d cmd s w) (tt, refl) (run_with_parameter-StaysSound cmd s w h))))

  while_running-StaysSound :
      (o : Outcome World) (f : Shell → World → Outcome World)
      → StaysSound o
      → ((s : Shell) (w : World) → IsSound s → StaysSound (f s w))
      → StaysSound (while_running o f)
  while_running-StaysSound (goes_on s w) f h k = k s w h
  while_running-StaysSound quits f h k = tt
  while_running-StaysSound panics f h k = tt

  -- From a sound shell, whatever lines the user types, the shell stays sound as long as it runs: a
  -- selected service has its place in the list of the services, and the prompt names it; while none is
  -- selected the prompt is the plain one.
  pub run_commands-StaysSound :
      (texts : List Str) (s : Shell) (w : World) → IsSound s → StaysSound (run_commands d texts s w)
  unfolding run_commands
  run_commands-StaysSound [] s w h = h
  run_commands-StaysSound (text ∷ texts) s w h =
      while_running-StaysSound (run_command d text s w) (run_commands d texts)
        (run_command-StaysSound text s w h) (λ t v k. run_commands-StaysSound texts t v k)
