-- ===== src/Examples/Commanding.antt =====
-- The theorems on the programs under cmd and on the page of a service at concrete inputs.
use skylb.Prelude.{
  ℕ, ◌<◌, ◌≡◌, refl, ap, ◌-◌, ◌+◌, if◌then◌else◌, Bool-cases, ◌=?◌, =?_iff, inl, inr, ◌↔◌, ◌⊎◌,
  true, false, ◌==◌, List, [], ◌∷◌, ◌++◌, some, Str, ℤ, pos, arith, str_eq, int_eq, In, All,
}
use skylb.Prelude.Results.{ok}
use skylb.Go.Strings.{lit, has_suffix}
use skylb.Go.Strconv.{itoa}
use skylb.Go.Maps.{GoMap, get}
use skylb.Api.{ServiceEndpoints, InstanceEndpoint, Node, node, nodes_of, add}
use skylb.Hub.Graph.{CallPair, CallerPairs}
use skylb.Cmd.Webserver.Tree.{traverse_calls, calls_of}
use skylb.Cmd.Webserver.Acyclic.{traverse_calls-ends, IsRanked}
use skylb.Cmd.Health.{HealthDeps, healthy, failing, check_all_services}
use skylb.Cmd.Health.Rates.{IsRate, check_all_services-rates}
use skylb.Cmd.Shell.{Service, ShellDeps, start_shell}
use skylb.Cmd.Shell.Instances.{instance_value, instance_key, listed_subsets, listed_key}
use skylb.Cmd.Shell.Commands.{run_commands}
use skylb.Cmd.Shell.Places.{StaysSound}
use skylb.Cmd.Shell.Selection.{run_commands-StaysSound}
use skylb.Cmd.Shell.Keys.{listed-instance_value}
use skylb.Dashboard.Services.{ServiceRef, client_node, extract_incomings, extract_outgoings}
use skylb.Dashboard.Services.Calls.{IsServiceNode}
use skylb.Dashboard.Services.Agree.{incomings_iff_outgoings}
use skylb.Examples.Cluster.{cluster}

abbrev dir : Str → List Node → Node
dir key nodes = node key true [] (pos 0) (nodes_of nodes)

abbrev graph : List Node
graph =
    dir (lit "/skylb/graph/default/pay") (
      dir (lit "/skylb/graph/default/pay/clients")
        (dir (lit "/skylb/graph/default/pay/clients/shop") [] ∷ [])
      ∷ [])
    ∷ dir (lit "/skylb/graph/default/shop") []
    ∷ []

abbrev ids : GoMap Str ℤ
ids = (lit "pay", pos 1) ∷ (lit "shop", pos 2) ∷ []

graph-nodes : All IsServiceNode graph
unfolding client_node has_suffix
graph-nodes = ((lit "pay", refl, ((lit "shop", refl), tt)), ((lit "shop", refl, tt), tt))

incomings_iff_outgoings_example :
    (ins : List ServiceRef) × (outs : List ServiceRef) × (extract_incomings ids graph (lit "pay")
      ≡ some ins)
    × (extract_outgoings ids graph (lit "shop") ≡ some outs)
    × (In (record { id = pos 2; name = lit "shop" }) ins
        ↔ In (record { id = pos 1; name = lit "pay" }) outs)
unfolding get
incomings_iff_outgoings_example =
    incomings_iff_outgoings ids (lit "pay") (lit "shop") (pos 2) (pos 1) refl refl refl (λ e. cc)
      graph graph-nodes

-- "a" calls itself and "b".
abbrev call : Str → Str → CallPair
call caller callee = record {
  callee = callee;
  info = record { caller = caller; timestamp = pos 0 };
}

abbrev calling : GoMap Str CallerPairs
calling = (lit "a", call (lit "a") (lit "a") ∷ call (lit "a") (lit "b") ∷ []) ∷ []

abbrev rank : Str → ℕ
rank [] = 0
rank (x ∷ xs) = 98 - x

lower : (cp : CallPair) → cp.callee ≡ lit "b" → rank cp.callee < rank (lit "a")
lower cp e = rw e (omega arith)

a_calls :
    (cp : CallPair)
    → In cp (calls_of calling (lit "a"))
    → (cp.callee ≡ lit "a") ⊎ (rank cp.callee < rank (lit "a"))
unfolding get
a_calls cp (inl e) = inl (ap (λ c. c.callee) e)
a_calls cp (inr (inl e)) = inr (lower cp (ap (λ c. c.callee) e))
a_calls cp (inr (inr m)) = absurd m.1

calling-IsRanked : IsRanked calling rank
unfolding get
calling-IsRanked caller cp m = elim (Bool-cases (lit "a" =? caller)) [
  | inl t ↦
      let c : lit "a" ≡ caller = (=?_iff (lit "a") caller).0 t in
      rw (← c) (a_calls cp (rw (← c) at m))
  | inr f ↦ absurd (rw (get, f) at m).1
]

traverse_calls-ends_example :
    (text : Str) × (traverse_calls 2 calling (lit "a") 0 ≡ some text)
    × (traverse_calls 5 calling (lit "a") 0 ≡ some text)
traverse_calls-ends_example =
    traverse_calls-ends calling rank (lit "a") 0 2 3 calling-IsRanked (omega arith)

abbrev checks : HealthDeps
checks = record {
  World = ℕ;
  Client = ℕ;
  check = λ c w. (if w == 0 then healthy else failing (lit "Unavailable") false, w + 1);
  dial = λ addr w. (some 1, w);
  start_client = λ id w. (some 1, w);
  name_to_id = λ name. some (pos 7);
  enable_raw_grpc = true;
  enable_renew_skylb = true;
}

abbrev instance_a : InstanceEndpoint
instance_a = record { op = add; host = lit "10.0.0.1"; port = pos 80; weight = pos 0 }

abbrev listed : List ServiceEndpoints
listed =
    record {
      spec = record {
        namespace = lit "default";
        service_name = lit "shop";
        port_name = lit "grpc";
      };
      inst_endpoints = instance_a ∷ instance_a ∷ [];
    }
    ∷ []

check_all_services-rates_example : All IsRate (check_all_services checks (ok listed) [] 0).0
check_all_services-rates_example = check_all_services-rates checks (ok listed) [] 0

abbrev shell_deps : ShellDeps
shell_deps = record {
  deps = cluster;
  create_dir = λ key w. w;
  remove = λ key w. w;
  ask = λ eps w. (some (lit "y"), w);
}

run_commands-StaysSound_example :
    StaysSound (run_commands shell_deps (lit "ls" ∷ lit "select 0" ∷ lit "ls" ∷ []) start_shell [])
run_commands-StaysSound_example =
    run_commands-StaysSound shell_deps (lit "ls" ∷ lit "select 0" ∷ lit "ls" ∷ []) start_shell []
      (tt, refl)

abbrev shop_service : Service
shop_service = record { name = lit "shop"; namespace = lit "default"; endpoints = [] }

listed-instance_value_example :
    (listed_subsets
        (lit "grpc")
        (instance_value shop_service (lit "grpc") (lit "h") (itoa (pos 80))).subsets
      ≡ some ((lit "h" ++ b':' ∷ itoa (pos 80)) ∷ []))
    × (listed_key shop_service (lit "h" ++ b':' ∷ itoa (pos 80))
        ≡ instance_key shop_service (lit "h") (itoa (pos 80)))
listed-instance_value_example =
    listed-instance_value shop_service (lit "grpc") (lit "h") 80 ((omega arith), tt) (omega arith)
