-- ===== src/Hub/Graph.antt =====
-- hub/svcgraph.go: the graph of the calls between services, as it is read from etcd. The package
-- variables are the state. `resp.Node` is the node that etcd returns for the prefix of the graph.
pub mod Queries
pub mod Paths
pub mod Called
use skylb.Prelude.{
  ℕ, ◌+◌, ◌-◌, ◌<◌, ◌≡◌, ◌↔◌, Bool, true, false, not, ◌&&◌, List, [], ◌∷◌, ◌++◌, Option, none, some,
  Str, ℤ, pos, ltz, ltb, int_beq, int_beq_iff, str_beq, str_beq_iff, arith, if◌then◌else◌, Eq, ◌=?◌,
  str_eq, length, get_elem?,
}
use skylb.Go.Strings.{lit, split, has_suffix}
use skylb.Go.Strconv.{atoi}
use skylb.Go.Maps.{GoMap, get, put, delete}
use skylb.Api.{Node, node_key, node_value, node_nodes}

pub record CallerInfo : Type 0 where
  pub caller : Str
  pub timestamp : ℤ

abbrev caller_info_beq : CallerInfo → CallerInfo → Bool
caller_info_beq a b = str_beq a.caller b.caller && int_beq a.timestamp b.timestamp

pub caller_info_beq_iff : (a b : CallerInfo) → (caller_info_beq a b ≡ true) ↔ (a ≡ b)
caller_info_beq_iff a b =
    ground (arith, str_beq_iff a.caller b.caller, int_beq_iff a.timestamp b.timestamp)

-- CallerInfo as a key, and its method eq.
instance abbrev pub caller_info_eq : Eq CallerInfo
caller_info_eq = record { beq = caller_info_beq; beq_iff = caller_info_beq_iff }

pub record CallPair : Type 0 where
  pub callee : Str
  pub info : CallerInfo
  pub open info use *

abbrev pub CallerPairs : Type 0
CallerPairs = List CallPair

pub record Graph : Type 0 where
  pub latest_callers : List CallerInfo
  pub calling_map : GoMap CallerInfo CallerPairs
  pub simple_calling_map : GoMap Str CallerPairs

pub newer_than : CallerInfo → CallerInfo → Bool
newer_than ci other = ci.caller =? other.caller && ltz other.timestamp ci.timestamp

abbrev or_empty : Option Str → Str
or_empty none = []
or_empty (some s) = s

-- The callee and the caller of a path ".../<callee>/clients/<caller>".
pub parse_call_pair : Str → CallPair
parse_call_pair path =
    let ss = split b'/' path in
    let ln = length ss in
    if ltb ln 4
    then record {
      callee = lit "INVALID";
      info = record { caller = lit "INVALID"; timestamp = pos 0 };
    }
    else record {
      callee = or_empty (get_elem? ss (ln - 3));
      info = record { caller = or_empty (get_elem? ss (ln - 1)); timestamp = pos 0 };
    }

-- The mark of a record that is to be removed.
abbrev pub removed : CallerInfo
removed = record { caller = []; timestamp = pos 0 }

-- The loop of recordCallPairs over the latest callers: what becomes of them, of the calling map, and
-- whether the caller was there already.
pub scan_callers :
    CallerInfo
    → List CallerInfo
    → GoMap CallerInfo CallerPairs
    → List CallerInfo × GoMap CallerInfo CallerPairs × Bool
scan_callers ci [] m = ([], m, false)
scan_callers ci (c ∷ cs) m =
    let older = scan_callers ci cs (delete c m) in
    let other = scan_callers ci cs m in
    if c =? ci
    then (c ∷ cs, m, true)
    else if newer_than ci c
    then (removed ∷ older.0, older.1, older.2)
    else (c ∷ other.0, other.1, other.2)

abbrev pub or_none : Option CallerPairs → CallerPairs
or_none none = []
or_none (some cps) = cps

pub record_call_pairs : Str → ℤ → Graph → Graph
unfolding scan_callers newer_than parse_call_pair
record_call_pairs path timestamp g =
    let parsed = parse_call_pair path in
    let ci : CallerInfo = record { caller = parsed.caller; timestamp = timestamp } in
    let cp : CallPair = record { callee = parsed.callee; info = ci } in
    let (latest, m, had) = scan_callers ci g.latest_callers g.calling_map in
    record g {
      latest_callers = if had then latest else latest ++ ci ∷ [];
      calling_map = put ci (or_none (get ci m) ++ cp ∷ []) m;
    }

pub keep_latest : List CallerInfo → List CallerInfo
keep_latest [] = []
keep_latest (ci ∷ cis) =
    let rest = keep_latest cis in if ltz (pos 0) ci.timestamp then ci ∷ rest else rest

pub simplify : GoMap CallerInfo CallerPairs → GoMap Str CallerPairs → GoMap Str CallerPairs
simplify [] simple = simple
simplify ((ci, cps) ∷ m) simple = simplify m (put ci.caller cps simple)

pub finish_recording : Graph → Graph
unfolding keep_latest simplify
finish_recording g = record g {
  latest_callers = keep_latest g.latest_callers;
  simple_calling_map = simplify g.calling_map g.simple_calling_map;
}

-- A value that is no number counts as the time 1.
abbrev timestamp_of : Str → ℤ
timestamp_of text = if (atoi text).failed then pos 1 else (atoi text).value

-- The loops of BuildDependencies, from the inside.
pub read_client : Str → List Node → Graph → Graph
unfolding record_call_pairs
read_client key [] g = g
read_client key (n ∷ nodes) g = read_client key nodes (
    if has_suffix (node_key n) (lit "timestamp")
    then record_call_pairs key (timestamp_of (node_value n)) g
    else g)

pub read_clients : List Node → Graph → Graph
unfolding read_client
read_clients [] g = g
read_clients (n ∷ nodes) g =
    read_clients nodes (
      if has_suffix (node_key n) (lit "addr") then g else read_client (node_key n) (node_nodes n) g)

pub read_service : List Node → Graph → Graph
unfolding read_clients
read_service [] g = g
read_service (n ∷ nodes) g =
    read_service nodes
      (if has_suffix (node_key n) (lit "/clients") then read_clients (node_nodes n) g else g)

pub read_services : List Node → Graph → Graph
unfolding read_service
read_services [] g = g
read_services (n ∷ nodes) g = read_services nodes (read_service (node_nodes n) g)

pub read_namespaces : List Node → Graph → Graph
unfolding read_services
read_namespaces [] g = g
read_namespaces (n ∷ nodes) g = read_namespaces nodes (read_services (node_nodes n) g)

-- BuildDependencies on the node that etcd returns: the maps are made anew, the latest callers stay.
pub build_dependencies : Node → Graph → Graph
unfolding read_namespaces finish_recording
build_dependencies root g =
    finish_recording
      (read_namespaces (node_nodes root) (record g { calling_map = []; simple_calling_map = [] }))

pub mark_called : CallerPairs → GoMap Str Bool → GoMap Str Bool
mark_called [] called = called
mark_called (cp ∷ cps) called = mark_called cps (put cp.callee true called)

pub all_called : GoMap Str CallerPairs → GoMap Str Bool → GoMap Str Bool
unfolding mark_called
all_called [] called = called
all_called ((c, cps) ∷ m) called = all_called m (mark_called cps called)

abbrev or_false : Option Bool → Bool
or_false none = false
or_false (some b) = b

pub roots_of : GoMap Str Bool → GoMap Str CallerPairs → List Str
roots_of called [] = []
roots_of called ((c, cps) ∷ m) =
    let rest = roots_of called m in if or_false (get c called) then rest else c ∷ rest

pub find_roots : Graph → List Str
unfolding all_called roots_of
find_roots g = roots_of (all_called g.simple_calling_map []) g.simple_calling_map

abbrev pub or_no_callers : Option (List Str) → List Str
or_no_callers none = []
or_no_callers (some callers) = callers

pub add_caller : Str → CallerPairs → GoMap Str (List Str) → GoMap Str (List Str)
add_caller caller [] m = m
add_caller caller (cp ∷ cps) m =
    add_caller caller cps (put cp.callee (or_no_callers (get cp.callee m) ++ caller ∷ []) m)

pub called_map_of : GoMap Str CallerPairs → GoMap Str (List Str) → GoMap Str (List Str)
unfolding add_caller
called_map_of [] m = m
called_map_of ((caller, cps) ∷ simple) m = called_map_of simple (add_caller caller cps m)

pub gen_called_map : Graph → GoMap Str (List Str)
unfolding called_map_of
gen_called_map g = called_map_of g.simple_calling_map []
