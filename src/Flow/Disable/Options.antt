-- ===== src/Flow/Disable/Options.antt =====
-- The execution options: which jobs a former execution leaves disabled (`changeFlowInfo`), and the
-- data that is sent to run the flow (`getExecutionOptionData`), in
-- src/web/js/azkaban.flow.execute.view.js. The boxes of the form are the fields of `Form`.
use azkaban.Prelude.{
  String, List, [], ◌∷◌, none, some, Bool, true, false, ◌≡◌, refl, ◌||◌, ◌&&◌, any, str_eq, eq_iff,
  arith, inl, inr, Option-cases, if◌then◌else◌,
}
use azkaban.Prelude.Dict.{get, put, get-put}
use azkaban.Flow.Graph.{JobNode, NodeMap}
use azkaban.Flow.Disable.{Flags, is_disabled}

-- the statuses that leave a job disabled, one loop's body for each
abbrev is_off : String → Bool
is_off s = str_eq s "DISABLED" || str_eq s "SKIPPED"

abbrev is_done : String → Bool
is_done s = str_eq s "SUCCEEDED" || str_eq s "RUNNING"

-- `node.status = status`, and READY in place of a status that is off
abbrev new_status : String → String
new_status s = if is_off s then "READY" else s

pub record Loaded : Type 0 where
  pub node_map : NodeMap
  pub disabled : Flags

-- one key of the loop over `nodeStatus`
load_status : String → String → Loaded → Loaded
load_status key status l = elim (get key l.node_map) [
  | none ↦ l
  | some n ↦
      let flags = if is_off status then put n.id true l.disabled else l.disabled in
      record {
        node_map = put key (record n { status = new_status status }) l.node_map;
        disabled = if is_done (new_status status) then put n.id true flags else flags;
      }
]

load_statuses : List (String × String) → Loaded → Loaded
load_statuses [] l = l
load_statuses ((key, status) ∷ rest) l = load_statuses rest (load_status key status l)

-- `changeFlowInfo` where `nodeStatus` is set: the flags start empty.
pub change_flow_info : List (String × String) → NodeMap → Loaded
unfolding load_statuses load_status
change_flow_info node_status m = load_statuses node_status (record { node_map = m; disabled = [] })

-- Every node stands under its own id.
abbrev pub HasIds : NodeMap → Type 0
HasIds m = (k : String) (n : JobNode) → get k m ≡ some n → n.id ≡ k

abbrev pub is_node : NodeMap → String → Bool
is_node m id = elim (get id m) [ none ↦ false | some _ ↦ true ]

record Loads (key status : String) (l l' : Loaded) : Type 0 where
  ids : HasIds l'.node_map
  same_nodes : (j : String) → is_node l'.node_map j ≡ is_node l.node_map j
  flags :
      (j : String)
      → is_disabled l'.disabled j ≡ (
          is_disabled l.disabled j
          || (str_eq key j && is_node l.node_map j && (is_off status || is_done status)))

load_status-Loads :
    (key status : String) (l : Loaded)
    → HasIds l.node_map
    → Loads key status l (load_status key status l)
unfolding load_status
load_status-Loads key status l ids = elim (Option-cases (get key l.node_map)) [
  | inl e ↦
      rw (e, load_status)
        record { ids = ids; same_nodes = λ j. refl; flags = λ j. ground (arith, e, eq_iff key j) }
  | inr (n, e) ↦
      let n' = record n { status = new_status status } in
      let once = put n.id true l.disabled in
      rw (e, load_status)
        record {
          ids = λ k v h.
              ground (arith, h, ids key n e, ids k v, get-put k key n' l.node_map, eq_iff key k);
          same_nodes = λ j. ground (arith, e, get-put j key n' l.node_map, eq_iff key j);
          flags = λ j. ground (
            arith,
            e,
            ids key n e,
            eq_iff key j,
            get-put j key true l.disabled,
            get-put j key true (put key true l.disabled),
          );
        }
]

-- some entry for `j` has a status that leaves the job disabled
abbrev leaves_disabled : List (String × String) → String → Bool
leaves_disabled node_status j =
    any (λ entry. str_eq entry.0 j && (is_off entry.1 || is_done entry.1)) node_status

load_statuses-flags :
    (node_status : List (String × String)) (l : Loaded) (j : String)
    → HasIds l.node_map
    → is_disabled (load_statuses node_status l).disabled j
      ≡ (is_disabled l.disabled j || (is_node l.node_map j && leaves_disabled node_status j))
unfolding load_statuses
load_statuses-flags [] l j ids = ground arith
load_statuses-flags ((key, status) ∷ rest) l j ids =
    let once = load_status-Loads key status l ids in
    ground (
      arith,
      once.flags j,
      once.same_nodes j,
      load_statuses-flags rest (load_status key status l) j once.ids,
    )

-- After the information on a former execution is loaded into a map whose nodes stand under their own
-- ids, a job is disabled exactly when it is a node of the flow and the execution has it as
-- DISABLED, SKIPPED, SUCCEEDED or RUNNING.
pub change_flow_info-disabled :
    (node_status : List (String × String)) (m : NodeMap) (j : String)
    → HasIds m
    → is_disabled (change_flow_info node_status m).disabled j
      ≡ (is_node m j && leaves_disabled node_status j)
unfolding change_flow_info get
change_flow_info-disabled node_status m j ids =
    load_statuses-flags node_status (record { node_map = m; disabled = [] }) j ids
