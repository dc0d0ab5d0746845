-- ===== src/Flow/Scheduled.antt =====
-- The jobs that the scheduling dialog opens with disabled: the loop over the statuses in `show` of
-- `AdvancedScheduleView` (src/web/js/azkaban.schedule.options.view.js).
use azkaban.Prelude.{
  String, List, [], ◌∷◌, Bool, true, false, ◌≡◌, refl, ap, ◌∙◌, ◌||◌, ◌&&◌, any, str_eq, eq_iff,
  arith, if◌then◌else◌, inl, inr, Bool-cases,
}
use azkaban.Prelude.Dict.{get, put, get-put}
use azkaban.Flow.Graph.{JobNode}
use azkaban.Flow.Disable.{Flags, is_disabled}

pub record Shown : Type 0 where
  pub nodes : List JobNode
  pub disabled : Flags

-- the two tests of the loop; the second reads the status that the first may have set
abbrev pub is_off : String → Bool
is_off s = str_eq s "DISABLED" || str_eq s "SKIPPED"

abbrev pub is_done : String → Bool
is_done s = str_eq s "SUCCEEDED" || str_eq s "RUNNING"

abbrev pub ready_if_off : String → String
ready_if_off s = if is_off s then "READY" else s

abbrev pub flag_node : JobNode → Flags → Flags
flag_node n m =
    let flags = if is_off n.status then put n.id true m else m in
    if is_done (ready_if_off n.status) then put n.id true flags else flags

-- the nodes with their statuses after the loop, and the flags
pub show_statuses : List JobNode → Flags → Shown
show_statuses [] m = record { nodes = []; disabled = m }
show_statuses (n ∷ ns) m =
    let rest = show_statuses ns (flag_node n m) in
    record {
      nodes = record n { status = ready_if_off n.status } ∷ rest.nodes;
      disabled = rest.disabled;
    }

abbrev pub is_out : String → JobNode → Bool
is_out id n = str_eq n.id id && (is_off n.status || is_done n.status)

flag_node-is_disabled :
    (n : JobNode) (m : Flags) (id : String)
    → is_disabled (flag_node n m) id ≡ (is_out id n || is_disabled m id)
flag_node-is_disabled n m id =
    ground (arith, get-put id n.id true m, get-put id n.id true (put n.id true m), eq_iff n.id id)

show_statuses-is_disabled :
    (ns : List JobNode) (m : Flags) (id : String)
    → is_disabled (show_statuses ns m).disabled id ≡ (any (is_out id) ns || is_disabled m id)
unfolding show_statuses
show_statuses-is_disabled [] m id = refl
show_statuses-is_disabled (n ∷ ns) m id =
    ground (arith, show_statuses-is_disabled ns (flag_node n m) id, flag_node-is_disabled n m id)

never_off : (s : String) → is_off (ready_if_off s) ≡ false
never_off s = elim (Bool-cases (is_off s)) [ inl e ↦ rw e refl | inr e ↦ rw e e ]

show_statuses-ready :
    (ns : List JobNode) (m : Flags) → any (λ n. is_off n.status) (show_statuses ns m).nodes ≡ false
unfolding show_statuses
show_statuses-ready [] m = refl
show_statuses-ready (n ∷ ns) m =
    ap (◌|| any (λ x. is_off x.status) (show_statuses ns (flag_node n m)).nodes)
      (never_off n.status)
    ∙ show_statuses-ready ns (flag_node n m)

nothing_disabled : (b : Bool) (id : String) → (b || is_disabled [] id) ≡ b
unfolding get
nothing_disabled true id = refl
nothing_disabled false id = refl

-- The dialog opens with exactly the jobs disabled whose status is DISABLED, SKIPPED, SUCCEEDED or RUNNING,
-- and no node is left with the status DISABLED or SKIPPED.
pub show_statuses-disabled :
    (ns : List JobNode) (id : String)
    → (is_disabled (show_statuses ns []).disabled id ≡ any (is_out id) ns)
      × (any (λ n. is_off n.status) (show_statuses ns []).nodes ≡ false)
show_statuses-disabled ns id = (
  show_statuses-is_disabled ns [] id ∙ nothing_disabled (any (is_out id) ns) id,
  show_statuses-ready ns [],
)
