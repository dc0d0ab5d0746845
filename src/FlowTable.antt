-- ===== src/FlowTable.antt =====
-- The jobs of a project's flows, with the marks of a job's neighbours under the mouse: `FlowTableView`
-- (src/web/js/azkaban.project.view.js). A link is found by its id; flow and job ids have no character that
-- a selector reads otherwise. Lists of neighbours that are missing are empty.
pub mod Laws
pub mod Expand
use azkaban.Prelude.{
  ℕ, zero, suc, ◌*◌, String, List, [], ◌∷◌, ◌++◌, Option, none, some, Bool, true, false, not, ◌≡◌,
  refl, ap, sym, ◌∙◌, if◌then◌else◌, str_eq, eq_iff, inl, inr, Bool-cases, Option-cases, arith,
}
use azkaban.Prelude.Dict.{change}
use azkaban.Params.Load.{append}

-- a job of `data.nodes`
pub record Job : Type 0 where
  pub id : String
  pub level : ℕ
  pub dependents : List String
  pub dependencies : List String

-- The link of a job, with what `createJobListTable` keeps on it, and whether the buttons to run the job
-- stand beside it.
pub record Link : Type 0 where
  pub text : String
  pub margin_left : ℕ
  pub flow_id : String
  pub dependents : List String
  pub dependencies : List String
  pub can_run : Bool

pub record LinkMarks : Type 0 where
  pub dependent : Bool
  pub dependency : Bool

-- what is found by the id of a link
pub record Entry : Type 0 where
  pub link : Link
  pub marks : LinkMarks

abbrev pub Table : Type 0
Table = List (String × Entry)

-- `flowId + "-" + name`
abbrev pub node_id : String → String → String
node_id flow_id name = append flow_id (append "-" name)

-- `createJobListTable`
unfoldable pub create_job_list_table : Bool → String → List Job → Table → Table
create_job_list_table exec_access flow_id [] table = table
create_job_list_table exec_access flow_id (n ∷ ns) table =
    create_job_list_table exec_access flow_id ns (
      table
      ++ (
        node_id flow_id n.id,
        record {
          link = record {
            text = n.id;
            margin_left = n.level * 20;
            flow_id = flow_id;
            dependents = n.dependents;
            dependencies = n.dependencies;
            can_run = exec_access;
          };
          marks = record { dependent = false; dependency = false };
        },
      )
        ∷ [])

-- `$(".dependent").removeClass("dependent"); $(".dependency").removeClass("dependency");`
pub unhighlight : Table → Table
unhighlight [] = []
unhighlight ((id, e) ∷ table) =
    (id, record e { marks = record { dependent = false; dependency = false } }) ∷ unhighlight table

-- `toggleClass` at what is found by an id
abbrev pub mark : (LinkMarks → LinkMarks) → Entry → Entry
mark f e = record e { marks = f e.marks }

-- a loop of `highlightJob`
pub mark_each : (LinkMarks → LinkMarks) → String → List String → Table → Table
mark_each f flow_id [] table = table
mark_each f flow_id (name ∷ names) table =
    mark_each f flow_id names (change (node_id flow_id name) (mark f) table)

-- the two `toggleClass`
abbrev pub toggle_dependent : LinkMarks → LinkMarks
toggle_dependent m = record m { dependent = not m.dependent }

abbrev pub toggle_dependency : LinkMarks → LinkMarks
toggle_dependency m = record m { dependency = not m.dependency }

-- `highlight` at the link of a job
pub highlight : Link → Table → Table
unfolding unhighlight mark_each
highlight l table =
    mark_each toggle_dependency l.flow_id l.dependencies
      (mark_each toggle_dependent l.flow_id l.dependents (unhighlight table))

-- `executingData` of `runJob`, `runWithDep` and `executeFlow`
pub record RunData : Type 0 where
  pub flow : String
  pub job : Option String
  pub with_dep : Bool

unfoldable pub run_job : String → String → RunData
run_job flow_id job_name = record { flow = flow_id; job = some job_name; with_dep = false }

unfoldable pub run_with_dep : String → String → RunData
run_with_dep flow_id job_name = record { flow = flow_id; job = some job_name; with_dep = true }

unfoldable pub execute_flow : String → RunData
execute_flow flow_id = record { flow = flow_id; job = none; with_dep = false }
