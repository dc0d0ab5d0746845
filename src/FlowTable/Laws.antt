-- ===== src/FlowTable/Laws.antt =====
-- Which links are marked (src/web/js/azkaban.project.view.js).
use azkaban.Prelude.{
  String, List, [], ◌∷◌, Option, none, some, Bool, true, false, not, ◌≡◌, refl, ap, ◌∙◌,
  if◌then◌else◌, str_eq, inl, inr, Bool-cases,
}
use azkaban.Prelude.Dict.{get, change, changed, get-change}
use azkaban.FlowTable.{
  Link, LinkMarks, Entry, Table, node_id, unhighlight, mark, mark_each, toggle_dependent,
  toggle_dependency, highlight,
}

-- Whether a link is that of an odd number of the names: of one, where the names are different.
abbrev pub is_named : String → String → List String → Bool
is_named flow_id id [] = false
is_named flow_id id (name ∷ names) =
    if str_eq (node_id flow_id name) id
    then not (is_named flow_id id names)
    else is_named flow_id id names

abbrev pub with_marks : (LinkMarks → LinkMarks) → Option Entry → Option Entry
with_marks f = changed (mark f)

get-unhighlight :
    (id : String) (table : Table)
    → get id (unhighlight table)
      ≡ with_marks (λ _. record { dependent = false; dependency = false }) (get id table)
unfolding get unhighlight
get-unhighlight id [] = refl
get-unhighlight id ((j, e) ∷ table) = elim (Bool-cases (str_eq j id)) [
  | inl same ↦ rw same refl
  | inr other ↦ rw other (get-unhighlight id table)
]

-- the marks after some toggles
abbrev toggled : (LinkMarks → LinkMarks) → Bool → Option Entry → Option Entry
toggled f odd o = if odd then with_marks f o else o

toggled_again :
    (f : LinkMarks → LinkMarks) (here later : Bool) (o : Option Entry)
    → ((m : LinkMarks) → f (f m) ≡ m)
    → toggled f later (if here then with_marks f o else o)
      ≡ toggled f (if here then not later else later) o
toggled_again f true true none twice = refl
toggled_again f true true (some e) twice = ap (λ m. some (record e { marks = m })) (twice e.marks)
toggled_again f true false o twice = refl
toggled_again f false later o twice = refl

get-mark_each :
    (f : LinkMarks → LinkMarks) (flow_id : String) (names : List String) (table : Table)
    (id : String)
    → ((m : LinkMarks) → f (f m) ≡ m)
    → get id (mark_each f flow_id names table)
      ≡ toggled f (is_named flow_id id names) (get id table)
unfolding mark_each
get-mark_each f flow_id [] table id twice = refl
get-mark_each f flow_id (name ∷ names) table id twice =
    get-mark_each f flow_id names (change (node_id flow_id name) (mark f) table) id twice
    ∙ (ap (toggled f (is_named flow_id id names))
          (get-change id (node_id flow_id name) (mark f) table)
        ∙ toggled_again f (str_eq (node_id flow_id name) id) (is_named flow_id id names)
            (get id table) twice)

not_twice : (b : Bool) → not (not b) ≡ b
not_twice true = refl
not_twice false = refl

dependent_twice : (m : LinkMarks) → toggle_dependent (toggle_dependent m) ≡ m
dependent_twice m = ap (λ b. record m { dependent = b }) (not_twice m.dependent)

dependency_twice : (m : LinkMarks) → toggle_dependency (toggle_dependency m) ≡ m
dependency_twice m = ap (λ b. record m { dependency = b }) (not_twice m.dependency)

both :
    (p q : Bool) (o : Option Entry)
    → toggled toggle_dependency q (
        toggled toggle_dependent p
          (with_marks (λ _. record { dependent = false; dependency = false }) o))
      ≡ with_marks (λ _. record { dependent = p; dependency = q }) o
both true true none = refl
both true false none = refl
both false true none = refl
both false false none = refl
both true true (some e) = refl
both true false (some e) = refl
both false true (some e) = refl
both false false (some e) = refl

-- While the mouse is at a job, its dependents and its dependencies are marked as such and no other link
-- is, whatever was marked before; a job that is listed twice is not marked.
pub highlight-marks :
    (l : Link) (table : Table) (id : String)
    → get id (highlight l table)
      ≡ with_marks
          (λ _. record {
            dependent = is_named l.flow_id id l.dependents;
            dependency = is_named l.flow_id id l.dependencies;
          })
          (get id table)
unfolding highlight
highlight-marks l table id =
    get-mark_each toggle_dependency l.flow_id l.dependencies
      (mark_each toggle_dependent l.flow_id l.dependents (unhighlight table)) id dependency_twice
    ∙ (ap (toggled toggle_dependency (is_named l.flow_id id l.dependencies)) (
          get-mark_each toggle_dependent l.flow_id l.dependents (unhighlight table) id
            dependent_twice
          ∙ ap (toggled toggle_dependent (is_named l.flow_id id l.dependents))
              (get-unhighlight id table))
        ∙ both (is_named l.flow_id id l.dependents) (is_named l.flow_id id l.dependencies)
            (get id table))
