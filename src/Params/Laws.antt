-- ===== src/Params/Laws.antt =====
-- What the tables send is what was loaded into them, and what was edited.
use azkaban.Prelude.{
  String, List, [], ◌∷◌, ◌++◌, length, ap, ◌∙◌, Option, none, some, Bool, true, false, ◌≡◌, ◌≢◌,
  refl, ◌||◌, inl, inr, arith, str_eq, eq_iff, contains, Option-cases, if◌then◌else◌,
}
use azkaban.Prelude.Dict.{get, put, keys, get-put}
use azkaban.Flow.Disable.{is_disabled}
use azkaban.Params.{
  Row, Params, add_row, remove_row, edit_row, add_params, read_rows, is_hidden, show_rows,
  handle_set, Overrides, set_values, set_dependencies, disabled_jobs, Form, execution_option_data,
}

-- An object has each of its keys once.
abbrev pub IsObject {ℓ} : {V : Type ℓ} → List (String × V) → Type 0
IsObject [] = Unit {0}
IsObject ((k, _) ∷ m) = (contains k (keys m) ≡ false) × IsObject m

-- What the last row named `k` holds.
abbrev pub last_value : List Row → String → Option String
last_value [] k = none
last_value (r ∷ rs) k = elim (last_value rs k) [
  | some v ↦ some v
  | none ↦ if str_eq r.name k then some r.value else none
]

abbrev pub or_else : Option String → Option String → Option String
or_else (some v) o = some v
or_else none o = o

pub get-read_rows :
    (rows : List Row) (m : Params) (k : String)
    → k ≢ ""
    → get k (read_rows rows m) ≡ or_else (last_value rows k) (get k m)
unfolding read_rows
get-read_rows [] m k ne = refl
get-read_rows (r ∷ rs) m k ne = ground (
  arith,
  ne,
  get-read_rows rs (if str_eq r.name "" then m else put r.name r.value m) k ne,
  get-put k r.name r.value m,
  eq_iff r.name "",
  eq_iff r.name k,
)

get_empty-read_rows : (rows : List Row) (m : Params) → get "" (read_rows rows m) ≡ get "" m
unfolding read_rows
get_empty-read_rows [] m = refl
get_empty-read_rows (r ∷ rs) m = ground (
  arith,
  get_empty-read_rows rs (if str_eq r.name "" then m else put r.name r.value m),
  get-put "" r.name r.value m,
)

pub last_value-append :
    (rows more : List Row) (k : String)
    → last_value (rows ++ more) k ≡ or_else (last_value more k) (last_value rows k)
last_value-append [] more k = ground arith
last_value-append (r ∷ rs) more k = ground (arith, last_value-append rs more k)

pub get-none_of_absent {ℓ} :
    {V : Type ℓ} (k : String) (m : List (String × V)) → contains k (keys m) ≡ false → get k m ≡ none
unfolding get
get-none_of_absent k [] h = refl
get-none_of_absent k ((j, v) ∷ m) h = ground (arith, get-none_of_absent k m)

-- Each loaded parameter is the last of its name in the table.
pub last_value-add_params :
    (ps : Params) (rows : List Row) (k : String)
    → IsObject ps
    → last_value (add_params ps rows) k ≡ or_else (get k ps) (last_value rows k)
unfolding add_params add_row get
last_value-add_params [] rows k h = refl
last_value-add_params ((j, v) ∷ ps) rows k (new, h) =
    let row : Row = record { name = j; value = v } in
    ground (
      arith,
      last_value-add_params ps (rows ++ row ∷ []) k h,
      last_value-append rows (row ∷ []) k,
      get-none_of_absent j ps new,
      eq_iff j k,
    )

-- The parameters sent to run a flow: for a name that is not empty, the value is that of the last row
-- of that name; the empty name is never sent.
pub flow_override-last :
    (f : Form) (disabled : List (String × Bool))
    → ((k : String)
        → k ≢ ""
        → get k (execution_option_data f disabled).flow_override ≡ last_value f.rows k)
      × (get "" (execution_option_data f disabled).flow_override ≡ none)
unfolding execution_option_data get
flow_override-last f disabled =
    (λ k ne. ground (arith, get-read_rows f.rows [] k ne), get_empty-read_rows f.rows [])

last_value-show_rows :
    (ps : Params) (k : String)
    → IsObject ps
    → last_value (show_rows ps) k ≡ (if is_hidden k then none else get k ps)
unfolding show_rows get
last_value-show_rows [] k h = ground arith
last_value-show_rows ((j, v) ∷ ps) k (new, h) =
    ground (arith, last_value-show_rows ps k h, get-none_of_absent j ps new, eq_iff j k)

get-set_values :
    (m : Params) (k : String)
    → get k (set_values m) ≡ elim (get k m) [ none ↦ none | some v ↦ some (some v) ]
unfolding get
get-set_values [] k = refl
get-set_values ((j, v) ∷ m) k = ground (arith, get-set_values m k)

get-set_dependencies :
    (ps : Params) (m : Overrides) (k : String)
    → get k (set_dependencies ps m) ≡ elim (get "dependencies" ps) [
      | none ↦ get k m
      | some v ↦ if str_eq "dependencies" k then some (some v) else get k m
    ]
unfolding set_dependencies
get-set_dependencies ps m k = elim (Option-cases (get "dependencies" ps)) [
  | inl e ↦ ground (arith, e)
  | inr (v, e) ↦ ground (arith, e, get-put k "dependencies" (some v) m)
]

-- The properties that `handleSet` sends: `type` and `dependencies` are the job's own, also where a row has
-- their names, and any other is the last of its rows.
abbrev pub Sends : List Row → Params → Overrides → Type 0
Sends rows ps sent =
    (get "type" sent ≡ some (get "type" ps))
    × ((v : String) → get "dependencies" ps ≡ some v → get "dependencies" sent ≡ some (some v))
    × ((k : String)
        → k ≢ "type"
        → (k ≡ "dependencies" → get k ps ≡ none)
        → k ≢ ""
        → get k sent ≡ elim (last_value rows k) [ none ↦ none | some v ↦ some (some v) ])
    × (get "" sent ≡ none)

get-handle_set :
    (rows : List Row) (ps : Params) (k : String)
    → get k (handle_set rows ps) ≡ elim (get "dependencies" ps) [
      | none ↦
          if str_eq "type" k then some (get "type" ps) else get k (set_values (read_rows rows []))
      | some v ↦
          if str_eq "dependencies" k
          then some (some v)
          else if str_eq "type" k
          then some (get "type" ps)
          else get k (set_values (read_rows rows []))
    ]
unfolding handle_set
get-handle_set rows ps k =
    let edited = set_values (read_rows rows []) in
    ground (
      arith,
      get-put k "type" (get "type" ps) edited,
      get-set_dependencies ps (put "type" (get "type" ps) edited) k,
    )

is_hidden_lem : (k : String) → is_hidden k ≡ (str_eq "type" k || str_eq "dependencies" k)
unfolding is_hidden
is_hidden_lem k =
    ground
      (arith, eq_iff k "type", eq_iff "type" k, eq_iff k "dependencies", eq_iff "dependencies" k)

pub handle_set-Sends : (rows : List Row) (ps : Params) → Sends rows ps (handle_set rows ps)
unfolding get
handle_set-Sends rows ps = (
  ground (arith, get-handle_set rows ps "type"),
  λ v e. ground (arith, e, get-handle_set rows ps "dependencies"),
  λ k ne none ne'. ground (
    arith,
    get-handle_set rows ps k,
    get-set_values (read_rows rows []) k,
    get-read_rows rows [] k ne',
    eq_iff "type" k,
    eq_iff "dependencies" k,
  ),
  ground (
    arith,
    get-handle_set rows ps "",
    get-set_values (read_rows rows []) "",
    get_empty-read_rows rows [],
  ),
)

-- Setting a job's properties without editing them keeps every property that has a name: what
-- `handleSet` sends for the rows that `show` made is what the job had, `dependencies` included, although
-- it is not shown.
handle_set-show_rows :
    (ps : Params) (k : String)
    → IsObject ps
    → k ≢ ""
    → k ≢ "type"
    → get k (handle_set (show_rows ps) ps)
      ≡ elim (get k ps) [ none ↦ none | some v ↦ some (some v) ]
unfolding get
handle_set-show_rows ps k h ne ne' = ground (
  arith,
  is_hidden_lem k,
  get-handle_set (show_rows ps) ps k,
  get-set_values (read_rows (show_rows ps) []) k,
  get-read_rows (show_rows ps) [] k ne,
  last_value-show_rows ps k h,
  eq_iff "type" k,
  eq_iff "dependencies" k,
)

contains-disabled_jobs :
    (m : List (String × Bool)) (j : String)
    → IsObject m
    → contains j (disabled_jobs m) ≡ is_disabled m j
unfolding disabled_jobs get
contains-disabled_jobs [] j h = refl
contains-disabled_jobs ((k, true) ∷ m) j (new, h) = ground (arith, contains-disabled_jobs m j h)
contains-disabled_jobs ((k, false) ∷ m) j (new, h) =
    ground (arith, contains-disabled_jobs m j h, get-none_of_absent k m new, eq_iff k j)

-- The request that runs a flow names a job among the disabled ones exactly when its flag is set, and
-- holds a pipeline level or a queue level only with the option that uses it.
pub execution_option_data-disabled :
    (f : Form) (m : List (String × Bool)) (j : String)
    → IsObject m
    → (contains j (execution_option_data f m).disabled ≡ is_disabled m j)
      × ((execution_option_data f m).pipeline_level ≢ none
          → str_eq f.concurrent_option "pipeline" ≡ true)
      × ((execution_option_data f m).queue_level ≢ none → str_eq f.concurrent_option "queue" ≡ true)
unfolding execution_option_data
execution_option_data-disabled f m j h =
    (contains-disabled_jobs m j h, λ some_level. ground arith, λ some_level. ground arith)

remove_row-append : (rows : List Row) (r : Row) → remove_row (length rows) (rows ++ r ∷ []) ≡ rows
unfolding remove_row
remove_row-append [] r = refl
remove_row-append (x ∷ rows) r = ap (x ∷◌) (remove_row-append rows r)

edit_row-append :
    (rows : List Row) (r : Row) (is_name : Bool) (text : String)
    → edit_row (length rows) is_name text (rows ++ r ∷ [])
      ≡ rows ++ (if is_name then record r { name = text } else record r { value = text }) ∷ []
unfolding edit_row
edit_row-append [] r is_name text = refl
edit_row-append (x ∷ rows) r is_name text = ap (x ∷◌) (edit_row-append rows r is_name text)

-- A row that is added empty, and then given a name that is not empty and a value in its two cells,
-- is the last row of its name, so its value is what is sent for that name; removing it again gives
-- the table as it was.
pub edit_row-add_row :
    (rows : List Row) (k v : String)
    → k ≢ ""
    → (get k (
          read_rows
            (edit_row
              (length rows)
              false
              v
              (edit_row (length rows) true k (add_row none none rows)))
            [])
        ≡ some v)
      × (remove_row (length rows) (
            edit_row (length rows) false v (edit_row (length rows) true k (add_row none none rows)))
          ≡ rows)
unfolding add_row
edit_row-add_row rows k v ne =
    let typed : edit_row (length rows) false v
          (edit_row (length rows) true k (add_row none none rows))
        ≡ rows ++ record { name = k; value = v } ∷ [] =
      ap (edit_row (length rows) false v)
        (edit_row-append rows (record { name = ""; value = "" }) true k)
      ∙ edit_row-append rows (record { name = k; value = "" }) false v in
    (
      rw typed (
          get-read_rows (rows ++ record { name = k; value = v } ∷ []) [] k ne
          ∙ ground
              (arith, last_value-append rows (record { name = k; value = v } ∷ []) k, eq_iff k k)),
      rw typed (remove_row-append rows (record { name = k; value = v })),
    )
