-- ===== src/JobList/Marks.antt =====
-- The classes of the items in the list of jobs: `render`, `assignInitialStatus`, `handleDisabledChange` and
-- `handleStatusUpdate` (src/web/js/azkaban.flow.job.view.js). `listNodes` finds an item by the id of its
-- job; ids are different. Coordinates are numbers of a type that is a parameter.
use azkaban.Prelude.{
  String, List, [], ◌∷◌, ◌++◌, Option, none, some, Bool, true, false, not, ◌≡◌, refl, ap, ◌∙◌, ◌||◌,
  ◌&&◌, str_eq, eq_iff, if◌then◌else◌, contains,
}
use azkaban.Prelude.Dict.{get, put, change, changed, get-change}
use azkaban.Prelude.Sort.{sort_by}
use azkaban.Flow.Disable.{Flags, is_disabled}

-- the classes of an item: those of statuses, `nodedisabled` and `selected`
pub record Marks : Type 0 where
  pub status : List String
  pub node_disabled : Bool
  pub selected : Bool

-- `listNodes`, in the order of the list
abbrev pub Items : Type 0
Items = List (String × Marks)

pub record Update : Type 0 where
  pub id : String
  pub status : String

-- the loop of `handleDisabledChange` over the ids in `nodes`
unfoldable pub handle_disabled_change : Flags → List String → Items → Items
handle_disabled_change flags [] items = items
handle_disabled_change flags (id ∷ ids) items =
    handle_disabled_change flags ids
      (change id (λ x. record x { node_disabled = is_disabled flags id }) items)

-- the loop of `handleStatusUpdate`; `removeClass()` takes every class
pub handle_status_update : List Update → Items → Items
handle_status_update [] items = items
handle_status_update (u ∷ us) items = handle_status_update us (
    change u.id (λ x. record { status = u.status ∷ []; node_disabled = false; selected = false })
      items)

-- `assignInitialStatus`
unfoldable pub assign_initial_status : List Update → Items → Items
assign_initial_status [] items = items
assign_initial_status (n ∷ ns) items = assign_initial_status ns (
    change n.id
      (λ x. record x {
        status = if contains n.status x.status then x.status else x.status ++ n.status ∷ [];
      })
      items)

-- a node of `data.nodes`
pub record Placed {ℓ} (A : Type ℓ) : Type ℓ where
  pub id : String
  pub status : String
  pub x : A
  pub y : A

module _ {A : Type 0} (lt : A → A → Bool) where
  -- the comparison of `nodeArray.sort`, below 0
  abbrev pub before : Placed A → Placed A → Bool
  before a b = lt a.y b.y || (not (lt b.y a.y) && lt a.x b.x)

  abbrev pub updates_of : List (Placed A) → List Update
  updates_of [] = []
  updates_of (n ∷ ns) = record { id = n.id; status = n.status } ∷ updates_of ns

  abbrev pub new_items : List (Placed A) → Items → Items
  new_items [] items = items
  new_items (n ∷ ns) items =
      new_items ns
        (put n.id (record { status = []; node_disabled = false; selected = false }) items)

  -- `render`: without nodes it ends before the list is made.
  unfoldable pub render : Flags → List String → List (Placed A) → Items
  unfolding assign_initial_status handle_disabled_change
  render flags ids [] = []
  render flags ids (n ∷ ns) =
      handle_disabled_change flags ids
        (assign_initial_status (updates_of (n ∷ ns)) (new_items (sort_by before (n ∷ ns)) []))

abbrev pub marked : Flags → String → Marks → Marks
marked flags id x = record x { node_disabled = is_disabled flags id }

marked_twice :
    (flags : Flags) (id j : String) (same later : Bool) (o : Option Marks)
    → (same ≡ true → id ≡ j)
    → (if later
        then changed (marked flags j) (if same then changed (marked flags id) o else o)
        else if same
        then changed (marked flags id) o
        else o)
      ≡ (if same || later then changed (marked flags j) o else o)
marked_twice flags id j true true none e = refl
marked_twice flags id j true true (some x) e = refl
marked_twice flags id j true false o e = ap (λ i. changed (marked flags i) o) (e refl)
marked_twice flags id j false true o e = refl
marked_twice flags id j false false o e = refl

pub get-handle_disabled_change :
    (flags : Flags) (ids : List String) (items : Items) (j : String)
    → get j (handle_disabled_change flags ids items)
      ≡ (if contains j ids then changed (marked flags j) (get j items) else get j items)
unfolding handle_disabled_change
get-handle_disabled_change flags [] items j = refl
get-handle_disabled_change flags (id ∷ ids) items j =
    get-handle_disabled_change flags ids (change id (marked flags id) items) j
    ∙ (ap (λ o. if contains j ids then changed (marked flags j) o else o)
          (get-change j id (marked flags id) items)
        ∙ marked_twice flags id j (str_eq id j) (contains j ids) (get j items) (eq_iff id j).0)

-- The status that the loop sets last at the item of a job.
abbrev pub last_status : String → List Update → Option String
last_status id [] = none
last_status id (u ∷ us) = elim (last_status id us) [
  | some s ↦ some s
  | none ↦ if str_eq u.id id then some u.status else none
]

abbrev pub cleared : String → Marks → Marks
cleared s x = record { status = s ∷ []; node_disabled = false; selected = false }

abbrev pub cleared_by : Option String → Option Marks → Option Marks
cleared_by none o = o
cleared_by (some s) o = changed (cleared s) o

cleared_twice :
    (s : String) (same : Bool) (later : Option String) (o : Option Marks)
    → cleared_by later (if same then changed (cleared s) o else o)
      ≡ cleared_by (elim later [ some t ↦ some t | none ↦ if same then some s else none ]) o
cleared_twice s true none o = refl
cleared_twice s false none o = refl
cleared_twice s true (some t) none = refl
cleared_twice s true (some t) (some x) = refl
cleared_twice s false (some t) o = refl

get-handle_status_update :
    (us : List Update) (items : Items) (j : String)
    → get j (handle_status_update us items) ≡ cleared_by (last_status j us) (get j items)
unfolding handle_status_update
get-handle_status_update [] items j = refl
get-handle_status_update (u ∷ us) items j =
    get-handle_status_update us (change u.id (cleared u.status) items) j
    ∙ (ap (cleared_by (last_status j us)) (get-change j u.id (cleared u.status) items)
        ∙ cleared_twice u.status (str_eq u.id j) (last_status j us) (get j items))

cleared-marked :
    (flags : Flags) (j : String) (l : Option String) (o : Option Marks)
    → cleared_by l (changed (marked flags j) o)
      ≡ elim l [ none ↦ changed (marked flags j) o | some s ↦ changed (cleared s) o ]
cleared-marked flags j none o = refl
cleared-marked flags j (some s) none = refl
cleared-marked flags j (some s) (some x) = refl

-- After the disabled jobs were marked and an update came, an item without a new status is marked as
-- disabled exactly if its job is; an item with one has that status alone: it is marked neither as disabled
-- nor as selected, whatever its job is.
pub handle_status_update-marks :
    (flags : Flags) (ids : List String) (us : List Update) (items : Items) (j : String)
    → contains j ids ≡ true
    → get j (handle_status_update us (handle_disabled_change flags ids items))
      ≡ elim (last_status j us) [
        | none ↦ changed (marked flags j) (get j items)
        | some s ↦ changed (cleared s) (get j items)
      ]
handle_status_update-marks flags ids us items j known =
    get-handle_status_update us (handle_disabled_change flags ids items) j
    ∙ (ap (cleared_by (last_status j us)) (
          get-handle_disabled_change flags ids items j
          ∙ ap (λ b. if b then changed (marked flags j) (get j items) else get j items) known)
        ∙ cleared-marked flags j (last_status j us) (get j items))
