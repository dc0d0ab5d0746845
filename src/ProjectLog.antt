-- ===== src/ProjectLog.antt =====
-- The log of a project: `handleUpdate` of `ProjectLogView` (src/web/js/azkaban.projectlog.view.js). The
-- server sends the names of the columns and a list of values for each event. Values are of a type that
-- is a parameter; a type of events is a text among them.
use azkaban.Prelude.{
  ℕ, suc, ◌+◌, String, List, [], ◌∷◌, map, Option, none, some, ◌≡◌, refl, ◌∙◌, ap, str_eq, eq_iff,
  contains, get_elem?, if◌then◌else◌, arith, inl, inr, Bool-cases,
}
use azkaban.Prelude.Dict.{get, put, get-put}
use azkaban.Texts.{Text}
use azkaban.Dates.{Date, get_date_format}

-- `typeMapping`
abbrev pub type_mapping : List (String × String)
type_mapping =
    ("ERROR", "Error")
    ∷ ("CREATED", "Project Created")
    ∷ ("DELETED", "Project Deleted")
    ∷ ("USER_PERMISSION", "User Permission")
    ∷ ("GROUP_PERMISSION", "Group Permission")
    ∷ ("DESCRIPTION", "Description Set")
    ∷ ("SCHEDULE", "Schedule")
    ∷ ("UPLOADED", "Uploaded")
    ∷ []

-- the loop that makes `columnMap`, from the index `i`
unfoldable pub column_map : ℕ → List String → List (String × ℕ) → List (String × ℕ)
column_map i [] m = m
column_map i (c ∷ cs) m = column_map (suc i) cs (put c i m)

-- the answer: an error, or the columns and the events
pub data Answer (V : Type 0) : Type 0 where
  error : String → Answer V
  log : List String → List (List V) → Answer V

-- The text of the type: that of `typeMapping`, or the value itself.
pub data TypeLabel (V : Type 0) : Type 0 where
  mapped : String → TypeLabel V
  itself : Option V → TypeLabel V

pub record Row (V : Type 0) : Type 0 where
  pub time : Text
  pub user : Option V
  pub type_class : Option V
  pub type_text : TypeLabel V
  pub message : Option V

pub record Page (V : Type 0) : Type 0 where
  pub table : List (Row V)
  pub dialog : Option String

module _ {V : Type 0} (text_of : V → String) (date_of : Option V → Date) where
  -- `event[columnMap[name]]`
  unfoldable pub value_at : List (String × ℕ) → String → List V → Option V
  value_at columns name event = elim (get name columns) [ none ↦ none | some i ↦ get_elem? event i ]

  abbrev pub type_label : Option V → TypeLabel V
  type_label none = itself none
  type_label (some v) = elim (get (text_of v) type_mapping) [
    | none ↦ itself (some v)
    | some label ↦ mapped label
  ]

  abbrev pub row_of : Option V → Option V → Option V → Option V → Row V
  row_of user time type message = record {
    time = get_date_format (date_of time);
    user = user;
    type_class = type;
    type_text = type_label type;
    message = message;
  }

  -- the body of the loop over the events
  unfoldable pub event_row : List (String × ℕ) → List V → Row V
  unfolding value_at
  event_row columns event =
      row_of (value_at columns "user" event) (value_at columns "time" event)
        (value_at columns "type" event) (value_at columns "message" event)

  -- the handler of the answer
  unfoldable pub handle_update : Answer V → Page V → Page V
  unfolding column_map event_row
  handle_update (error message) p = record p { dialog = some message }
  handle_update (log columns events) p = record p {
    table = map (event_row (column_map 0 columns [])) events;
  }

  -- The values from the index on are those of the columns.
  abbrev Follows : (String → V) → List V → ℕ → List String → Type 0
  Follows f event i columns = (k : ℕ) → get_elem? event (i + k) ≡ get_elem? (map f columns) k

  Follows-rest :
      (f : String → V) (event : List V) (i : ℕ) (c : String) (cs : List String)
      → Follows f event i (c ∷ cs)
      → Follows f event (suc i) cs
  Follows-rest f event i c cs h k = ap (get_elem? event) (omega arith) ∙ h (suc k)

  Follows-first :
      (f : String → V) (event : List V) (i : ℕ) (c : String) (cs : List String)
      → Follows f event i (c ∷ cs)
      → get_elem? event i ≡ some (f c)
  Follows-first f event i c cs h = ap (get_elem? event) (omega arith) ∙ h 0

  value_at-put :
      (f : String → V) (name c : String) (i : ℕ) (event : List V) (m : List (String × ℕ))
      → get_elem? event i ≡ some (f c)
      → value_at (put c i m) name event
        ≡ (if str_eq c name then some (f name) else value_at m name event)
  unfolding value_at
  value_at-put f name c i event m at = elim (Bool-cases (str_eq c name)) [
    | inl same ↦
        ap (λ o. elim o as (λ _. Option V) [ none ↦ none | some j ↦ get_elem? event j ])
          (get-put name c i m)
        ∙ rw same (at ∙ ap (λ n. some (f n)) ((eq_iff c name).0 same))
    | inr other ↦
        ap (λ o. elim o as (λ _. Option V) [ none ↦ none | some j ↦ get_elem? event j ])
          (get-put name c i m)
        ∙ rw other refl
  ]

  abbrev pub given : (String → V) → String → List String → Option V → Option V
  given f name columns o = if contains name columns then some (f name) else o

  value_at-column_map :
      (f : String → V) (name : String) (event : List V) (i : ℕ) (cs : List String)
      (m : List (String × ℕ))
      → Follows f event i cs
      → value_at (column_map i cs m) name event ≡ given f name cs (value_at m name event)
  unfolding column_map
  value_at-column_map f name event i [] m h = refl
  value_at-column_map f name event i (c ∷ cs) m h =
      value_at-column_map f name event (suc i) cs (put c i m) (Follows-rest f event i c cs h)
      ∙ (ap (given f name cs) (value_at-put f name c i event m (Follows-first f event i c cs h))
          ∙ ground arith)

  abbrev pub given_row : List String → (String → V) → Row V
  given_row columns f =
      row_of (given f "user" columns none) (given f "time" columns none)
        (given f "type" columns none) (given f "message" columns none)

  unindexed : (name : String) (event : List V) → value_at [] name event ≡ none
  unfolding value_at get
  unindexed name event = refl

  value_at-given :
      (f : String → V) (name : String) (columns : List String)
      → value_at (column_map 0 columns []) name (map f columns) ≡ given f name columns none
  value_at-given f name columns =
      value_at-column_map f name (map f columns) 0 columns []
        (λ k. ap (get_elem? (map f columns)) (omega arith))
      ∙ ap (given f name columns) (unindexed name (map f columns))

  event_row-given :
      (columns : List String) (f : String → V)
      → event_row (column_map 0 columns []) (map f columns) ≡ given_row columns f
  unfolding event_row
  event_row-given columns f =
      let at = λ (name : String). value_at-given f name columns in
      rw (at "user", at "time", at "type", at "message") refl

  event_rows-given :
      (columns : List String) (fs : List (String → V))
      → map (event_row (column_map 0 columns [])) (map (λ f. map f columns) fs)
        ≡ map (given_row columns) fs
  event_rows-given columns [] = refl
  event_rows-given columns (f ∷ fs) =
      ap (◌∷ map (event_row (column_map 0 columns [])) (map (λ g. map g columns) fs))
        (event_row-given columns f)
      ∙ ap (given_row columns f ∷◌) (event_rows-given columns fs)

  -- Where the server lays out each event in the order of the columns that it names, the table shows each
  -- event with its own user, time, type and message, in the order of the events, whatever the order of
  -- the columns is; a value whose column is missing is undefined. An error keeps the table.
  pub handle_update-rows :
      (columns : List String) (fs : List (String → V)) (message : String) (p : Page V)
      → ((handle_update (log columns (map (λ f. map f columns) fs)) p).table
          ≡ map (given_row columns) fs)
        × ((handle_update (error message) p).table ≡ p.table)
  unfolding handle_update
  handle_update-rows columns fs message p = (event_rows-given columns fs, refl)
