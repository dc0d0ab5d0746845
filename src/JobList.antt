-- ===== src/JobList.antt =====
-- The list of a flow's jobs (src/web/js/azkaban.flow.job.view.js): the filter and the selection. A
-- text is the list of its code units, and a link's HTML is the text before the match, the match in
-- its span, and the text after it.
pub mod Marks
use mathlib.Core.Bool.{false≢true}
use azkaban.Prelude.{
  ℕ, ◌+◌, List, [], ◌∷◌, ◌++◌, map, Option, none, some, Bool, true, false, ◌≡◌, ◌⊎◌, refl, length,
  if◌then◌else◌, inl, inr, ◌&&◌, not, arith, sym, ◌∙◌, Bool-cases,
}
use azkaban.Texts.{
  Text, text_eq, is_empty, trim, index_of, substring, Occurs, index_of-some, index_of-none,
  substring-before, substring-match, substring-after,
}

pub data Link : Type 0 where
  plain : Text → Link
  marked : Text → Text → Text → Link

-- A list item: its link, and whether it is shown and has the class `selected`.
pub record Entry : Type 0 where
  pub job_id : Text
  pub link : Link
  pub visible : Bool
  pub is_selected : Bool

pub record JobList : Type 0 where
  pub filter : Option Text
  pub selected : Option Text
  pub entries : List Entry

-- `$(a).html(this.jobid); $(this).show()`
abbrev pub show_plain : Entry → Entry
show_plain e = record e { link = plain e.job_id; visible = true }

-- The body of the last loop of `filterJobs` for the index of the filter in the id. The link of an item
-- that is hidden stays.
show_match : Text → Option ℕ → Entry → Entry
show_match filter none e = record e { visible = false }
show_match filter (some index) e =
    let end_index = index + length filter in
    record e {
      link =
          marked (substring 0 index e.job_id) (substring index end_index e.job_id)
            (substring end_index (length e.job_id) e.job_id);
      visible = true;
    }

pub apply_filter : Text → Entry → Entry
unfolding show_match
apply_filter filter e = show_match filter (index_of filter e.job_id) e

-- `filterJobs`. The second test for an empty text never holds after the first one.
unfoldable pub filter_jobs : Text → JobList → JobList
unfolding apply_filter
filter_jobs value l =
    if is_empty (trim value)
    then record l {
      filter = none;
      entries = elim l.filter [ none ↦ l.entries | some _ ↦ map show_plain l.entries ];
    }
    else record l {
      filter = some (trim value);
      entries = map (apply_filter (trim value)) l.entries;
    }

-- `handleJobClick` on the selected job, with an id that is not empty
pub toggle_selected : Text → Option Text → Option Text
toggle_selected job_id none = some job_id
toggle_selected job_id (some selected) = if text_eq selected job_id then none else some job_id

abbrev set_selected : Option Text → Bool → List Entry → List Entry
set_selected none b es = es
set_selected (some id) b [] = []
set_selected (some id) b (e ∷ es) =
    (if text_eq id e.job_id && not (is_empty id) then record e { is_selected = b } else e)
    ∷ set_selected (some id) b es

-- `handleSelectionChange`
pub change_selection : Option Text → Option Text → List Entry → List Entry
change_selection previous current es = set_selected current true (set_selected previous false es)

-- `handleJobClick`, and the change that it triggers
pub click_job : Text → JobList → JobList
unfolding toggle_selected change_selection
click_job job_id l = if is_empty job_id then l else record l {
  selected = toggle_selected job_id l.selected;
  entries = change_selection l.selected (toggle_selected job_id l.selected) l.entries;
}

-- How an item is to be shown under a filter.
abbrev pub IsShownBy : Option Text → Entry → Type 0
IsShownBy none e = (e.visible ≡ true) × (e.link ≡ plain e.job_id)
IsShownBy (some f) e =
    ((e.visible ≡ false) × (Occurs f e.job_id → ⊥))
    ⊎ ((e.visible ≡ true)
        × (a : Text) × (b : Text) × (e.job_id ≡ a ++ (f ++ b))
        × (e.link ≡ marked a f b))

abbrev pub AllShownBy : Option Text → List Entry → Type 0
AllShownBy f [] = Unit {0}
AllShownBy f (e ∷ es) = IsShownBy f e × AllShownBy f es

-- The items that have the class `selected` are those of the selected job.
abbrev pub IsSelection : Option Text → List Entry → Type 0
IsSelection s [] = Unit {0}
IsSelection s (e ∷ es) =
    (e.is_selected ≡ elim s [ none ↦ false | some id ↦ text_eq id e.job_id && not (is_empty id) ])
    × IsSelection s es

link_eq :
    (id a f b : Text) (i : ℕ)
    → id ≡ a ++ (f ++ b)
    → length a ≡ i
    → marked
        (substring 0 i id)
        (substring i (i + length f) id)
        (substring (i + length f) (length id) id)
      ≡ marked a f b
link_eq id a f b i split at =
    rw (split, sym at)
      (rw (substring-before a (f ++ b), substring-match a f b, substring-after a f b) refl)

show_match-IsShownBy :
    (f : Text) (e : Entry) (o : Option ℕ)
    → index_of f e.job_id ≡ o
    → IsShownBy (some f) (show_match f o e)
unfolding show_match
show_match-IsShownBy f e none absent = inl (refl, index_of-none f e.job_id absent)
show_match-IsShownBy f e (some i) found =
    let (a, b, split, at) = index_of-some f e.job_id i found in
    inr (refl, a, b, split, link_eq e.job_id a f b i split at)

apply_filter-IsShownBy : (f : Text) (e : Entry) → IsShownBy (some f) (apply_filter f e)
unfolding apply_filter
apply_filter-IsShownBy f e = show_match-IsShownBy f e (index_of f e.job_id) refl

show_match-job_id : (f : Text) (o : Option ℕ) (e : Entry) → (show_match f o e).job_id ≡ e.job_id
unfolding show_match
show_match-job_id f none e = refl
show_match-job_id f (some i) e = refl

pub apply_filter-job_id : (f : Text) (e : Entry) → (apply_filter f e).job_id ≡ e.job_id
unfolding apply_filter
apply_filter-job_id f e = show_match-job_id f (index_of f e.job_id) e

map-apply_filter : (f : Text) (es : List Entry) → AllShownBy (some f) (map (apply_filter f) es)
map-apply_filter f [] = tt
map-apply_filter f (e ∷ es) = (apply_filter-IsShownBy f e, map-apply_filter f es)

map-show_plain : (es : List Entry) → AllShownBy none (map show_plain es)
map-show_plain [] = tt
map-show_plain (e ∷ es) = ((refl, refl), map-show_plain es)

clear-AllShownBy :
    (o : Option Text) (es : List Entry)
    → AllShownBy o es
    → AllShownBy none (elim o [ none ↦ es | some _ ↦ map show_plain es ])
clear-AllShownBy none es h = h
clear-AllShownBy (some f) es h = map-show_plain es

-- Where the items show the filter that was set before, they show after `filterJobs` the one that is
-- set then: an item is shown if and only if the filter occurs in its id, and its link is the id
-- divided at one place where the filter occurs; without a filter every item is shown with its id.
pub filter_jobs-AllShownBy :
    (value : Text) (l : JobList)
    → AllShownBy l.filter l.entries
    → AllShownBy (filter_jobs value l).filter (filter_jobs value l).entries
unfolding filter_jobs
filter_jobs-AllShownBy value l h = elim (Bool-cases (is_empty (trim value))) [
  | inl cleared ↦ rw cleared (clear-AllShownBy l.filter l.entries h)
  | inr other ↦ rw other (map-apply_filter (trim value) l.entries)
]

set_selected-false :
    (s : Option Text) (es : List Entry)
    → IsSelection s es
    → IsSelection none (set_selected s false es)
set_selected-false none es h = h
set_selected-false (some id) [] h = tt
set_selected-false (some id) (e ∷ es) (h, rest) =
    (ground (arith, h), set_selected-false (some id) es rest)

set_selected-true :
    (s : Option Text) (es : List Entry)
    → IsSelection none es
    → IsSelection s (set_selected s true es)
set_selected-true none es h = h
set_selected-true (some id) [] h = tt
set_selected-true (some id) (e ∷ es) (h, rest) =
    (ground (arith, h), set_selected-true (some id) es rest)

toggle_selected_lem :
    (job_id : Text) (o : Option Text)
    → toggle_selected job_id o
      ≡ elim o [ none ↦ some job_id | some s ↦ if text_eq s job_id then none else some job_id ]
unfolding toggle_selected
toggle_selected_lem job_id none = refl
toggle_selected_lem job_id (some s) = refl

-- A click on a job keeps the class `selected` at the items of the selected job, and at no others;
-- after a click on a job that has an id, the selected job is that one, or none if it was selected
-- before.
pub click_job-IsSelection :
    (job_id : Text) (l : JobList)
    → IsSelection l.selected l.entries
    → IsSelection (click_job job_id l).selected (click_job job_id l).entries
      × (is_empty job_id ≡ false
          → (click_job job_id l).selected ≡ elim l.selected [
            | none ↦ some job_id
            | some s ↦ if text_eq s job_id then none else some job_id
          ])
unfolding click_job toggle_selected change_selection
click_job-IsSelection job_id l h = elim (Bool-cases (is_empty job_id)) [
  | inl none_clicked ↦
      (rw none_clicked h, λ has_id. absurd (false≢true (sym has_id ∙ none_clicked)))
  | inr other ↦ (
    rw other (
        set_selected-true (toggle_selected job_id l.selected)
          (set_selected l.selected false l.entries) (set_selected-false l.selected l.entries h)),
    λ _. rw other (toggle_selected_lem job_id l.selected),
  )
]
