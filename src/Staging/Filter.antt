-- ===== src/Staging/Filter.antt =====
-- The filter of the list of jobs on the staging page: `filterJobs` of `JobListView`
-- (src/web/js/azkaban.staging.flow.view.js), a copy of that of the flow page.
use azkaban.Prelude.{
  List, Option, ap, [], ◌∷◌, none, some, true, not, ◌≡◌, refl, ◌&&◌, map, if◌then◌else◌, arith, inl,
  inr, Bool-cases,
}
use azkaban.Texts.{Text, is_empty, trim, trim_start, trim_end}
use azkaban.JobList.{
  Entry, JobList, show_plain, apply_filter, apply_filter-job_id, filter_jobs, AllShownBy,
  filter_jobs-AllShownBy,
}

-- every item shown as it is, where a filter was set
abbrev pub clear_filter : JobList → JobList
clear_filter l = record l {
  filter = none;
  entries = elim l.filter [ none ↦ l.entries | some _ ↦ map show_plain l.entries ];
}

abbrev pub set_filter : Text → JobList → JobList
set_filter filter l = record l {
  filter = some filter;
  entries = map (apply_filter filter) l.entries;
}

-- `filterJobs` with both of its tests
unfoldable pub staging_filter_jobs : Text → JobList → JobList
staging_filter_jobs value l =
    if not (is_empty value) && not (is_empty (trim value))
    then (if is_empty (trim value) then clear_filter l else set_filter (trim value) l)
    else clear_filter l

trim_empty : (value : Text) → is_empty value ≡ true → is_empty (trim value) ≡ true
unfolding trim trim_start trim_end
trim_empty [] h = refl
trim_empty (c ∷ t) h = absurd (ground (arith, h))

staging_filter_jobs-same :
    (value : Text) (l : JobList) → staging_filter_jobs value l ≡ filter_jobs value l
unfolding staging_filter_jobs filter_jobs
staging_filter_jobs-same value l = elim (Bool-cases (is_empty value)) [
  | inl none_typed ↦ rw (none_typed, trim_empty value none_typed) refl
  | inr typed ↦ elim (Bool-cases (is_empty (trim value))) [
    | inl blank ↦ rw (typed, blank) refl
    | inr filter ↦ rw (typed, filter) refl
  ]
]

abbrev pub ids : List Entry → List Text
ids [] = []
ids (e ∷ es) = e.job_id ∷ ids es

ids-apply_filter : (f : Text) (es : List Entry) → ids (map (apply_filter f) es) ≡ ids es
ids-apply_filter f [] = refl
ids-apply_filter f (e ∷ es) =
    rw (apply_filter-job_id f e) (ap (e.job_id ∷◌) (ids-apply_filter f es))

ids-show_plain : (es : List Entry) → ids (map show_plain es) ≡ ids es
ids-show_plain [] = refl
ids-show_plain (e ∷ es) = ap (e.job_id ∷◌) (ids-show_plain es)

filter_jobs-ids :
    (value : Text) (l : JobList)
    → ((filter_jobs value l).filter ≡ (if is_empty (trim value) then none else some (trim value)))
      × (ids (filter_jobs value l).entries ≡ ids l.entries)
unfolding filter_jobs
filter_jobs-ids value l = elim (Bool-cases (is_empty (trim value))) [
  | inl cleared ↦ rw cleared (refl, cleared_ids l.filter)
  | inr typed ↦ rw typed (refl, ids-apply_filter (trim value) l.entries)
]
  where
    cleared_ids :
        (o : Option Text)
        → ids (elim o [ none ↦ l.entries | some _ ↦ map show_plain l.entries ]) ≡ ids l.entries
    cleared_ids none = refl
    cleared_ids (some _) = ids-show_plain l.entries

-- The filter of the staging page is the text typed, without the blanks around it, and none where nothing
-- is left of it; the items stay the same, in their order. Where they show the filter that was set before,
-- they show the new one: an item is shown if and only if the filter occurs in its id, with the id
-- divided at one such place; without a filter every item is shown with its id.
pub staging_filter_jobs-AllShownBy :
    (value : Text) (l : JobList)
    → AllShownBy l.filter l.entries
    → ((staging_filter_jobs value l).filter
        ≡ (if is_empty (trim value) then none else some (trim value)))
      × (ids (staging_filter_jobs value l).entries ≡ ids l.entries)
      × AllShownBy (staging_filter_jobs value l).filter (staging_filter_jobs value l).entries
staging_filter_jobs-AllShownBy value l h =
    let (set, kept) = filter_jobs-ids value l in
    rw (staging_filter_jobs-same value l) (set, kept, filter_jobs-AllShownBy value l h)
