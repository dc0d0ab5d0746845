-- ===== src/Execution/Rows/Laws.antt =====
-- How many rows a job has in the table (src/web/js/azkaban.exflow.view.js).
use azkaban.Prelude.{
  ℕ, zero, suc, ◌+◌, max, List, [], ◌∷◌, Bool, true, false, ◌≡◌, refl, ◌&&◌, any, length,
  if◌then◌else◌, ◌==◌, arith, ap, ◌∙◌, inl, inr, Bool-cases,
}
use mathlib.Core.Bool.{false≢true}
use azkaban.Prelude.Sort.{sort_by, any-sort_by, count, count-append}
use azkaban.Texts.{Text, text_eq, text_eq_iff}
use azkaban.Execution.Rows.{
  Node, Row, escape_id, new_row, add_node_row, fill_row, fill_rows, has_row, is_started, update_row,
  update_rows, starts_before, update_job_row,
}

abbrev pub count_rows : Text → List Row → ℕ
count_rows id = count (λ r. text_eq r.row_id id)

abbrev pub has_dot : Text → Bool
has_dot = any (λ c. c == 46)

-- Some node of the job has started.
abbrev pub any_started : Text → List Node → Bool
any_started id = any (λ n. is_started n && text_eq n.id id)

escape_id-no_dot : (t : Text) → has_dot t ≡ false → escape_id t ≡ t
unfolding escape_id
escape_id-no_dot [] h = refl
escape_id-no_dot (c ∷ t) h = ground (arith, h, escape_id-no_dot t)

length-escape_id : (t : Text) → has_dot t ≡ true → length (escape_id t) ≡ length t + 2
unfolding escape_id
length-escape_id [] h = absurd (false≢true h)
length-escape_id (c ∷ t) h = ground (arith, h, length-escape_id t)

count-fill_rows :
    (now : ℕ) (n : Node) (rows : List Row) (j : Text)
    → count_rows j (fill_rows now n rows) ≡ count_rows j rows
unfolding fill_row
count-fill_rows now n [] j = refl
count-fill_rows now n (r ∷ rows) j = ground (arith, count-fill_rows now n rows j)

count-has_row :
    (id : Text) (rows : List Row)
    → has_row id rows ≡ (if count_rows id rows == 0 then false else true)
count-has_row id [] = refl
count-has_row id (r ∷ rows) = ground (arith, count-has_row id rows)

count-add_node_row :
    (n : Node) (rows : List Row) (j : Text)
    → count_rows j (add_node_row n rows) ≡ count_rows j rows + (if text_eq n.id j then 1 else 0)
count-add_node_row n rows j =
    ground (arith, count-append (λ (r : Row). text_eq r.row_id j) rows (new_row n ∷ []))

-- One update of a job whose id has no dot: its row is found, or made where it is missing.
count-update_row :
    (now : ℕ) (n : Node) (rows : List Row) (j : Text)
    → has_dot n.id ≡ false
    → count_rows j (update_row now n rows)
      ≡ (if is_started n && text_eq n.id j then max 1 (count_rows j rows) else count_rows j rows)
unfolding update_row
count-update_row now n rows j plain = ground (
  arith,
  escape_id-no_dot n.id plain,
  count-fill_rows now n (if has_row (escape_id n.id) rows then rows else add_node_row n rows) j,
  count-add_node_row n rows j,
  count-has_row n.id rows,
  text_eq_iff n.id j,
)

count-update_rows :
    (now : ℕ) (ns : List Node) (rows : List Row) (j : Text)
    → any (λ n. has_dot n.id) ns ≡ false
    → count_rows j (update_rows now ns rows)
      ≡ (if any_started j ns then max 1 (count_rows j rows) else count_rows j rows)
unfolding update_rows
count-update_rows now [] rows j plain = refl
count-update_rows now (n ∷ ns) rows j plain = ground (
  arith,
  plain,
  count-update_row now n rows j,
  count-update_rows now ns (update_row now n rows) j,
)

-- Where no job has a dot in its id, an update of the table leaves a job that has rows with as many,
-- gives one row to a job that has started and had none, and no row to any other job.
pub count-update_job_row :
    (now : ℕ) (nodes : List Node) (rows : List Row) (j : Text)
    → any (λ n. has_dot n.id) nodes ≡ false
    → count_rows j (update_job_row now nodes rows)
      ≡ (if any_started j nodes then max 1 (count_rows j rows) else count_rows j rows)
unfolding update_job_row
count-update_job_row now nodes rows j plain =
    count-update_rows now (sort_by starts_before nodes) rows j
      (any-sort_by starts_before (λ n. has_dot n.id) nodes ∙ plain)
    ∙ ap (λ b. if b then max 1 (count_rows j rows) else count_rows j rows)
        (any-sort_by starts_before (λ n. is_started n && text_eq n.id j) nodes)

-- `rounds` updates of the table with the same nodes
abbrev pub update_times : ℕ → ℕ → List Node → List Row → List Row
update_times zero now nodes rows = rows
update_times (suc rounds) now nodes rows =
    update_times rounds now nodes (update_job_row now nodes rows)

not_escaped : (t : Text) → has_dot t ≡ true → text_eq t (escape_id t) ≡ false
not_escaped t dot = elim (Bool-cases (text_eq t (escape_id t))) [
  | inr other ↦ other
  | inl same ↦
      absurd
        (omega (arith, ap length ((text_eq_iff t (escape_id t)).0 same), length-escape_id t dot))
]

count-update_row_missed :
    (now : ℕ) (n : Node) (rows : List Row) (j : Text)
    → is_started n ≡ true
    → has_row (escape_id n.id) rows ≡ false
    → count_rows j (update_row now n rows) ≡ count_rows j rows + (if text_eq n.id j then 1 else 0)
unfolding update_row
count-update_row_missed now n rows j started absent = ground (
  arith,
  started,
  absent,
  count-fill_rows now n (add_node_row n rows) j,
  count-add_node_row n rows j,
)

-- The row of a job with a dot in its id is never found: where no row has the id with the backslashes,
-- each update with the job, once it has started, adds one more row for it.
pub count-update_times :
    (rounds now : ℕ) (n : Node) (rows : List Row)
    → has_dot n.id ≡ true
    → is_started n ≡ true
    → has_row (escape_id n.id) rows ≡ false
    → count_rows n.id (update_times rounds now (n ∷ []) rows) ≡ count_rows n.id rows + rounds
unfolding update_job_row update_rows update_row
count-update_times zero now n rows dot started absent = omega arith
count-update_times (suc rounds) now n rows dot started absent =
    let again : has_row (escape_id n.id) (update_row now n rows) ≡ false = ground (
      arith,
      absent,
      count-has_row (escape_id n.id) rows,
      count-has_row (escape_id n.id) (update_row now n rows),
      count-update_row_missed now n rows (escape_id n.id) started absent,
      not_escaped n.id dot,
    ) in
    ground (
      arith,
      count-update_times rounds now n (update_row now n rows) dot started again,
      count-update_row_missed now n rows n.id started absent,
      (text_eq_iff n.id n.id).1 refl,
    )
