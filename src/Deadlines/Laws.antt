-- ===== src/Deadlines/Laws.antt =====
-- What is sent of the deadlines that were loaded (src/web/js/azkaban.scheduled.view.js).
use azkaban.Prelude.{ℕ, suc, ◌+◌, ◌*◌, ◌<◌, String, List, [], ◌∷◌, true, ◌≡◌, contains}
use azkaban.Deadlines.{Setting, Rule, hours_minutes, names_of, rule_box_options, has_action}

-- A setting names the flow or one of its jobs, and one of the two rules.
abbrev pub IsKnown : List String → Setting → Type 0
IsKnown all_job_names s =
    (contains s.id (names_of all_job_names) ≡ true) × (contains s.rule rule_box_options ≡ true)

abbrev pub AreKnown : List String → List Setting → Type 0
AreKnown all_job_names [] = Unit {0}
AreKnown all_job_names (s ∷ ss) = IsKnown all_job_names s × AreKnown all_job_names ss

-- A row says what a setting says: the same job or flow, rule and minutes, less than an hour of them
-- beside the hours, and the boxes are checked for the two actions.
pub record Shows (s : Setting) (r : Rule) : Type 0 where
  pub same_id : r.id ≡ s.id
  pub same_rule : r.rule ≡ s.rule
  pub minutes :
      (hours : ℕ) × (rest : ℕ) × (r.duration ≡ hours_minutes hours rest)
      × (hours * 60 + rest ≡ s.duration)
      × (rest < 60)
  pub same_email : r.email ≡ has_action "EMAIL" s.actions
  pub same_kill : r.kill ≡ has_action "KILL" s.actions

-- The sent rows, from a row number on, show the settings, the last one first, and then the other rows.
abbrev pub reverse_onto {ℓ} : {A : Type ℓ} → List A → List A → List A
reverse_onto [] ys = ys
reverse_onto (x ∷ xs) ys = reverse_onto xs (x ∷ ys)

abbrev pub AllShow : List Setting → ℕ → List (ℕ × Rule) → Type 0
AllShow [] row [] = Unit {0}
AllShow (s ∷ ss) row ((i, r) ∷ sent) = (i ≡ row) × Shows s r × AllShow ss (suc row) sent
AllShow _ row _ = ⊥

-- Rows that show settings, loaded or not, stand below those loaded later.
abbrev AllShown : List Setting → List Rule → Type 0
AllShown [] [] = Unit {0}
AllShown (s ∷ ss) (r ∷ rows) = Shows s r × AllShown ss rows
AllShown _ _ = ⊥
