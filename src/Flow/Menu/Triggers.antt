-- ===== src/Flow/Menu/Triggers.antt =====
-- Which actions of the staging page's menu (src/web/js/azkaban.staging.flow.view.js) trigger a change.
use azkaban.Prelude.{
  ◌<◌, [], ◌∷◌, suc, ℕ, String, Option, none, some, true, false, ◌≡◌, ◌⊎◌, inl, inr, ap, arith,
}
use azkaban.Prelude.Dict.{get}
use azkaban.Flow.Graph.{JobNode, keys_of, Outcome, ok, type_error, stack_overflow}
use azkaban.Flow.Disable.{Flags, GraphModel, set_disabled, finish, mark_all}
use azkaban.Flow.Menu.{
  Action, open_job, open_window, disable, disable_all, disable_parents, disable_children,
  disable_ancestors, disable_descendents, enable, enable_all, enable_parents, enable_children,
  enable_ancestors, enable_descendents, staging_menu_click, staging_recurse_all, delete_all,
}

-- An action that ends without an error either opened a page or triggered a change.
abbrev pub Triggers : GraphModel → GraphModel → Type 0
Triggers g g' = (g' ≡ g) ⊎ (g.changes < g'.changes)

pub ok_injective {ℓ} : {S : Type ℓ} {a b : S} → ok a ≡ ok b → b ≡ a
ok_injective e = cc

set-Triggers : (g g' : GraphModel) {m : Flags} → ok (set_disabled g m) ≡ ok g' → Triggers g g'
set-Triggers g g' e = inr (omega (arith, ap (λ (x : GraphModel). x.changes) (ok_injective e)))

clear-Triggers :
    (g g' : GraphModel) (m : Flags)
    → g' ≡ record g {
      disabled = [];
      changes = elim m [ [] ↦ suc g.changes | _ ∷ _ ↦ suc (suc g.changes) ];
    }
    → Triggers g g'
clear-Triggers g g' [] e = inr (omega (arith, ap (λ (x : GraphModel). x.changes) e))
clear-Triggers g g' (_ ∷ _) e = inr (omega (arith, ap (λ (x : GraphModel). x.changes) e))

finish-Triggers : (g g' : GraphModel) (o : Outcome Flags) → finish g o ≡ ok g' → Triggers g g'
finish-Triggers g g' (ok m) e = set-Triggers g g' e
finish-Triggers g g' (type_error m) e = absurd (ground (arith, e))
finish-Triggers g g' (stack_overflow m) e = absurd (ground (arith, e))

linked-Triggers :
    (g g' : GraphModel) (o : Option JobNode) (f : JobNode → Flags)
    → elim o as (λ _. Outcome GraphModel) [
      | none ↦ type_error g
      | some n ↦ ok (set_disabled g (f n))
    ]
      ≡ ok g'
    → Triggers g g'
linked-Triggers g g' none f e = absurd (ground (arith, e))
linked-Triggers g g' (some n) f e = set-Triggers g g' e

pub staging_menu_click-Triggers :
    (fuel : ℕ) (action : Action) (id : String) (g g' : GraphModel)
    → staging_menu_click fuel action id g ≡ ok g'
    → Triggers g g'
unfolding staging_menu_click
staging_menu_click-Triggers fuel open_job id g g' e = inl (ok_injective e)
staging_menu_click-Triggers fuel open_window id g g' e = inl (ok_injective e)
staging_menu_click-Triggers fuel disable id g g' e = set-Triggers g g' e
staging_menu_click-Triggers fuel disable_all id g g' e = set-Triggers g g' e
staging_menu_click-Triggers fuel disable_parents id g g' e =
    linked-Triggers g g' (get id g.nodes) (λ n. mark_all true (keys_of n.in_nodes) g.disabled) e
staging_menu_click-Triggers fuel disable_children id g g' e =
    linked-Triggers g g' (get id g.nodes) (λ n. mark_all true (keys_of n.out_nodes) g.disabled) e
staging_menu_click-Triggers fuel disable_ancestors id g g' e =
    finish-Triggers g g' (staging_recurse_all (λ n. n.in_nodes) g.nodes true fuel id g.disabled) e
staging_menu_click-Triggers fuel disable_descendents id g g' e =
    finish-Triggers g g' (staging_recurse_all (λ n. n.out_nodes) g.nodes true fuel id g.disabled) e
staging_menu_click-Triggers fuel enable id g g' e = set-Triggers g g' e
staging_menu_click-Triggers fuel enable_all id g g' e =
    clear-Triggers g g' g.disabled (ok_injective e)
staging_menu_click-Triggers fuel enable_parents id g g' e =
    linked-Triggers g g' (get id g.nodes) (λ n. delete_all (keys_of n.in_nodes) g.disabled) e
staging_menu_click-Triggers fuel enable_children id g g' e =
    linked-Triggers g g' (get id g.nodes) (λ n. delete_all (keys_of n.out_nodes) g.disabled) e
staging_menu_click-Triggers fuel enable_ancestors id g g' e =
    finish-Triggers g g' (staging_recurse_all (λ n. n.in_nodes) g.nodes false fuel id g.disabled) e
staging_menu_click-Triggers fuel enable_descendents id g g' e =
    finish-Triggers g g' (staging_recurse_all (λ n. n.out_nodes) g.nodes false fuel id g.disabled) e
