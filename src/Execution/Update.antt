-- ===== src/Execution/Update.antt =====
-- Merging an update into the nodes of the page (`updateStatus`, src/web/js/azkaban.exflow.view.js).
-- A time of -1, not yet known, is `none`.
use mathlib.Core.Path.{subst}
use azkaban.Prelude.{
  ◌&&◌, Bool-cases, Bool, true, false, ℕ, String, List, [], ◌∷◌, Option, none, some, ◌≡◌, ◌⊎◌, refl,
  sym, ◌∙◌, arith, str_eq, eq_iff, ltb, if◌then◌else◌, Option-cases, inl, inr,
}
use azkaban.Prelude.Dict.{get, put, get-put}
use azkaban.Flow.Graph.{Outcome, ok, type_error}
use azkaban.Execution.Status.{Status}

pub record ExecNode : Type 0 where
  pub id : String
  pub start_time : Option ℕ
  pub update_time : Option ℕ
  pub end_time : Option ℕ
  pub status : Status
  pub attempt : ℕ
  pub past_attempts : List Status

abbrev pub ExecNodes : Type 0
ExecNodes = List (String × ExecNode)

-- what an update changes of a node: the attempts of the past only where there are some
unfoldable pub merge_node : ExecNode → ExecNode → ExecNode
merge_node node old = record old {
  start_time = node.start_time;
  update_time = node.update_time;
  end_time = node.end_time;
  status = node.status;
  attempt = node.attempt;
  past_attempts = if ltb 0 node.attempt then node.past_attempts else old.past_attempts;
}

-- The loop over `data.nodes`; a node that the page does not know raises a TypeError.
pub update_nodes : List ExecNode → ExecNodes → Outcome ExecNodes
update_nodes [] m = ok m
update_nodes (node ∷ rest) m = elim (get node.id m) [
  | none ↦ type_error m
  | some old ↦ update_nodes rest (put node.id (merge_node node old) m)
]

-- The last update of those for `j` that satisfy a test.
abbrev pub last_of : (ExecNode → Bool) → String → List ExecNode → Option ExecNode
last_of test j [] = none
last_of test j (node ∷ rest) = elim (last_of test j rest) [
  | some u ↦ some u
  | none ↦ if str_eq node.id j && test node then some node else none
]

abbrev pub field_of {ℓ} : {A : Type ℓ} → (ExecNode → A) → Option ExecNode → A → A
field_of f none old = old
field_of f (some u) old = f u

-- A node of the page after the updates: what it shows is that of the last update for it, but its attempts
-- of the past are those of the last one with an attempt above 0; its name is kept.
abbrev pub IsUpdated : List ExecNode → String → ExecNode → ExecNode → Type 0
IsUpdated us j old new =
    let last = last_of (λ _. true) j us in
    (new.id ≡ old.id)
    × (new.start_time ≡ field_of (λ u. u.start_time) last old.start_time)
    × (new.update_time ≡ field_of (λ u. u.update_time) last old.update_time)
    × (new.end_time ≡ field_of (λ u. u.end_time) last old.end_time)
    × (new.status ≡ field_of (λ u. u.status) last old.status)
    × (new.attempt ≡ field_of (λ u. u.attempt) last old.attempt)
    × (new.past_attempts
        ≡ field_of (λ u. u.past_attempts) (last_of (λ u. ltb 0 u.attempt) j us) old.past_attempts)

-- the updates for one node, merged in turn
merge_all : List ExecNode → String → ExecNode → ExecNode
merge_all [] j old = old
merge_all (node ∷ rest) j old =
    merge_all rest j (if str_eq node.id j then merge_node node old else old)

module _ {A : Type 0} (f : ExecNode → A) (test : ExecNode → Bool) (u : ExecNode) where
  field_of-cons :
      (us : List ExecNode) (j : String) (d : A)
      → field_of f (last_of test j (u ∷ us)) d
        ≡ field_of f (last_of test j us) (if str_eq u.id j && test u then f u else d)
  field_of-cons us j d = elim (Option-cases (last_of test j us)) [
    | inl nothing ↦ rw nothing (elim (Bool-cases (str_eq u.id j && test u)) [
      | inl here ↦ rw here refl
      | inr other ↦ rw other refl
    ])
    | inr (v, later) ↦ rw later refl
  ]

merge_all-same :
    (u : ExecNode) (us : List ExecNode) (j : String) (old : ExecNode)
    → str_eq u.id j ≡ true
    → merge_all (u ∷ us) j old ≡ merge_all us j (merge_node u old)
unfolding merge_all
merge_all-same u us j old same = rw (same, merge_all) refl

merge_all-other :
    (u : ExecNode) (us : List ExecNode) (j : String) (old : ExecNode)
    → str_eq u.id j ≡ false
    → merge_all (u ∷ us) j old ≡ merge_all us j old
unfolding merge_all
merge_all-other u us j old other = rw (other, merge_all) refl

merge_all-IsUpdated :
    (us : List ExecNode) (j : String) (old : ExecNode) → IsUpdated us j old (merge_all us j old)
unfolding merge_all merge_node
merge_all-IsUpdated [] j old = (refl, refl, refl, refl, refl, refl, refl)
merge_all-IsUpdated (u ∷ us) j old =
    let is_any : ExecNode → Bool = λ _. true in
    let retried : ExecNode → Bool = λ v. ltb 0 v.attempt in
    elim (Bool-cases (str_eq u.id j)) [
      | inl same ↦
          let (i, s, p, e, t, a, q) = merge_all-IsUpdated us j (merge_node u old) in
          subst (IsUpdated (u ∷ us) j old) (sym (merge_all-same u us j old same)) (
            i,
            s ∙ sym (field_of-cons (λ v. v.start_time) is_any u us j old.start_time ∙ rw same refl),
            p
                ∙ sym (
                    field_of-cons (λ v. v.update_time) is_any u us j old.update_time
                    ∙ rw same refl),
            e ∙ sym (field_of-cons (λ v. v.end_time) is_any u us j old.end_time ∙ rw same refl),
            t ∙ sym (field_of-cons (λ v. v.status) is_any u us j old.status ∙ rw same refl),
            a ∙ sym (field_of-cons (λ v. v.attempt) is_any u us j old.attempt ∙ rw same refl),
            q
                ∙ sym (
                    field_of-cons (λ v. v.past_attempts) retried u us j old.past_attempts
                    ∙ rw same refl),
          )
      | inr other ↦
          let (i, s, p, e, t, a, q) = merge_all-IsUpdated us j old in
          subst (IsUpdated (u ∷ us) j old) (sym (merge_all-other u us j old other)) (
            i,
            s
                ∙ sym (
                    field_of-cons (λ v. v.start_time) is_any u us j old.start_time ∙ rw other refl),
            p
                ∙ sym (
                    field_of-cons (λ v. v.update_time) is_any u us j old.update_time
                    ∙ rw other refl),
            e ∙ sym (field_of-cons (λ v. v.end_time) is_any u us j old.end_time ∙ rw other refl),
            t ∙ sym (field_of-cons (λ v. v.status) is_any u us j old.status ∙ rw other refl),
            a ∙ sym (field_of-cons (λ v. v.attempt) is_any u us j old.attempt ∙ rw other refl),
            q
                ∙ sym (
                    field_of-cons (λ v. v.past_attempts) retried u us j old.past_attempts
                    ∙ rw other refl),
          )
    ]

abbrev AreKnown : List ExecNode → ExecNodes → Type 0
AreKnown [] m = Unit {0}
AreKnown (node ∷ rest) m = ((old : ExecNode) × (get node.id m ≡ some old)) × AreKnown rest m

AreKnown-put :
    (us : List ExecNode) (m : ExecNodes) (k : String) (n : ExecNode)
    → AreKnown us m
    → AreKnown us (put k n m)
AreKnown-put [] m k n h = tt
AreKnown-put (u ∷ us) m k n ((old, e), rest) =
    (found (Option-cases (get u.id (put k n m))), AreKnown-put us m k n rest)
  where
    found :
        (get u.id (put k n m) ≡ none) ⊎ ((o : ExecNode) × (get u.id (put k n m) ≡ some o))
        → (o : ExecNode) × (get u.id (put k n m) ≡ some o)
    found (inr h) = h
    found (inl h) = absurd (clash h)
      where
        clash : get u.id (put k n m) ≡ none → ⊥
        clash h = ground (arith, h, e, get-put u.id k n m)

update_nodes-merge_all :
    (us : List ExecNode) (m : ExecNodes)
    → AreKnown us m
    → (m' : ExecNodes) × (update_nodes us m ≡ ok m')
      × ((j : String)
          → get j m' ≡ elim (get j m) [ none ↦ none | some old ↦ some (merge_all us j old) ])
unfolding update_nodes merge_all
update_nodes-merge_all [] m known = (m, refl, λ j. ground arith)
update_nodes-merge_all (u ∷ us) m ((old, e), rest) =
    let (m', done, holds) =
      update_nodes-merge_all us (put u.id (merge_node u old) m)
        (AreKnown-put us m u.id (merge_node u old) rest) in
    (
      m',
      rw (e, update_nodes) done,
      λ j. ground (arith, holds j, e, get-put j u.id (merge_node u old) m, eq_iff u.id j),
    )

-- When every node of an update is known, the merge ends without an error, and no node of the page is added
-- or lost. A node then shows the times, the status and the attempt of the last update for it, and the past
-- attempts of the last of those with an attempt above 0; what it has no such update for is as it was.
pub update_nodes-merged :
    (us : List ExecNode) (m : ExecNodes)
    → AreKnown us m
    → (m' : ExecNodes) × (update_nodes us m ≡ ok m')
      × ((j : String) → get j m ≡ none → get j m' ≡ none)
      × ((j : String) (old : ExecNode)
          → get j m ≡ some old
          → (new : ExecNode) × (get j m' ≡ some new) × IsUpdated us j old new)
update_nodes-merged us m known =
    let (m', done, holds) = update_nodes-merge_all us m known in
    (
      m',
      done,
      λ j e. ground (arith, holds j, e),
      λ j old e. (merge_all us j old, ground (arith, holds j, e), merge_all-IsUpdated us j old),
    )
