-- ===== src/Flow/Disable/Recurse.antt =====
-- The recursion over a graph without cycles gives the flag to every job that it can reach, and to
-- no other.
use azkaban.Prelude.{
  ℕ, zero, suc, ◌<◌, String, List, [], ◌∷◌, Option, some, Bool, true, ◌≡◌, refl, ◌∙◌, ◌⊎◌, inl, inr,
  ◌||◌, contains, arith, str_eq, eq_iff, Bool-cases,
}
use mathlib.Core.Path.{subst}
use azkaban.Prelude.Dict.{get, put, get-put}
use azkaban.Flow.Graph.{JobNode, NodeMap, keys_of, Outcome, ok}
use azkaban.Flow.Disable.{Flags, walk, recurse_all}

-- `m'` is `m` with the flag `d` given to the jobs in `S`.
pub record Marked (S : String → Type 0) (d : Bool) (m m' : Flags) : Type 0 where
  pub all_of : (j : String) → S j → get j m' ≡ some d
  pub none_else : (j : String) → (get j m' ≡ get j m) ⊎ ((get j m' ≡ some d) × S j)

Marked-put : (k : String) (d : Bool) (m : Flags) → Marked (λ j. k ≡ j) d m (put k d m)
Marked-put k d m = record {
  all_of = λ j e. ground (arith, get-put j k d m, eq_iff k j);
  none_else = λ j. elim (Bool-cases (str_eq k j)) [
    | inl same ↦ inr (ground (arith, get-put j k d m, same), (eq_iff k j).0 same)
    | inr other ↦ inl (ground (arith, get-put j k d m, other))
  ];
}

module _ {S T : String → Type 0} {d : Bool} {m m1 m2 : Flags} where
  pub Marked-trans : Marked S d m m1 → Marked T d m1 m2 → Marked (λ j. S j ⊎ T j) d m m2
  Marked-trans a b = record {
    all_of = λ j s. elim s [
      | inr t ↦ b.all_of j t
      | inl u ↦ elim (b.none_else j) [ inl e ↦ e ∙ a.all_of j u | inr (e, t) ↦ e ]
    ];
    none_else = λ j. elim (b.none_else j) [
      | inr (e, t) ↦ inr (e, inr t)
      | inl e ↦ elim (a.none_else j) [ inl e' ↦ inl (e ∙ e') | inr (e', s) ↦ inr (e ∙ e', inl s) ]
    ];
  }

module _ {S T : String → Type 0} {d : Bool} {m m1 : Flags} where
  pub Marked-map :
      ((j : String) → S j → T j) → ((j : String) → T j → S j) → Marked S d m m1 → Marked T d m m1
  Marked-map f g a = record {
    all_of = λ j t. a.all_of j (g j t);
    none_else = λ j. elim (a.none_else j) [ inl e ↦ inl e | inr (e, s) ↦ inr (e, f j s) ];
  }

or_true : (b : Bool) → (b || true) ≡ true
or_true b = ground arith

-- A walk along one or more links.
pub data Reaches (next : JobNode → Option (List String)) (nodes : NodeMap)
    : String → String → Type 0 where
  link :
      {id k : String} (n : JobNode)
      → get id nodes ≡ some n
      → contains k (keys_of (next n)) ≡ true
      → Reaches next nodes id k
  further :
      {id k j : String} (n : JobNode)
      → get id nodes ≡ some n
      → contains k (keys_of (next n)) ≡ true
      → Reaches next nodes k j
      → Reaches next nodes id j

-- Every link leads to a node, and to a lower rank, so the graph has no cycle.
pub record IsRanked (next : JobNode → Option (List String)) (nodes : NodeMap) (rank : String → ℕ)
    : Type 0 where
  pub falls :
      (id k : String) (n : JobNode)
      → get id nodes ≡ some n
      → contains k (keys_of (next n)) ≡ true
      → rank k < rank id
  pub leads :
      (id k : String) (n : JobNode)
      → get id nodes ≡ some n
      → contains k (keys_of (next n)) ≡ true
      → (n' : JobNode) × (get k nodes ≡ some n')

module _ (next : JobNode → Option (List String)) (nodes : NodeMap) (d : Bool)
    (rank : String → ℕ) where
  -- what one call is to do
  abbrev Visits : (String → Flags → Outcome Flags) → String → Type 0
  Visits rec id =
      (m : Flags) → (m' : Flags) × (rec id m ≡ ok m') × Marked (Reaches next nodes id) d m m'

  -- a job of the list, or one that is reached from such
  abbrev From : List String → String → Type 0
  From ks j = (k : String) × (contains k ks ≡ true) × ((k ≡ j) ⊎ Reaches next nodes k j)

  From-cons :
      (k : String) (ks : List String) (j : String)
      → ((k ≡ j) ⊎ Reaches next nodes k j) ⊎ From ks j
      → From (k ∷ ks) j
  From-cons k ks j (inl h) = (k, rw ((eq_iff k k).1 refl) refl, h)
  From-cons k ks j (inr (i, c, h)) = (i, rw c (or_true (str_eq k i)), h)

  From-uncons :
      (k : String) (ks : List String) (j : String)
      → From (k ∷ ks) j
      → ((k ≡ j) ⊎ Reaches next nodes k j) ⊎ From ks j
  From-uncons k ks j (i, c, h) = elim (Bool-cases (str_eq k i)) [
    | inl same ↦ inl (rw ((eq_iff k i).0 same) h)
    | inr other ↦ inr (i, rw other at c, h)
  ]

  walk-Marked :
      (rec : String → Flags → Outcome Flags) (ks : List String)
      → ((k : String) → contains k ks ≡ true → Visits rec k)
      → (m : Flags) → (m' : Flags) × (walk rec d ks m ≡ ok m') × Marked (From ks) d m m'
  unfolding walk
  walk-Marked rec [] each m =
      (m, refl, record { all_of = λ j s. cc (s.1); none_else = λ j. inl refl })
  walk-Marked rec (k ∷ ks) each m =
      let (m1, e1, first) = each k (rw ((eq_iff k k).1 refl) refl) (put k d m) in
      let (m2, e2, rest) = walk-Marked rec ks (λ i c. each i (rw c (or_true (str_eq k i)))) m1 in
      (
        m2,
        rw e1 e2,
        Marked-map (From-cons k ks) (From-uncons k ks)
            (Marked-trans (Marked-trans (Marked-put k d m) first) rest),
      )

  From-Reaches :
      (id : String) (n : JobNode)
      → get id nodes ≡ some n
      → (j : String) → From (keys_of (next n)) j
      → Reaches next nodes id j
  From-Reaches id n e j (k, c, inl same) = rw (← same) (link n e c)
  From-Reaches id n e j (k, c, inr r) = further n e c r

  Reaches-From :
      {id j : String} {n : JobNode}
      → get id nodes ≡ some n
      → Reaches next nodes id j
      → From (keys_of (next n)) j
  Reaches-From {n = n} e (link {id} {k} n' e' c) =
      (k, subst (λ x. contains k (keys_of (next x)) ≡ true) (cc) c, inl refl)
  Reaches-From {n = n} e (further {id} {k} n' e' c r) =
      (k, subst (λ x. contains k (keys_of (next x)) ≡ true) (cc) c, inr r)

  pub recurse_all-Marked :
      (fuel : ℕ) (id : String) (n : JobNode)
      → IsRanked next nodes rank
      → rank id < fuel
      → get id nodes ≡ some n
      → (m : Flags)
      → (m' : Flags) × (recurse_all next nodes d fuel id m ≡ ok m')
        × Marked (Reaches next nodes id) d m m'
  unfolding recurse_all
  recurse_all-Marked zero id n ranked h e m = absurd (omega arith)
  recurse_all-Marked (suc fuel) id n ranked h e m =
      let (m', e', marked) =
        walk-Marked (recurse_all next nodes d fuel) (keys_of (next n))
          (λ k c.
            let (n', found) = ranked.leads id k n e c in
            recurse_all-Marked fuel k n' ranked (omega (arith, ranked.falls id k n e c)) found)
          m in
      (
        m',
        rw (e, recurse_all) e',
        Marked-map (λ j f. From-Reaches id n e j f) (λ j r. Reaches-From e r) marked,
      )
