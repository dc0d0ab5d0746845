-- ===== src/Folding.antt =====
-- Rows that unfold to what is fetched for them at the first click, as in the lists of projects and of flows
-- (src/web/js/azkaban.main.view.js, src/web/js/azkaban.project.view.js): what follows from how the handlers
-- of clicks and of answers act on the row as it is at first, as it waits, and as it has its content.
use mathlib.Core.Path.{subst}
use azkaban.Prelude.{ℕ, suc, Bool, true, false, not, ◌≡◌, refl, ap, sym, ◌∙◌, arith}

module _ {R : Type 0} (click : Bool → R → R) (settle : ℕ → R → R) (requests : R → ℕ) where
  -- A click, at the text of the row or beside it, or the answer to a request that is under way.
  pub data Step : R → R → Type 0 where
    click_row : (is_span : Bool) (p : R) → Step p (click is_span p)
    answered : (p : R) (n : ℕ) → requests p ≡ suc n → Step p (settle n p)

  pub data Reach (p : R) : R → Type 0 where
    here : Reach p p
    next : {q r : R} → Reach p q → Step q r → Reach p r

  -- The row is as it was, or waits for its one request, or has its content, which is shown or not.
  pub data Phase : Type 0 where
    is_fresh is_waiting : Phase
    has_content : (shown : Bool) → Phase

  abbrev pub row_of : R → R → (Bool → R) → Phase → R
  row_of fresh waiting unfolded is_fresh = fresh
  row_of fresh waiting unfolded is_waiting = waiting
  row_of fresh waiting unfolded (has_content shown) = unfolded shown

  -- How the handlers act in the three phases.
  pub record Laws (fresh waiting : R) (unfolded : Bool → R) : Type 0 where
    pub click_fresh : click true fresh ≡ waiting
    pub click_waiting : click true waiting ≡ waiting
    pub click_unfolded : (shown : Bool) → click true (unfolded shown) ≡ unfolded (not shown)
    pub miss : (p : R) → click false p ≡ p
    pub none_asked : requests fresh ≡ 0
    pub one_asked : requests waiting ≡ 1
    pub none_left : (shown : Bool) → requests (unfolded shown) ≡ 0
    pub settle_waiting : settle 0 waiting ≡ unfolded true

  module _ (fresh waiting : R) (unfolded : Bool → R) (laws : Laws fresh waiting unfolded) where
    abbrev IsPhase : R → Type 0
    IsPhase p = (ph : Phase) × (p ≡ row_of fresh waiting unfolded ph)

    click-IsPhase : (ph : Phase) → IsPhase (click true (row_of fresh waiting unfolded ph))
    click-IsPhase is_fresh = (is_waiting, laws.click_fresh)
    click-IsPhase is_waiting = (is_waiting, laws.click_waiting)
    click-IsPhase (has_content shown) = (has_content (not shown), laws.click_unfolded shown)

    settle-IsPhase :
        (n : ℕ) (ph : Phase)
        → requests (row_of fresh waiting unfolded ph) ≡ suc n
        → IsPhase (settle n (row_of fresh waiting unfolded ph))
    settle-IsPhase n is_fresh h = absurd (omega (arith, h, laws.none_asked))
    settle-IsPhase n is_waiting h =
        let last : n ≡ 0 = omega (arith, h, laws.one_asked) in
        (has_content true, ap (λ k. settle k waiting) last ∙ laws.settle_waiting)
    settle-IsPhase n (has_content shown) h = absurd (omega (arith, h, laws.none_left shown))

    Step-IsPhase : {p q : R} → Step p q → IsPhase p → IsPhase q
    Step-IsPhase (click_row true p) (ph, e) =
        subst (λ r. IsPhase (click true r)) (sym e) (click-IsPhase ph)
    Step-IsPhase (click_row false p) (ph, e) = (ph, laws.miss p ∙ e)
    Step-IsPhase (answered p n h) (ph, e) =
        subst (λ r. IsPhase (settle n r)) (sym e) (settle-IsPhase n ph (ap requests (sym e) ∙ h))

    -- Every row that clicks and answers lead to is in a phase.
    pub Reach-row_of :
        (p : R) → Reach fresh p → (ph : Phase) × (p ≡ row_of fresh waiting unfolded ph)
    Reach-row_of p here = (is_fresh, refl)
    Reach-row_of p (next {q} r st) = Step-IsPhase st (Reach-row_of q r)

    stepped : {p q r : R} → Reach p q → (s : R) → Step q s → s ≡ r → Reach p r
    stepped {p} reached s st e = subst (λ x. Reach p x) e (next reached st)

    unfold_waiting : Reach waiting (unfolded true)
    unfold_waiting =
        stepped here (settle 0 waiting) (answered waiting 0 laws.one_asked) laws.settle_waiting

    unfold_from : (ph : Phase) → Reach (row_of fresh waiting unfolded ph) (unfolded true)
    unfold_from is_fresh =
        let asked = stepped here (click true fresh) (click_row true fresh) laws.click_fresh in
        stepped asked (settle 0 waiting) (answered waiting 0 laws.one_asked) laws.settle_waiting
    unfold_from is_waiting = unfold_waiting
    unfold_from (has_content true) = here
    unfold_from (has_content false) =
        stepped here (click true (unfolded false)) (click_row true (unfolded false))
          (laws.click_unfolded false)

    -- Every row that clicks and answers lead to can be unfolded by clicks and answers.
    pub Reach-unfolded : (p : R) → Reach fresh p → Reach p (unfolded true)
    Reach-unfolded p r =
        let (ph, e) = Reach-row_of p r in
        subst (λ q. Reach q (unfolded true)) (sym e) (unfold_from ph)
