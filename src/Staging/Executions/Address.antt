-- ===== src/Staging/Executions/Address.antt =====
-- Opening the staging page at the address of a link of its pagination
-- (src/web/js/azkaban.staging.flow.view.js): the link to a page is "#page" and its number.
use azkaban.Prelude.{
  ℕ, [], ◌∷◌, ◌++◌, none, true, false, ◌≡◌, refl, ◌∙◌, ap, ◌==◌, length, if◌then◌else◌, inl, inr,
  Bool-cases, arith,
}
use azkaban.Prelude.Int.{pos}
use azkaban.Texts.{Text, substring, substring-match, substring-after}
use azkaban.Texts.Numbers.{decimal, parse_int, parse_int-decimal}
use azkaban.Staging.Executions.{
  number, parsed, Page, handle_page_change, handle_change_view, handle_execution_link_click,
  set_page, page_hash, open_hash, made,
}

-- `"#page" + page`
unfoldable pub link_to : ℕ → Text
link_to page = page_hash ++ decimal page

module _ {R : Type 0} where
  open_page_hash :
      (t : Text) (p : Page R)
      → open_hash (page_hash ++ t) p
        ≡ set_page (parsed (parse_int t)) (handle_execution_link_click p)
  unfolding open_hash
  open_page_hash t p =
      let start : substring 0 5 (page_hash ++ t) ≡ page_hash = substring-match [] page_hash t in
      let rest : substring 5 (length (page_hash ++ t)) (page_hash ++ t) ≡ t =
        substring-after [] page_hash t in
      rw (start, rest) refl

  -- the executions at a page, after the requests of the first page and of that one
  abbrev pub at_page : ℕ → Page R
  at_page n = record {
    tabs = record {
      graph_selected = false;
      executions_selected = true;
      graph_visible = false;
      executions_visible = true;
    };
    page = number (pos n);
    init = true;
    requests = if 1 == n then number (pos 1) ∷ [] else number (pos 1) ∷ number (pos n) ∷ [];
    rows = none;
  }

  set_page-at_page :
      (n : ℕ) → set_page (number (pos n)) (handle_execution_link_click made) ≡ at_page n
  unfolding set_page handle_execution_link_click handle_change_view handle_page_change
  set_page-at_page n = elim (Bool-cases (1 == n)) [
    | inl same ↦
        let one : 1 ≡ n = ground (arith, same) in
        rw same (ap (λ m. record (at_page 1) { page = number (pos m) }) one)
    | inr other ↦ rw other refl
  ]

  -- At the address of the link to a page, the page opens with the executions and asks for those of the
  -- first page and, for another page, then of that one; the page that is set is the link's.
  pub open_hash-link_to : (n : ℕ) → open_hash (link_to n) made ≡ at_page n
  unfolding link_to
  open_hash-link_to n =
      open_page_hash (decimal n) made
      ∙ (ap (λ o. set_page (parsed o) (handle_execution_link_click made)) (parse_int-decimal n)
          ∙ set_page-at_page n)
