-- ===== src/Staging/Executions/Order.antt =====
-- Which executions the staging page shows, as answers come in order and out of order
-- (src/web/js/azkaban.staging.flow.view.js).
use mathlib.Core.Path.{subst}
use azkaban.Prelude.{
  Bool, ℕ, ◌==◌, zero, suc, List, [], ◌∷◌, ◌++◌, Option, some, true, false, ◌≡◌, refl, ap, arith,
  inl, inr, Bool-cases, get_elem?, length,
}
use azkaban.Prelude.Int.{pos}
use azkaban.Texts.{Text, text_eq, substring}
use azkaban.Texts.Numbers.{parse_int}
use azkaban.Staging.Executions.Address.{link_to, open_hash-link_to}
use azkaban.Staging.Executions.{
  PageNumber, number, parsed, Page, same_page, handle_change_page_selection, drop_request,
  handle_graph_link_click, handle_page_change, handle_change_view, handle_execution_link_click,
  set_page, executions_hash, graph_hash, page_hash, open_hash, made, show_answer, Step, click_graph,
  click_executions, click_page, read_address, arrive, IsInOrder, Reach, here, next, ArriveInOrder,
}

module _ {R : Type 0} (answer : PageNumber → R) where
  -- The newest request is that of the page; with none under way, its rows are shown.
  abbrev Newest : List PageNumber → Option R → PageNumber → Type 0
  Newest [] rows n = rows ≡ some (answer n)
  Newest (r ∷ []) rows n = r ≡ n
  Newest (r ∷ s ∷ rs) rows n = Newest (s ∷ rs) rows n

  record Follows (p : Page R) : Type 0 where
    started : p.init ≡ true → Newest p.requests p.rows p.page
    quiet : p.init ≡ false → p.requests ≡ []
    seen : p.tabs.executions_visible ≡ true → p.init ≡ true

  Newest-append :
      (rs : List PageNumber) (rows : Option R) (n : PageNumber) → Newest (rs ++ n ∷ []) rows n
  Newest-append [] rows n = refl
  Newest-append (r ∷ []) rows n = refl
  Newest-append (r ∷ s ∷ rs) rows n = Newest-append (s ∷ rs) rows n

  Newest-shown :
      (r n : PageNumber) (rs : List PageNumber) (rows rows' : Option R)
      → Newest (r ∷ rs) rows n
      → Newest (r ∷ rs) rows' n
  Newest-shown r n [] rows rows' h = h
  Newest-shown r n (s ∷ rs) rows rows' h = Newest-shown s n rs rows rows' h

  -- an answer to the first request
  Newest-answered :
      (r n : PageNumber) (rs : List PageNumber) (rows : Option R)
      → Newest (r ∷ rs) rows n
      → Newest rs (some (answer r)) n
  Newest-answered r n [] rows h = ap (λ m. some (answer m)) h
  Newest-answered r n (s ∷ rs) rows h = Newest-shown s n rs rows (some (answer r)) h

  set_page-Follows :
      (n : PageNumber) (p : Page R) → Follows p → p.init ≡ true → Follows (set_page n p)
  unfolding set_page handle_page_change
  set_page-Follows n p f on = elim (Bool-cases (same_page p.page n)) [
    | inl same ↦ rw same f
    | inr other ↦ rw other (record {
      started = λ _. Newest-append p.requests p.rows n;
      quiet = λ off. absurd (ground (arith, on, off));
      seen = λ _. on;
    })
  ]

  view-Follows :
      (p : Page R)
      → Follows p
      → Follows (handle_execution_link_click p) × ((handle_execution_link_click p).init ≡ true)
  unfolding handle_execution_link_click handle_change_view handle_page_change
  view-Follows p f = elim (Bool-cases p.init) [
    | inl on ↦ rw on (
      record {
        started = λ _. f.started on;
        quiet = λ e. absurd (ground (arith, e));
        seen = λ _. refl;
      },
      refl,
    )
    | inr off ↦ rw off (
      record {
        started = λ _. Newest-append p.requests p.rows p.page;
        quiet = λ e. absurd (ground (arith, e));
        seen = λ _. refl;
      },
      refl,
    )
  ]

  select-Follows :
      (disabled : Bool) (n : PageNumber) (p : Page R)
      → Follows p
      → p.init ≡ true
      → Follows (handle_change_page_selection disabled n p)
  unfolding handle_change_page_selection
  select-Follows true n p f on = f
  select-Follows false n p f on = set_page-Follows n p f on

  open_hash-Follows : (hash : Text) (p : Page R) → Follows p → Follows (open_hash hash p)
  unfolding open_hash
  open_hash-Follows hash p f =
      let (shown, on) = view-Follows p f in
      let n = parsed (parse_int (substring 5 (length hash) hash)) in
      let at_page = set_page-Follows n (handle_execution_link_click p) shown on in
      elim (Bool-cases (text_eq hash executions_hash)) [
        | inl e ↦ rw e shown
        | inr e ↦ rw e (elim (Bool-cases (text_eq hash graph_hash)) [
          | inl g ↦ rw g f
          | inr g ↦ rw g (elim (Bool-cases (text_eq page_hash (substring 0 5 hash))) [
            | inl h ↦ rw h at_page
            | inr h ↦ rw h f
          ])
        ])
      ]

  first_request :
      (rs : List PageNumber) (n : PageNumber) → get_elem? rs 0 ≡ some n → rs ≡ n ∷ drop_request 0 rs
  first_request [] n e = absurd (ground (arith, e))
  first_request (r ∷ rs) n e = ap (◌∷ rs) (ground (arith, e))

  arrive-Follows :
      (n : PageNumber) (p : Page R)
      → get_elem? p.requests 0 ≡ some n
      → Follows p
      → Follows (show_answer answer 0 n p)
  unfolding show_answer
  arrive-Follows n p e f =
      let first = first_request p.requests n e in
      record {
        started = λ on.
            Newest-answered n p.page (drop_request 0 p.requests) p.rows
              (subst (λ rs. Newest rs p.rows p.page) first (f.started on));
        quiet = λ off. absurd (ground (arith, f.quiet off, e));
        seen = f.seen;
      }

  graph-Follows : (p : Page R) → Follows p → Follows (handle_graph_link_click p)
  unfolding handle_graph_link_click
  graph-Follows p f = record {
    started = f.started;
    quiet = f.quiet;
    seen = λ e. absurd (ground (arith, e));
  }

  Step-Follows : {p q : Page R} (st : Step answer p q) → IsInOrder answer st → Follows p → Follows q
  Step-Follows (click_graph p) o f = graph-Follows p f
  Step-Follows (click_executions p) o f = (view-Follows p f).0
  Step-Follows (click_page disabled n p e i) o f = select-Follows disabled n p f (f.seen e)
  Step-Follows (read_address hash p) o f = open_hash-Follows hash p f
  Step-Follows (arrive zero n p e) o f = arrive-Follows n p e f
  Step-Follows (arrive (suc i) n p e) o f = absurd o

  Reach-Follows :
      {p q : Page R} (r : Reach answer p q) → ArriveInOrder answer r → Follows p → Follows q
  Reach-Follows here o f = f
  Reach-Follows (next r st) (o, o') f = Step-Follows st o' (Reach-Follows r o f)

  made-Follows : Follows made
  made-Follows = record {
    started = λ e. absurd (ground (arith, e));
    quiet = λ e. refl;
    seen = λ e. e;
  }

  -- Where the answers come in the order of the requests, the executions that are seen with no request
  -- under way are those of the page that is set.
  pub Reach-rows :
      (p : Page R) (r : Reach answer made p)
      → ArriveInOrder answer r
      → p.tabs.executions_visible ≡ true
      → p.requests ≡ []
      → p.rows ≡ some (answer p.page)
  Reach-rows p r o seen none_left =
      let f = Reach-Follows r o made-Follows in
      subst (λ rs. Newest rs p.rows p.page) none_left (f.started (f.seen seen))

  -- the page at the address of a link, after the answers for its page and then for the first page
  abbrev late : ℕ → Page R
  late n =
      show_answer answer 0 (number (pos 1))
        (show_answer answer 1 (number (pos n)) (open_hash (link_to n) made))

  -- Where the staging page is opened at the link of another page than the first, and the answer for that
  -- page comes before that for the first, the page ends with the rows of the first page: the executions are
  -- seen, no request is under way, and the page that is set is the link's.
  pub Reach-stale :
      (n : ℕ)
      → (1 == n) ≡ false
      → Reach answer made (late n)
        × ((late n).tabs.executions_visible ≡ true)
        × ((late n).requests ≡ [])
        × ((late n).page ≡ number (pos n))
        × ((late n).rows ≡ some (answer (number (pos 1))))
  unfolding show_answer
  Reach-stale n other =
      let opened = open_hash-link_to {R = R} n in
      let at_second : get_elem? (open_hash (link_to n) made).requests 1 ≡ some (number (pos n)) =
        rw opened (rw other refl) in
      let second = show_answer answer 1 (number (pos n)) (open_hash (link_to n) made) in
      let at_first : get_elem? second.requests 0 ≡ some (number (pos 1)) =
        rw opened (rw other refl) in
      (
        next
            (next (next here (read_address (link_to n) made))
              (arrive 1 (number (pos n)) (open_hash (link_to n) made) at_second))
            (arrive 0 (number (pos 1)) second at_first),
        rw opened refl,
        rw opened (rw other refl),
        rw opened refl,
        refl,
      )
