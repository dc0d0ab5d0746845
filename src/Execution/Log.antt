-- ===== src/Execution/Log.antt =====
-- Reading the log piece by piece: `FlowLogView.handleUpdate` (src/web/js/azkaban.exflow.view.js) and
-- the loop of `JobLogView.handleUpdate` (src/web/js/azkaban.joblog.view.js). The server and the clock
-- are parameters.
use mathlib.Core.Path.{subst}
use azkaban.Prelude.{
  ℕ, zero, suc, ◌+◌, ◌<◌, ◌≤◌, List, [], ◌∷◌, ◌++◌, Option, none, some, true, false, ◌≡◌, ◌≢◌, ◌⊎◌,
  refl, sym, ap, ◌∙◌, inl, inr, arith, ltb, ltb→lt, ◌==◌, length, if◌then◌else◌, Bool-cases,
}
use azkaban.Prelude.Sort.{append_assoc}

-- A character, which takes one byte and `more` bytes of the file.
pub record Char : Type 0 where
  pub code : ℕ
  pub more : ℕ

-- An answer to a request for a part of the log: its offset, its length and its text. The offset and the
-- length count bytes of the file.
pub data Answer : Type 0 where
  error : Answer
  chunk : ℕ → ℕ → List Char → Answer

pub record Log : Type 0 where
  pub offset : ℕ
  pub text : List Char

-- `initialize`, before the first update
abbrev pub empty : Log
empty = record { offset = 0; text = [] }

-- what both handlers do with a chunk at an offset
append_chunk : ℕ → ℕ → List Char → Log → Log
append_chunk offset len text l = record { offset = offset + len; text = l.text ++ text }

module _ (fetch : ℕ → ℕ → Answer) where
  -- `FlowLogView.handleUpdate`
  pub flow_update : Log → Log
  flow_update l = elim (fetch l.offset 50000) [
    | error ↦ l
    | chunk offset len text ↦ append_chunk offset len text l
  ]

  -- The loop of `JobLogView.handleUpdate`. `elapsed k` is the time since the start when the answer to
  -- the request comes that leaves `k` rounds.
  pub job_update : (ℕ → ℕ) → ℕ → Log → Option Log
  job_update elapsed zero l = none
  job_update elapsed (suc rounds) l = elim (fetch l.offset 50000) [
    | error ↦ some l
    | chunk offset len text ↦
        let l' = append_chunk offset len text l in
        let rest = job_update elapsed rounds l' in
        if len == 0 then some l else if ltb 10000 (elapsed rounds) then some l' else rest
  ]

abbrev pub bytes : List Char → ℕ
bytes [] = 0
bytes (c ∷ cs) = 1 + c.more + bytes cs

-- An answer holds whole characters: at an offset between two of them, those of a part that starts
-- there. It is empty at the end of the log only.
abbrev pub IsPart : List Char → List Char → Answer → Type 0
IsPart before after a =
    (now : List Char) × (later : List Char) × (after ≡ now ++ later)
    × (a ≡ chunk (bytes before) (bytes now) now)
    × (now ≡ [] → after ≡ [])

-- What the loading relies on: an answer is an error or a part of the log, in whole characters, from the
-- offset that was asked for.
abbrev pub Serves : List Char → (ℕ → ℕ → Answer) → Type 0
Serves log fetch =
    (before after : List Char)
    → log ≡ before ++ after
    → (fetch (bytes before) 50000 ≡ error) ⊎ IsPart before after (fetch (bytes before) 50000)

-- The text is the part of the log before the offset, and `rest` what follows.
pub record IsPrefixOf (log : List Char) (l : Log) (rest : List Char) : Type 0 where
  pub text : log ≡ l.text ++ rest
  pub offset : l.offset ≡ bytes l.text

bytes-append : (xs ys : List Char) → bytes (xs ++ ys) ≡ bytes xs + bytes ys
bytes-append [] ys = omega arith
bytes-append (x ∷ xs) ys = omega (arith, bytes-append xs ys)

length-append : (xs ys : List Char) → length (xs ++ ys) ≡ length xs + length ys
length-append [] ys = omega arith
length-append (x ∷ xs) ys = omega (arith, length-append xs ys)

bytes-zero : (xs : List Char) → (bytes xs == 0) ≡ true → xs ≡ []
bytes-zero [] h = refl
bytes-zero (x ∷ xs) h = absurd (ground (arith, h))

bytes-some : (xs : List Char) → (bytes xs == 0) ≡ false → 1 ≤ length xs
bytes-some [] h = absurd (ground (arith, h))
bytes-some (x ∷ xs) h = omega arith

module _ (log : List Char) (fetch : ℕ → ℕ → Answer) (serves : Serves log fetch) where
  -- The log after a part that was asked for at its offset.
  abbrev with_part : Log → List Char → Log
  with_part l now = record { offset = bytes l.text + bytes now; text = l.text ++ now }

  with_part-IsPrefixOf :
      (l : Log) (rest now later : List Char)
      → IsPrefixOf log l rest
      → rest ≡ now ++ later
      → IsPrefixOf log (with_part l now) later
  with_part-IsPrefixOf l rest now later h e = record {
    text = h.text ∙ (ap (l.text ++◌) e ∙ sym (append_assoc l.text now later));
    offset = sym (bytes-append l.text now);
  }

  answer_at :
      (l : Log) (rest : List Char)
      → IsPrefixOf log l rest
      → (fetch l.offset 50000 ≡ error) ⊎ IsPart l.text rest (fetch l.offset 50000)
  answer_at l rest h =
      subst (λ o. (fetch o 50000 ≡ error) ⊎ IsPart l.text rest (fetch o 50000)) (sym h.offset)
        (serves l.text rest h.text)

  -- An update of the flow's log keeps the text a part of the log, from its start to the offset.
  pub flow_update-IsPrefixOf :
      (l : Log) (rest : List Char)
      → IsPrefixOf log l rest
      → (later : List Char) × IsPrefixOf log (flow_update fetch l) later
  unfolding flow_update append_chunk
  flow_update-IsPrefixOf l rest h = elim (answer_at l rest h) [
    | inl failed ↦ (rest, rw (failed, flow_update) h)
    | inr (now, later, e, a, _) ↦
        (later, rw (a, flow_update) (with_part-IsPrefixOf l rest now later h e))
  ]

  -- The loop that loads a job's log ends when there are more rounds than characters left. However the
  -- clock runs, the text is then the part of the log before the offset, which counts bytes; and where no
  -- answer came after ten seconds and none was an error, it is the whole log. The conditions are that the
  -- log does not grow meanwhile, and that an answer is an error or a part of it in whole characters, from
  -- the offset that was asked for and empty at the end only; and that the text at the start is the part of the log before the offset.
  pub job_update-IsPrefixOf :
      (elapsed : ℕ → ℕ) (rounds : ℕ) (l : Log) (rest : List Char)
      → IsPrefixOf log l rest
      → length rest < rounds
      → (l' : Log) × (later : List Char) × (job_update fetch elapsed rounds l ≡ some l')
        × IsPrefixOf log l' later
        × (((k : ℕ) → elapsed k ≤ 10000) → ((offset : ℕ) → fetch offset 50000 ≢ error) → later ≡ [])
  unfolding job_update append_chunk
  job_update-IsPrefixOf elapsed zero l rest h b = absurd (omega arith)
  job_update-IsPrefixOf elapsed (suc rounds) l rest h b = elim (answer_at l rest h) [
    | inl failed ↦
        (l, rest, rw (failed, job_update) refl, h, λ quick served. absurd (served l.offset failed))
    | inr (now, later, e, a, last) ↦
        let l' = with_part l now in
        let kept = with_part-IsPrefixOf l rest now later h e in
        elim (Bool-cases (bytes now == 0)) [
          | inl done ↦ (
            l,
            rest,
            rw (a, job_update) (rw done refl),
            h,
            λ quick served. last (bytes-zero now done),
          )
          | inr more ↦ elim (Bool-cases (ltb 10000 (elapsed rounds))) [
            | inl late ↦ (
              l',
              later,
              rw (a, job_update) (rw more (rw late refl)),
              kept,
              λ quick. absurd (omega (arith, quick rounds, ltb→lt 10000 (elapsed rounds) late)),
            )
            | inr early ↦
                let fewer : length later < rounds =
                  omega (arith, b, ap length e, length-append now later, bytes-some now more) in
                let (r, end, ends, pre, all) =
                  job_update-IsPrefixOf elapsed rounds l' later kept fewer in
                (r, end, rw (a, job_update) (rw more (rw early ends)), pre, all)
          ]
        ]
  ]
