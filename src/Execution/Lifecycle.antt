-- ===== src/Execution/Lifecycle.antt =====
-- The life of one row of `action_records`, over executor.py and reconciliation.py of
-- src/revenue_sentinel/execution: an abstract machine on its status, which both implement.
pub mod Steps
use mathlib.Core.Path.{subst, ◌∙◌}
use revenue_sentinel.Base.{
  ℕ, ◌≡◌, ◌≢◌, refl, sym, ap, Bool, true, false, Option, none, some, List, [], ◌∷◌, ◌++◌,
  find_sound, if◌then◌else◌, ◌==◌, ==_iff, arith, Bool-cases, inl, inr, Option-cases,
}
use revenue_sentinel.Domain.{ActionStatus, executing, succeeded, failed, indeterminate}
use revenue_sentinel.Execution.Executor.{ActionRecord, save}
use revenue_sentinel.Execution.Reconciliation.{action_at}
use revenue_sentinel.Execution.Reconciliation.Findings.{
  action_at-save, action_at-save_other, read_saved,
}

-- What happens to the table: an execution, a process that dies between its claim and its outcome, or a
-- finding of a person.
pub data Label : Type 0 where
  execution crash finding : Label

-- What one of them does to the status of an action; `none` is an action that is not there yet. Only an
-- execution that claims an action gives it an outcome, an execution that meets an open claim knows
-- nothing of its outcome, and only a finding settles that. A failed action stays failed.
pub data Move : Label → Option ActionStatus → Option ActionStatus → Type 0 where
  rests : {l : Label} {s : Option ActionStatus} → Move l s s
  performs_well : Move execution none (some succeeded)
  performs_badly : Move execution none (some failed)
  is_lost : Move execution (some executing) (some indeterminate)
  claims : Move crash none (some executing)
  found_done : Move finding (some indeterminate) (some succeeded)
  found_undone : Move finding (some indeterminate) (some failed)

-- The life of an action, one move for each thing that happens.
pub data Lifecycle : List Label → Option ActionStatus → Option ActionStatus → Type 0 where
  ends : {s : Option ActionStatus} → Lifecycle [] s s
  goes :
      {l : Label} {ls : List Label} {s t u : Option ActionStatus}
      → Move l s t
      → Lifecycle ls t u
      → Lifecycle (l ∷ ls) s u

move-succeeded :
    {l : Label} {s t : Option ActionStatus} → Move l s t → s ≡ some succeeded → t ≡ some succeeded
move-succeeded rests h = h
move-succeeded performs_well h = refl
move-succeeded performs_badly h = cc
move-succeeded is_lost h = cc
move-succeeded claims h = cc
move-succeeded found_done h = refl
move-succeeded found_undone h = cc

move-failed :
    {l : Label} {s t : Option ActionStatus} → Move l s t → s ≡ some failed → t ≡ some failed
move-failed rests h = h
move-failed performs_well h = cc
move-failed performs_badly h = refl
move-failed is_lost h = cc
move-failed claims h = cc
move-failed found_done h = cc
move-failed found_undone h = refl

-- An outcome on record is final.
pub succeeded_final :
    {ls : List Label} {s t : Option ActionStatus}
    → Lifecycle ls s t
    → s ≡ some succeeded
    → t ≡ some succeeded
succeeded_final ends h = h
succeeded_final (goes move rest) h = succeeded_final rest (move-succeeded move h)

pub failed_final :
    {ls : List Label} {s t : Option ActionStatus}
    → Lifecycle ls s t
    → s ≡ some failed
    → t ≡ some failed
failed_final ends h = h
failed_final (goes move rest) h = failed_final rest (move-failed move h)

pub along :
    {l : Label} {s s' t t' : Option ActionStatus} → s ≡ s' → t ≡ t' → Move l s' t' → Move l s t
along {l = l} {s' = s'} {t = t} before after move =
    subst (λ x. Move l x t) (sym before) (subst (λ x. Move l s' x) (sym after) move)

status_of : Option ActionRecord → Option ActionStatus
status_of none = none
status_of (some row) = some row.status

-- The abstraction: the status that the table holds for an id.
unfoldable pub status_at : ℕ → List ActionRecord → Option ActionStatus
unfolding status_of
status_at id rows = status_of (action_at id rows)

-- No two rows have one id.
abbrev pub Distinct : List ActionRecord → Type 0
Distinct [] = Unit
Distinct (row ∷ rows) = (action_at row.id rows ≡ none) × Distinct rows

-- Each id's status makes one move, and the ids stay distinct.
abbrev pub Evolves : Label → List ActionRecord → List ActionRecord → Type 0
Evolves l rows rows' =
    (Distinct rows → Distinct rows') × ((id : ℕ) → Move l (status_at id rows) (status_at id rows'))

pub Evolves-refl : (l : Label) (rows : List ActionRecord) → Evolves l rows rows
Evolves-refl l rows = (λ d. d, λ id. rests)

-- No id but one changes its status, and the ids stay distinct.
abbrev pub Only : ℕ → List ActionRecord → List ActionRecord → Type 0
Only own rows rows' =
    (Distinct rows → Distinct rows')
    × ((id : ℕ) → id ≢ own → status_at id rows' ≡ status_at id rows)

pub Only-refl : (own : ℕ) (rows : List ActionRecord) → Only own rows rows
Only-refl own rows = (λ d. d, λ id other. refl)

pub Only-trans : (own : ℕ) (a b c : List ActionRecord) → Only own a b → Only own b c → Only own a c
Only-trans own a b c f g = (λ d. g.0 (f.0 d), λ id other. g.1 id other ∙ f.1 id other)

pub Evolves-Only :
    (l : Label) (own : ℕ) (rows rows' : List ActionRecord)
    → Only own rows rows'
    → Move l (status_at own rows) (status_at own rows')
    → Evolves l rows rows'
Evolves-Only l own rows rows' only move = (
  only.0,
  λ id. elim (Bool-cases (id == own)) [
    | inl e ↦
        subst (λ n. Move l (status_at n rows) (status_at n rows')) (sym ((==_iff id own).0 e)) move
    | inr e ↦ along refl (only.1 id (ground arith)) rests
  ],
)

save_absent :
    (row : ActionRecord) (rows : List ActionRecord) (id : ℕ)
    → action_at id rows ≡ none
    → action_at id (save row rows) ≡ none
save_absent row [] id h = refl
save_absent row (first ∷ rows) id h = ground (arith, save_absent row rows id)

Distinct-cons :
    (row first : ActionRecord) (rest : List ActionRecord) (b : Bool)
    → (first.id == row.id) ≡ b
    → action_at first.id rest ≡ none
    → Distinct rest
    → Distinct (if b then row ∷ rest else first ∷ rest)
Distinct-cons row first rest true e h d =
    (subst (λ n. action_at n rest ≡ none) ((==_iff first.id row.id).0 e) h, d)
Distinct-cons row first rest false e h d = (h, d)

Distinct-save :
    (row : ActionRecord) (rows : List ActionRecord) → Distinct rows → Distinct (save row rows)
Distinct-save row [] d = tt
Distinct-save row (first ∷ rows) d =
    Distinct-cons row first (save row rows) (first.id == row.id) refl
      (save_absent row rows first.id d.0) (Distinct-save row rows d.1)

pub status_at-some :
    (id : ℕ) (rows : List ActionRecord) (row : ActionRecord)
    → action_at id rows ≡ some row
    → status_at id rows ≡ some row.status
unfolding status_at
status_at-some id rows row h = ap status_of h

pub Only-save : (row : ActionRecord) (rows : List ActionRecord) → Only row.id rows (save row rows)
unfolding status_at
Only-save row rows =
    (Distinct-save row rows, λ id other. ap status_of (action_at-save_other row rows id other))

pub Evolves-save :
    (l : Label) (row r : ActionRecord) (rows : List ActionRecord)
    → action_at row.id rows ≡ some r
    → Move l (some r.status) (some row.status)
    → Evolves l rows (save row rows)
Evolves-save l row r rows held move =
    Evolves-Only l row.id rows (save row rows) (Only-save row rows) (
      along (status_at-some row.id rows r held)
        (status_at-some row.id (save row rows) row (action_at-save row r rows held)) move)

append_other :
    (row : ActionRecord) (rows : List ActionRecord) (id : ℕ)
    → id ≢ row.id
    → action_at id (rows ++ row ∷ []) ≡ action_at id rows
append_other row [] id other = ground arith
append_other row (first ∷ rows) id other = ground (arith, append_other row rows id other)

pub append_new :
    (row : ActionRecord) (rows : List ActionRecord)
    → action_at row.id rows ≡ none
    → action_at row.id (rows ++ row ∷ []) ≡ some row
append_new row [] h = ground arith
append_new row (first ∷ rows) h = ground (arith, append_new row rows)

Distinct-append :
    (row : ActionRecord) (rows : List ActionRecord)
    → action_at row.id rows ≡ none
    → Distinct rows
    → Distinct (rows ++ row ∷ [])
Distinct-append row [] h d = (refl, tt)
Distinct-append row (first ∷ rows) h d = (
  ground (arith, append_other row rows first.id, d.0),
  Distinct-append row rows (ground arith) d.1,
)

pub Only-append :
    (row : ActionRecord) (rows : List ActionRecord)
    → action_at row.id rows ≡ none
    → Only row.id rows (rows ++ row ∷ [])
unfolding status_at
Only-append row rows free =
    (Distinct-append row rows free, λ id other. ap status_of (append_other row rows id other))

pub status_at-none :
    (id : ℕ) (rows : List ActionRecord) → action_at id rows ≡ none → status_at id rows ≡ none
unfolding status_at
status_at-none id rows h = ap status_of h

pub Evolves-append :
    (row : ActionRecord) (rows : List ActionRecord)
    → row.status ≡ executing
    → action_at row.id rows ≡ none
    → Evolves crash rows (rows ++ row ∷ [])
Evolves-append row rows open_claim free =
    Evolves-Only crash row.id rows (rows ++ row ∷ []) (Only-append row rows free) (
      along (status_at-none row.id rows free)
        (status_at-some row.id (rows ++ row ∷ []) row (append_new row rows free)
          ∙ ap some open_claim)
        claims)
