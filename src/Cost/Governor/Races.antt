-- ===== src/Cost/Governor/Races.antt =====
-- Calls of several runs that race for the budgets: src/revenue_sentinel/cost/governor.py reads what is
-- consumed and the call proceeds on it, and src/revenue_sentinel/cost/ledger.py consumes afterwards.
use revenue_sentinel.Base.{
  ℕ, ◌+◌, ◌*◌, ◌≤◌, true, String, Option, none, some, List, [], ◌∷◌, ◌++◌, length, All, ◌≡◌, arith,
}
use revenue_sentinel.Domain.{global}
use revenue_sentinel.Cost.Governor.{Budget, check_affordable}
use revenue_sentinel.Cost.Ledger.{consume}

-- A run, and the reservation of its call in flight.
pub record Slot : Type 0 where
  pub run_id : String
  pub incident_ref : String
  pub reserved : Option ℕ

abbrev pub reservation : Option ℕ → ℕ
reservation none = 0
reservation (some amount) = amount

abbrev pub held : List Slot → ℕ
held [] = 0
held (slot ∷ slots) = reservation slot.reserved + held slots

-- A call of one of the runs is admitted, or ends and is charged what it cost, which is not more than
-- was reserved for it.
pub data Move (ceiling : ℕ) : List Budget → List Slot → List Budget → List Slot → Type 0 where
  admit :
      (budgets : List Budget) (before after : List Slot) (slot : Slot) (amount : ℕ)
      → amount ≤ ceiling
      → slot.reserved ≡ none
      → check_affordable slot.run_id slot.incident_ref budgets amount ≡ none
      → Move ceiling budgets
          (before ++ (slot ∷ after))
          budgets
          (before ++ (record slot { reserved = some amount } ∷ after))
  settle :
      (budgets : List Budget) (before after : List Slot) (slot : Slot) (amount actual : ℕ)
      → slot.reserved ≡ some amount
      → actual ≤ amount
      → Move ceiling budgets
          (before ++ (slot ∷ after))
          (consume slot.run_id actual budgets)
          (before ++ (record slot { reserved = none } ∷ after))

pub data Moves (ceiling : ℕ) : List Budget → List Slot → List Budget → List Slot → Type 0 where
  done : (budgets : List Budget) (slots : List Slot) → Moves ceiling budgets slots budgets slots
  then_move :
      {b c d : List Budget} {s t u : List Slot}
      → Moves ceiling b s c t
      → Move ceiling c t d u
      → Moves ceiling b s d u

pub held-append : (xs ys : List Slot) → held (xs ++ ys) ≡ held xs + held ys
held-append [] ys = omega arith
held-append (x ∷ xs) ys = omega (arith, held-append xs ys)

-- No reservation is above the ceiling.
abbrev pub Capped : ℕ → Slot → Type 0
Capped ceiling slot = reservation slot.reserved ≤ ceiling

pub held-Capped :
    (ceiling : ℕ) (slots : List Slot)
    → All (Capped ceiling) slots
    → held slots ≤ length slots * ceiling
held-Capped ceiling [] h = omega arith
held-Capped ceiling (x ∷ xs) h = grind (arith, h.0, held-Capped ceiling xs h.1)

-- A `GLOBAL` budget that stops calls is exceeded by `excess` at most, `pending` included.
abbrev pub Within : ℕ → ℕ → Budget → Type 0
Within excess pending budget =
    budget.scope ≡ global
    → budget.hard_stop ≡ true
    → budget.consumed + pending ≤ budget.limit + excess
