-- ===== src/Cost/Governor/Overshoot.antt =====
-- How far racing admissions of src/revenue_sentinel/cost/governor.py exceed a budget.
use revenue_sentinel.Base.{
  ℕ, suc, zero, ◌-◌, ◌*◌, ◌≤◌, none, some, List, [], ◌∷◌, length, All, ok, ◌≡◌, sym, ◌∙◌, arith,
  refl,
}
use revenue_sentinel.Base.Int.{pos}
use revenue_sentinel.Cost.Governor.{Budget, overshoot_bound}
use revenue_sentinel.Cost.Governor.Races.{
  Slot, held, Move, admit, settle, Moves, done, then_move, Capped, Within,
}
use revenue_sentinel.Cost.Governor.Capped.{Bounded, length-slot, Moves-Bounded}

-- Slots with no call in flight.
abbrev pub Idle : List Slot → Type 0
Idle slots = All (λ (slot : Slot). slot.reserved ≡ none) slots

-- `GLOBAL` budgets that stop calls and are not exceeded.
abbrev pub InLimit : Budget → Type 0
InLimit budget = Within 0 0 budget

Idle-Capped : (ceiling : ℕ) (slots : List Slot) → Idle slots → All (Capped ceiling) slots
Idle-Capped ceiling [] h = tt
Idle-Capped ceiling (x ∷ xs) h = (rw h.0 (omega arith), Idle-Capped ceiling xs h.1)

Idle-held : (slots : List Slot) → Idle slots → held slots ≡ 0
Idle-held [] h = refl
Idle-held (x ∷ xs) h = rw h.0 (omega (arith, Idle-held xs h.1))

weaken :
    (excess more pending fewer : ℕ) (budgets : List Budget)
    → excess ≤ more
    → fewer ≤ pending
    → All (Within excess pending) budgets
    → All (Within more fewer) budgets
weaken excess more pending fewer [] h k within = tt
weaken excess more pending fewer (b ∷ bs) h k within = (
  (λ is_global hard. omega (arith, within.0 is_global hard)),
  weaken excess more pending fewer bs h k within.1,
)

Idle-Bounded :
    (ceiling : ℕ) (budgets : List Budget) (slots : List Slot)
    → Idle slots
    → All InLimit budgets
    → Bounded ceiling budgets slots
Idle-Bounded ceiling budgets slots idle h = (
  Idle-Capped ceiling slots idle,
  rw (Idle-held slots idle)
      (weaken 0 ((length slots - 1) * ceiling) 0 0 budgets (omega arith) (omega arith) h),
)

bound-eq :
    (runs ceiling bound : ℕ)
    → overshoot_bound (pos runs) (pos ceiling) ≡ ok bound
    → (runs - 1) * ceiling ≡ bound
unfolding overshoot_bound
bound-eq zero ceiling bound h = cc
bound-eq (suc runs) ceiling bound h = cc

Move-length :
    (ceiling : ℕ) (b c : List Budget) (s t : List Slot) → Move ceiling b s c t → length s ≡ length t
Move-length ceiling b c s t (admit _ before after slot amount _ _ _) =
    length-slot before after slot (record slot { reserved = some amount })
Move-length ceiling b c s t (settle _ before after slot _ _ _ _) =
    length-slot before after slot (record slot { reserved = none })

Moves-length :
    (ceiling : ℕ) (b c : List Budget) (s t : List Slot)
    → Moves ceiling b s c t
    → length s ≡ length t
Moves-length ceiling b c s t (done _ _) = refl
Moves-length ceiling b c s t (then_move {c = d} {t = u} moves move) =
    Moves-length ceiling b d s u moves ∙ Move-length ceiling d c u t move

-- What racing admissions can do to the `GLOBAL` budgets that stop calls: from a state in which none is
-- exceeded and no call is in flight, whatever calls of the runs are admitted, with reservations up to
-- `ceiling`, and settled at no more than was reserved, each is exceeded by
-- `overshoot_bound(runs, ceiling)` at most.
pub overshoot_bound-Moves :
    (ceiling bound : ℕ) (budgets later : List Budget) (slots now : List Slot)
    → Idle slots
    → All InLimit budgets
    → overshoot_bound (pos (length slots)) (pos ceiling) ≡ ok bound
    → Moves ceiling budgets slots later now
    → All (Within bound 0) later
overshoot_bound-Moves ceiling bound budgets later slots now idle h eq moves =
    let end =
      Moves-Bounded ceiling budgets later slots now moves
        (Idle-Bounded ceiling budgets slots idle h) in
    weaken ((length now - 1) * ceiling) bound (held now) 0 later
      (rw (sym (Moves-length ceiling budgets later slots now moves))
        (omega (arith, bound-eq (length slots) ceiling bound eq)))
      (omega arith) end.1
