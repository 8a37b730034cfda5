-- ===== src/Cost/Governor/Capped.antt =====
-- What the moves of racing runs keep, in src/revenue_sentinel/cost/governor.py.
use mathlib.Core.Path.{subst}
use revenue_sentinel.Base.{
  ℕ, suc, ◌+◌, ◌-◌, ◌*◌, ◌≤◌, true, Bool-cases, inl, inr, String, none, some, List, [], ◌∷◌, ◌++◌,
  map, length, length-append, All, ◌≡◌, ap, ◌∙◌, arith, refl, ◌==◌,
}
use revenue_sentinel.Domain.{global}
use revenue_sentinel.Cost.Governor.{Budget, is_applicable}
use revenue_sentinel.Cost.Governor.Admission.{check_affordable-Absorbs, AbsorbsIf}
use revenue_sentinel.Cost.Ledger.{consume, charge, is_charged}
use revenue_sentinel.Cost.Governor.Races.{
  Slot, reservation, held, Move, admit, settle, Moves, done, then_move, held-append, Capped,
  held-Capped, Within,
}

-- What holds of a state: the reservations are capped, and the budgets exceeded by the other runs'
-- reservations at most.
abbrev pub Bounded : ℕ → List Budget → List Slot → Type 0
Bounded ceiling budgets slots =
    All (Capped ceiling) slots × All (Within ((length slots - 1) * ceiling) (held slots)) budgets

minus_one : (x y : ℕ) → x + suc y - 1 ≡ x + y
minus_one x y = omega arith

-- The reservations of all runs but one.
held-others :
    (ceiling : ℕ) (before after : List Slot) (slot : Slot)
    → All (Capped ceiling) before
    → All (Capped ceiling) after
    → held before + held after ≤ (length (before ++ (slot ∷ after)) - 1) * ceiling
held-others ceiling before after slot hb ha = rw (length-append before (slot ∷ after)) (
    rw (minus_one (length before) (length after))
      (grind (arith, held-Capped ceiling before hb, held-Capped ceiling after ha)))

Capped-split :
    (ceiling : ℕ) (before after : List Slot) (slot : Slot)
    → All (Capped ceiling) (before ++ (slot ∷ after))
    → All (Capped ceiling) before × Capped ceiling slot × All (Capped ceiling) after
Capped-split ceiling [] after slot h = (tt, h.0, h.1)
Capped-split ceiling (x ∷ before) after slot h =
    let (hb, hs, ha) = Capped-split ceiling before after slot h.1 in ((h.0, hb), hs, ha)

Capped-join :
    (ceiling : ℕ) (before after : List Slot) (slot : Slot)
    → All (Capped ceiling) before
    → Capped ceiling slot
    → All (Capped ceiling) after
    → All (Capped ceiling) (before ++ (slot ∷ after))
Capped-join ceiling [] after slot hb hs ha = (hs, ha)
Capped-join ceiling (x ∷ before) after slot hb hs ha =
    (hb.0, Capped-join ceiling before after slot hb.1 hs ha)

global-is_applicable :
    (run_id incident_ref : String) (b : Budget)
    → b.scope ≡ global
    → is_applicable run_id incident_ref b ≡ true
global-is_applicable r i b h = rw h refl

-- A budget that takes one reservation more.
admitted-Within :
    (run_id incident_ref : String) (amount rest excess : ℕ) (budgets : List Budget)
    → rest ≤ excess
    → All (AbsorbsIf run_id incident_ref amount) budgets
    → All (Within excess (amount + rest)) budgets
admitted-Within r i amount rest excess [] h takes = tt
admitted-Within r i amount rest excess (b ∷ bs) h takes = (
  (λ is_global hard. omega (arith, takes.0 (global-is_applicable r i b is_global) hard)),
  admitted-Within r i amount rest excess bs h takes.1,
)

charged-Within :
    (run_id : String) (actual amount rest excess : ℕ) (b : Budget)
    → actual ≤ amount
    → Within excess (amount + rest) b
    → Within excess rest (charge run_id actual b)
charged-Within r actual amount rest excess b h within = elim (Bool-cases (is_charged r b)) [
  | inl charged ↦ rw charged (λ is_global hard. omega (arith, within is_global hard))
  | inr uncharged ↦ rw uncharged (λ is_global hard. omega (arith, within is_global hard))
]

-- Charging a budget at most what the ended call held.
settled-Within :
    (run_id : String) (actual amount rest excess : ℕ) (budgets : List Budget)
    → actual ≤ amount
    → All (Within excess (amount + rest)) budgets
    → All (Within excess rest) (map (charge run_id actual) budgets)
settled-Within r actual amount rest excess [] h within = tt
settled-Within r actual amount rest excess (b ∷ bs) h within = (
  charged-Within r actual amount rest excess b h within.0,
  settled-Within r actual amount rest excess bs h within.1,
)

lower :
    (amount rest excess : ℕ) (budgets : List Budget)
    → All (Within excess (amount + rest)) budgets
    → All (Within excess rest) budgets
lower amount rest excess [] within = tt
lower amount rest excess (b ∷ bs) within = (
  (λ is_global hard. omega (arith, within.0 is_global hard)),
  lower amount rest excess bs within.1,
)

consumed-Within :
    (run_id : String) (actual amount rest excess : ℕ) (budgets : List Budget)
    → actual ≤ amount
    → All (Within excess (amount + rest)) budgets
    → All (Within excess rest) (consume run_id actual budgets)
unfolding consume
consumed-Within r actual amount rest excess budgets h within = elim (Bool-cases (actual == 0)) [
  | inl free ↦ rw free (lower amount rest excess budgets within)
  | inr paid ↦ rw paid (settled-Within r actual amount rest excess budgets h within)
]

held-slot :
    (before after : List Slot) (slot : Slot)
    → held (before ++ (slot ∷ after)) ≡ reservation slot.reserved + (held before + held after)
held-slot before after slot = omega (arith, held-append before (slot ∷ after))

held-free :
    (before after : List Slot) (slot : Slot)
    → held (before ++ (record slot { reserved = none } ∷ after)) ≡ held before + held after
held-free before after slot =
    omega (arith, held-append before (record slot { reserved = none } ∷ after))

pub length-slot :
    (before after : List Slot) (slot other : Slot)
    → length (before ++ (slot ∷ after)) ≡ length (before ++ (other ∷ after))
length-slot before after slot other =
    omega (arith, length-append before (slot ∷ after), length-append before (other ∷ after))

Move-Bounded :
    (ceiling : ℕ) (b c : List Budget) (s t : List Slot)
    → Move ceiling b s c t
    → Bounded ceiling b s
    → Bounded ceiling c t
Move-Bounded ceiling b c s t (admit _ before after slot amount small idle admitted)
      (capped, within) =
    let (hb, hs, ha) = Capped-split ceiling before after slot capped in
    (
      Capped-join ceiling before after (record slot { reserved = some amount }) hb small ha,
      rw (length-slot before after (record slot { reserved = some amount }) slot) (
          rw (held-slot before after (record slot { reserved = some amount })) (
            admitted-Within slot.run_id slot.incident_ref amount (held before + held after)
              ((length (before ++ (slot ∷ after)) - 1) * ceiling) b
              (held-others ceiling before after slot hb ha)
              ((check_affordable-Absorbs slot.run_id slot.incident_ref b amount).0 admitted))),
    )
Move-Bounded ceiling b c s t (settle _ before after slot amount actual busy cost) (capped, within) =
    let (hb, hs, ha) = Capped-split ceiling before after slot capped in
    (
      Capped-join ceiling before after (record slot { reserved = none }) hb (omega arith) ha,
      rw (length-slot before after (record slot { reserved = none }) slot) (
          rw (held-free before after slot) (
            consumed-Within slot.run_id actual amount (held before + held after)
              ((length (before ++ (slot ∷ after)) - 1) * ceiling) b cost
              (subst
                (λ pending.
                  All (Within ((length (before ++ (slot ∷ after)) - 1) * ceiling) pending) b)
                (held-slot before after slot
                  ∙ ap (λ r. reservation r + (held before + held after)) busy)
                within))),
    )

pub Moves-Bounded :
    (ceiling : ℕ) (b c : List Budget) (s t : List Slot)
    → Moves ceiling b s c t
    → Bounded ceiling b s
    → Bounded ceiling c t
Moves-Bounded ceiling b c s t (done _ _) h = h
Moves-Bounded ceiling b c s t (then_move {c = d} {t = u} moves move) h =
    Move-Bounded ceiling d c u t move (Moves-Bounded ceiling b d s u moves h)
