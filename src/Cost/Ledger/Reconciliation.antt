-- ===== src/Cost/Ledger/Reconciliation.antt =====
-- The budgets of src/revenue_sentinel/cost/ledger.py against its entries.
use mathlib.Core.Path.{ap₂}
use mathlib.Core.List.{append-nil, append_assoc}
use revenue_sentinel.Base.{
  ℕ, ◌+◌, Bool, true, false, Bool-cases, inl, inr, String, Option, List, [], ◌∷◌, ◌++◌, map, keep,
  keep-true, keep-false, ◌==◌, ==_iff, ◌≡◌, ap, sym, ◌∙◌, arith, refl,
}
use revenue_sentinel.Domain.{BudgetScope, global, incident, run}
use revenue_sentinel.Cost.Governor.{Budget}
use revenue_sentinel.Cost.Ledger.{
  CostEntry, Books, charge, is_charged, consume, write, amounts, charged_scope,
}

-- The entries of the calls that are charged to a budget.
abbrev pub charges : Budget → List CostEntry → ℕ
charges budget entries =
    amounts (keep (λ (entry : CostEntry). is_charged entry.run_id budget) entries)

-- A budget after some entries.
abbrev pub settled : List CostEntry → Budget → Budget
settled entries budget = record budget { consumed = budget.consumed + charges budget entries }

-- Entries written in order.
unfoldable pub write_all : List CostEntry → Books → Books
write_all [] books = books
write_all (entry ∷ entries) books = write_all entries (write entry books)

charges-charged :
    (b : Budget) (entry : CostEntry) (entries : List CostEntry)
    → is_charged entry.run_id b ≡ true
    → charges b (entry ∷ entries) ≡ entry.amount + charges b entries
charges-charged b entry entries h =
    ap amounts (keep-true (λ (e : CostEntry). is_charged e.run_id b) entry entries h)

charges-uncharged :
    (b : Budget) (entry : CostEntry) (entries : List CostEntry)
    → is_charged entry.run_id b ≡ false
    → charges b (entry ∷ entries) ≡ charges b entries
charges-uncharged b entry entries h =
    ap amounts (keep-false (λ (e : CostEntry). is_charged e.run_id b) entry entries h)

charge-charged :
    (entry : CostEntry) (b : Budget)
    → is_charged entry.run_id b ≡ true
    → charge entry.run_id entry.amount b ≡ record b { consumed = b.consumed + entry.amount }
charge-charged entry b h = rw h refl

charge-uncharged :
    (entry : CostEntry) (b : Budget)
    → is_charged entry.run_id b ≡ false
    → charge entry.run_id entry.amount b ≡ b
charge-uncharged entry b h = rw h refl

-- One charge, then those of the later entries.
settled-cons :
    (entry : CostEntry) (entries : List CostEntry) (b : Budget)
    → settled entries (charge entry.run_id entry.amount b) ≡ settled (entry ∷ entries) b
settled-cons entry entries b = elim (Bool-cases (is_charged entry.run_id b)) [
  | inl charged ↦
      ap (settled entries) (charge-charged entry b charged)
      ∙ ap (λ n. record b { consumed = n }) (omega (arith, charges-charged b entry entries charged))
  | inr uncharged ↦
      ap (settled entries) (charge-uncharged entry b uncharged)
      ∙ ap (λ n. record b { consumed = n })
          (omega (arith, charges-uncharged b entry entries uncharged))
]

settled-none : (b : Budget) → settled [] b ≡ b
settled-none b = ap (λ n. record b { consumed = n }) (omega arith)

charge-zero : (run_id : String) (b : Budget) → charge run_id 0 b ≡ b
charge-zero r b = elim (Bool-cases (is_charged r b)) [
  | inl charged ↦ rw charged (ap (λ n. record b { consumed = n }) (omega arith))
  | inr uncharged ↦ rw uncharged refl
]

map-same :
    (f : Budget → Budget)
    → ((b : Budget) → f b ≡ b)
    → (budgets : List Budget) → map f budgets ≡ budgets
map-same f h [] = refl
map-same f h (b ∷ bs) = ap₂ (λ x xs. x ∷ xs) (h b) (map-same f h bs)

map-map :
    (f g h : Budget → Budget)
    → ((b : Budget) → f (g b) ≡ h b)
    → (budgets : List Budget) → map f (map g budgets) ≡ map h budgets
map-map f g h eq [] = refl
map-map f g h eq (b ∷ bs) = ap₂ (λ x xs. x ∷ xs) (eq b) (map-map f g h eq bs)

-- The short cut of `_consume` for a cost of zero changes nothing.
consume-map :
    (run_id : String) (amount : ℕ) (budgets : List Budget)
    → consume run_id amount budgets ≡ map (charge run_id amount) budgets
unfolding consume
consume-map r amount budgets = elim (Bool-cases (amount == 0)) [
  | inl free ↦ rw free (
      sym (
        ap (λ n. map (charge r n) budgets) ((==_iff amount 0).0 free)
        ∙ map-same (charge r 0) (charge-zero r) budgets))
  | inr paid ↦ rw paid refl
]

-- After any entries, each budget has consumed the sum of the amounts of those it is charged for, and
-- nothing else of it has changed; the entries stand in the order in which they were written.
pub write_all-settled :
    (entries : List CostEntry) (books : Books)
    → ((write_all entries books).budgets ≡ map (settled entries) books.budgets)
      × ((write_all entries books).entries ≡ books.entries ++ entries)
unfolding write_all write
write_all-settled [] books =
    (sym (map-same (settled []) settled-none books.budgets), sym (append-nil books.entries))
write_all-settled (entry ∷ entries) books =
    let (budgets, rows) = write_all-settled entries (write entry books) in
    (
      budgets
          ∙ ap (map (settled entries)) (consume-map entry.run_id entry.amount books.budgets)
          ∙ map-map (settled entries) (charge entry.run_id entry.amount) (settled (entry ∷ entries))
              (settled-cons entry entries) books.budgets,
      rows ∙ append_assoc books.entries (entry ∷ []) entries,
    )

abbrev pub is_incident : BudgetScope → Bool
is_incident incident = true
is_incident _ = false

uncharged_incident :
    (run_id : String) (scope : BudgetScope) (ref : Option String)
    → is_incident scope ≡ true
    → charged_scope run_id scope ref ≡ false
uncharged_incident r incident ref h = refl
uncharged_incident r global ref h = cc
uncharged_incident r run ref h = cc

charges-incident :
    (b : Budget) (entries : List CostEntry) → is_incident b.scope ≡ true → charges b entries ≡ 0
charges-incident b [] h = refl
charges-incident b (entry ∷ entries) h =
    charges-uncharged b entry entries (uncharged_incident entry.run_id b.scope b.scope_ref h)
    ∙ charges-incident b entries h

abbrev pub incidents : List Budget → List Budget
incidents budgets = keep (λ (b : Budget). is_incident b.scope) budgets

settled-incident :
    (entries : List CostEntry) (b : Budget) → is_incident b.scope ≡ true → settled entries b ≡ b
settled-incident entries b h =
    ap (λ n. record b { consumed = n }) (omega (arith, charges-incident b entries h))

settled-incidents :
    (entries : List CostEntry) (budgets : List Budget)
    → incidents (map (settled entries) budgets) ≡ incidents budgets
settled-incidents entries [] = refl
settled-incidents entries (b ∷ bs) = elim (Bool-cases (is_incident b.scope)) [
  | inl h ↦
      keep-true (λ (x : Budget). is_incident x.scope) (settled entries b) (map (settled entries) bs)
        h
      ∙ ap₂ (λ x xs. x ∷ xs) (settled-incident entries b h) (settled-incidents entries bs)
      ∙ sym (keep-true (λ (x : Budget). is_incident x.scope) b bs h)
  | inr h ↦
      keep-false (λ (x : Budget). is_incident x.scope) (settled entries b)
        (map (settled entries) bs) h
      ∙ settled-incidents entries bs
      ∙ sym (keep-false (λ (x : Budget). is_incident x.scope) b bs h)
]

-- Whatever is spent, the ledger leaves the `INCIDENT` budgets as they were.
pub write_all-incidents :
    (entries : List CostEntry) (books : Books)
    → incidents (write_all entries books).budgets ≡ incidents books.budgets
write_all-incidents entries books =
    ap incidents (write_all-settled entries books).0 ∙ settled-incidents entries books.budgets
