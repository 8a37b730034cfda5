-- ===== src/Agents/Citations.antt =====
-- src/revenue_sentinel/agents/citations.py: hypotheses may cite known evidence only.
use revenue_sentinel.Base.{
  ℕ, ◌≡◌, refl, sym, ◌∙◌, Bool, true, not, leb, String, str_eq, List, [], ◌∷◌, any, keep, keep-true,
  keep-false, Result, ok, err, All, ◌↔◌, Bool-cases, inl, inr,
}
use revenue_sentinel.Base.Sorting.{sort_by, All-sort_by, sort_by-All}

-- `HypothesisDraft`, with the fields that the check reads.
pub record Hypothesis : Type 0 where
  pub rank : ℕ
  pub statement : String
  pub cites : List String

-- `FabricatedCitationError`: the rank of the hypothesis, and the references.
pub data CitationError : Type 0 where
  fabricated : ℕ → List String → CitationError

abbrev pub is_known : List String → String → Bool
is_known known_refs ref = any (λ known. str_eq known ref) known_refs

-- `tuple(ref for ref in hypothesis.cites if ref not in known_refs)`.
abbrev pub unknown_of : List String → Hypothesis → List String
unknown_of known_refs hypothesis = keep (λ ref. not (is_known known_refs ref)) hypothesis.cites

check_one : ℕ → List String → Result CitationError (Unit {0}) → Result CitationError (Unit {0})
check_one rank [] rest = rest
check_one rank (ref ∷ unknown) rest = err (fabricated rank (ref ∷ unknown))

-- The loop.
check_all : List String → List Hypothesis → Result CitationError (Unit {0})
unfolding check_one
check_all known_refs [] = ok tt
check_all known_refs (hypothesis ∷ rest) =
    let later = check_all known_refs rest in
    check_one hypothesis.rank (unknown_of known_refs hypothesis) later

abbrev by_rank : Hypothesis → Hypothesis → Bool
by_rank a b = leb a.rank b.rank

unfoldable pub validate_citations : List Hypothesis → List String → Result CitationError (Unit {0})
unfolding check_all
validate_citations hypotheses known_refs = check_all known_refs (sort_by by_rank hypotheses)

-- Every citation of a hypothesis names known evidence.
abbrev pub IsGrounded : List String → Hypothesis → Type 0
IsGrounded known_refs hypothesis = All (λ ref. is_known known_refs ref ≡ true) hypothesis.cites

none_unknown :
    (known_refs refs : List String)
    → keep (λ ref. not (is_known known_refs ref)) refs ≡ []
    → All (λ ref. is_known known_refs ref ≡ true) refs
none_unknown known_refs [] h = tt
none_unknown known_refs (ref ∷ refs) h = elim (Bool-cases (is_known known_refs ref)) [
  | inl e ↦ (
    e,
    none_unknown known_refs refs
        (sym (keep-false (λ r. not (is_known known_refs r)) ref refs (rw e refl)) ∙ h),
  )
  | inr e ↦ absurd (cc (keep-true (λ r. not (is_known known_refs r)) ref refs (rw e refl), h))
]

unknown_none :
    (known_refs refs : List String)
    → All (λ ref. is_known known_refs ref ≡ true) refs
    → keep (λ ref. not (is_known known_refs ref)) refs ≡ []
unknown_none known_refs [] h = refl
unknown_none known_refs (ref ∷ refs) h =
    keep-false (λ r. not (is_known known_refs r)) ref refs (rw (h.0) refl)
    ∙ unknown_none known_refs refs h.1

check_one_ok :
    (rank : ℕ) (unknown : List String) (rest : Result CitationError (Unit {0}))
    → check_one rank unknown rest ≡ ok tt
    → (unknown ≡ []) × (rest ≡ ok tt)
unfolding check_one
check_one_ok rank [] rest h = (refl, h)
check_one_ok rank (ref ∷ unknown) rest h = cc

check_all-IsGrounded :
    (known_refs : List String) (hypotheses : List Hypothesis)
    → check_all known_refs hypotheses ≡ ok tt
    → All (IsGrounded known_refs) hypotheses
unfolding check_all
check_all-IsGrounded known_refs [] h = tt
check_all-IsGrounded known_refs (hypothesis ∷ rest) h =
    let (none, more) =
      check_one_ok hypothesis.rank (unknown_of known_refs hypothesis) (check_all known_refs rest)
        h in
    (none_unknown known_refs hypothesis.cites none, check_all-IsGrounded known_refs rest more)

IsGrounded-check_all :
    (known_refs : List String) (hypotheses : List Hypothesis)
    → All (IsGrounded known_refs) hypotheses
    → check_all known_refs hypotheses ≡ ok tt
unfolding check_all
IsGrounded-check_all known_refs [] h = refl
IsGrounded-check_all known_refs (hypothesis ∷ rest) h =
    rw (unknown_none known_refs hypothesis.cites h.0) (IsGrounded-check_all known_refs rest h.1)

-- The check passes exactly where every citation of every hypothesis names known evidence.
pub validate_citations_iff :
    (hypotheses : List Hypothesis) (known_refs : List String)
    → (validate_citations hypotheses known_refs ≡ ok tt) ↔ All (IsGrounded known_refs) hypotheses
unfolding validate_citations
validate_citations_iff hypotheses known_refs = (
  λ h.
      sort_by-All by_rank (IsGrounded known_refs) hypotheses
        (check_all-IsGrounded known_refs (sort_by by_rank hypotheses) h),
  λ h.
      IsGrounded-check_all known_refs (sort_by by_rank hypotheses)
        (All-sort_by by_rank (IsGrounded known_refs) hypotheses h),
)
