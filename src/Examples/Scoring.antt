-- ===== src/Examples/Scoring.antt =====
-- The ranking of interventions at concrete inputs.
use revenue_sentinel.Base.{◌≡◌, refl, [], ◌∷◌, map, ok}
use revenue_sentinel.Base.Int.{pos}
use revenue_sentinel.Base.Rounding.{round_half_even}
use revenue_sentinel.Base.Sorting.{sort_by}
use revenue_sentinel.Base.Sorting.Laws.{Reordered, IsOrdered, swapped}
use revenue_sentinel.Domain.{ProposedAction, customer_facing_or_material, prohibited}
use revenue_sentinel.Governance.Tiers.{classify}
use revenue_sentinel.Analytics.Scoring.{
  ScoredIntervention, RecoveryBand, EffortBand, score_intervention, expected_value_of, composite,
  rank, rank_key, key_leb,
}
use revenue_sentinel.Analytics.Scoring.Ranking.{is_above, rank_lem}

abbrev draft : ScoredIntervention
draft = record {
  title = "Draft an email";
  action = ProposedAction.email_draft;
  expected_value = 10000;
  effort_score = 100;
  risk_score = 300;
  risk_tier = customer_facing_or_material;
  composite_score = 100;
}

abbrev deletion : ScoredIntervention
deletion = record {
  title = "Delete the record";
  action = ProposedAction.record_delete;
  expected_value = 50000;
  effort_score = 100;
  risk_score = 1000;
  risk_tier = prohibited;
  composite_score = 208;
}

-- At $1,000 at risk of a weighted $2,000, a prohibited action of high recovery scores more than twice
-- as high as a permitted one of low recovery and the same effort.
prohibited_first_test :
    (score_intervention "Draft an email" ProposedAction.email_draft RecoveryBand.low EffortBand.low
        (pos 100000)
        (pos 200000)
        []
      ≡ ok draft)
    × (score_intervention "Delete the record" ProposedAction.record_delete RecoveryBand.high
          EffortBand.low
          (pos 100000)
          (pos 200000)
          []
        ≡ ok deletion)
    × (rank (draft ∷ deletion ∷ []) ≡ deletion ∷ draft ∷ [])
unfolding score_intervention expected_value_of composite round_half_even classify rank sort_by
    key_leb
prohibited_first_test = (refl, refl, refl)

rank_lem_example :
    Reordered (rank (draft ∷ deletion ∷ [])) (draft ∷ deletion ∷ [])
    × IsOrdered is_above (rank (draft ∷ deletion ∷ []))
    × (map rank_key (rank (draft ∷ deletion ∷ [])) ≡ map rank_key (rank (deletion ∷ draft ∷ [])))
rank_lem_example =
    rank_lem (draft ∷ deletion ∷ []) (deletion ∷ draft ∷ []) (swapped draft deletion [])
