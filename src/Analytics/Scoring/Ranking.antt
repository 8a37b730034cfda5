-- ===== src/Analytics/Scoring/Ranking.antt =====
-- The ranking of src/revenue_sentinel/analytics/intervention_scoring.py.
use mathlib.Core.Path.{◌∙◌}
use revenue_sentinel.Base.{
  ◌≡◌, sym, arith, Bool, true, false, ltb, leb, ◌==◌, ◌&&◌, ◌||◌, List, map,
}
use revenue_sentinel.Base.Sorting.{text_leb, text_leb_total, text_leb_trans, text_leb_antisym}
use revenue_sentinel.Base.Sorting.Laws.{
  Reordered, IsOrdered, sort_by-Reordered, sort_by-IsOrdered, weaker-IsOrdered,
  sort_by-Reordered_eq, map-sort_by, map-Reordered,
}
use revenue_sentinel.Analytics.Scoring.{ScoredIntervention, RankKey, rank_key, key_leb, rank}

key_leb_total : (a b : RankKey) → key_leb a b ≡ false → key_leb b a ≡ true
unfolding key_leb
key_leb_total a b h = ground (
  arith,
  text_leb_total a.action b.action,
  text_leb_total b.action a.action,
  text_leb_total a.title b.title,
)

key_leb_trans : (a b c : RankKey) → key_leb a b ≡ true → key_leb b c ≡ true → key_leb a c ≡ true
unfolding key_leb
key_leb_trans a b c h k = ground (
  arith,
  text_leb_trans a.action b.action c.action,
  text_leb_trans b.action c.action a.action,
  text_leb_trans c.action a.action b.action,
  text_leb_trans a.title b.title c.title,
)

key_leb_antisym : (a b : RankKey) → key_leb a b ≡ true → key_leb b a ≡ true → a ≡ b
unfolding key_leb
key_leb_antisym a b h k =
    let composites : a.composite_score ≡ b.composite_score = ground arith in
    let values : a.expected_value ≡ b.expected_value = ground arith in
    let actions : (text_leb a.action b.action ≡ true) × (text_leb b.action a.action ≡ true) =
      (ground arith, ground arith) in
    let titles : (text_leb a.title b.title ≡ true) × (text_leb b.title a.title ≡ true) =
      (ground arith, ground arith) in
    cc (
      composites,
      values,
      text_leb_antisym a.action b.action actions.0 actions.1,
      text_leb_antisym a.title b.title titles.0 titles.1,
    )

abbrev precedes : ScoredIntervention → ScoredIntervention → Bool
precedes a b = key_leb (rank_key a) (rank_key b)

-- Higher composite scores come first, then higher expected values.
abbrev pub is_above : ScoredIntervention → ScoredIntervention → Bool
is_above a b =
    ltb b.composite_score a.composite_score
    || (a.composite_score == b.composite_score && leb b.expected_value a.expected_value)

precedes-is_above : (a b : ScoredIntervention) → precedes a b ≡ true → is_above a b ≡ true
unfolding key_leb
precedes-is_above a b h = ground arith

-- The ranking keeps the interventions and puts each before those of a lower composite score, and of the
-- same composite score and a lower expected value; the same interventions in another order are ranked
-- with the same keys in the same order.
pub rank_lem :
    (interventions others : List ScoredIntervention)
    → Reordered interventions others
    → Reordered (rank interventions) interventions
      × IsOrdered is_above (rank interventions)
      × (map rank_key (rank interventions) ≡ map rank_key (rank others))
unfolding rank
rank_lem interventions others same = (
  sort_by-Reordered precedes interventions,
  weaker-IsOrdered precedes is_above precedes-is_above (rank interventions)
      (sort_by-IsOrdered precedes (λ a b. key_leb_total (rank_key a) (rank_key b)) interventions),
  map-sort_by rank_key key_leb interventions
      ∙ sort_by-Reordered_eq key_leb key_leb_total key_leb_trans key_leb_antisym
          (map rank_key interventions) (map rank_key others) (map-Reordered rank_key same)
      ∙ sym (map-sort_by rank_key key_leb others),
)
