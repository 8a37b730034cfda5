-- ===== src/Cost/Timeline/Order.antt =====
-- The order of the timeline of src/revenue_sentinel/cost/timeline.py.
use mathlib.Core.Path.{◌∙◌}
use revenue_sentinel.Base.{
  Bool, true, false, ◌&&◌, ◌||◌, ltb, leb, ◌==◌, List, map, ◌≡◌, sym, arith,
}
use revenue_sentinel.Base.Sorting.{text_leb, text_leb_total, text_leb_trans, text_leb_antisym}
use revenue_sentinel.Base.Sorting.Laws.{
  Reordered, IsOrdered, sort_by-Reordered, sort_by-IsOrdered, weaker-IsOrdered,
  sort_by-Reordered_eq, map-sort_by, map-Reordered,
}
use revenue_sentinel.Cost.Timeline.{
  TimelineEvent, SortKey, source_rank, sort_key, key_leb, comes_before, merged,
}

key_leb_total : (a b : SortKey) → key_leb a b ≡ false → key_leb b a ≡ true
unfolding key_leb
key_leb_total a b h = ground (arith, text_leb_total a.label b.label)

key_leb_trans : (a b c : SortKey) → key_leb a b ≡ true → key_leb b c ≡ true → key_leb a c ≡ true
unfolding key_leb
key_leb_trans a b c h k = ground (arith, text_leb_trans a.label b.label c.label)

key_leb_antisym : (a b : SortKey) → key_leb a b ≡ true → key_leb b a ≡ true → a ≡ b
unfolding key_leb
key_leb_antisym a b h k =
    let times : a.occurred_at ≡ b.occurred_at = ground arith in
    let ranks : a.rank ≡ b.rank = ground arith in
    let labels : (text_leb a.label b.label ≡ true) × (text_leb b.label a.label ≡ true) =
      (ground arith, ground arith) in
    cc (times, ranks, text_leb_antisym a.label b.label labels.0 labels.1)

-- Earlier events come first, and at one instant the source of the lower rank.
abbrev pub is_earlier : TimelineEvent → TimelineEvent → Bool
is_earlier a b =
    ltb a.occurred_at b.occurred_at
    || (a.occurred_at == b.occurred_at && leb (source_rank a.source) (source_rank b.source))

comes_before-is_earlier : (a b : TimelineEvent) → comes_before a b ≡ true → is_earlier a b ≡ true
unfolding key_leb
comes_before-is_earlier a b h = ground arith

-- The timeline is the events that were collected, by time and at one instant by source, and its keys do
-- not depend on the order in which the tables returned their rows.
pub merged_lem :
    (events others : List TimelineEvent)
    → Reordered events others
    → Reordered (merged events) events
      × IsOrdered is_earlier (merged events)
      × (map sort_key (merged events) ≡ map sort_key (merged others))
unfolding merged
merged_lem events others same = (
  sort_by-Reordered comes_before events,
  weaker-IsOrdered comes_before is_earlier comes_before-is_earlier (merged events)
      (sort_by-IsOrdered comes_before (λ a b. key_leb_total (sort_key a) (sort_key b)) events),
  map-sort_by sort_key key_leb events
      ∙ sort_by-Reordered_eq key_leb key_leb_total key_leb_trans key_leb_antisym
          (map sort_key events) (map sort_key others) (map-Reordered sort_key same)
      ∙ sym (map-sort_by sort_key key_leb others),
)
