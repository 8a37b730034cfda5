-- ===== src/Examples/Refs.antt =====
-- Business references at concrete inputs.
use revenue_sentinel.Base.{ok, ◌≡◌, refl, arith, ◌∷◌, ◌++◌}
use revenue_sentinel.Base.Int.{pos}
use revenue_sentinel.Base.Text.{codes, decimal}
use revenue_sentinel.Core.Refs.{format_ref, parse_ref, padded, account_ref, ref_match}
use revenue_sentinel.Core.Refs.RoundTrip.{parse_ref-format_ref}

account_ref_test : account_ref (pos 1001) ≡ ok (codes "ACC-1001")
unfolding account_ref format_ref padded ref_match decimal
account_ref_test = refl

-- A newline at the end passes.
newline_test : parse_ref (codes "INC-001\n") ≡ ok (codes "INC", 1)
unfolding parse_ref ref_match
newline_test = refl

parse_ref-format_ref_example :
    (format_ref (codes "INC") (pos 7) 3 ≡ ok (codes "INC" ++ 45 ∷ padded 7 3))
    × (parse_ref (codes "INC" ++ 45 ∷ padded 7 3) ≡ ok (codes "INC", 7))
parse_ref-format_ref_example =
    parse_ref-format_ref (codes "INC") 7 3 (refl, (refl, (refl, tt))) (omega arith) (omega arith)
      (omega arith) (omega arith)
