-- ===== src/Core/Refs.antt =====
-- src/revenue_sentinel/core/ids.py: business references such as ACC-1001.
--
-- A reference is its list of code points. The regular expression of the module is its two runs of
-- characters, since no letter is a dash and no digit ends a text. `$` also matches ahead of a last newline.
pub mod RoundTrip
use revenue_sentinel.Base.{
  ℕ, zero, suc, ◌+◌, ◌-◌, ◌*◌, ◌/◌, ◌%◌, ◌^◌, ◌≤◌, ◌<◌, Bool, true, false, not, ◌&&◌, ◌||◌, List,
  [], ◌∷◌, ◌++◌, Option, none, some, Result, ok, err, ◌>>=◌, ◌≡◌, refl, arith, leb, ltb, ◌==◌,
  if◌then◌else◌, All, length, length-append,
}
use revenue_sentinel.Base.Int.{ℤ, pos, negsuc}
use revenue_sentinel.Base.Text.{
  codes, decimal, value, IsDigit, value-decimal, decimal-All, length-decimal,
}

-- `DomainValidationError`, by what it reports.
pub data RefError : Type 0 where
  negative_number : RefError
  malformed : RefError

abbrev pub is_upper : ℕ → Bool
is_upper c = leb 65 c && leb c 90

abbrev pub is_digit : ℕ → Bool
is_digit c = leb 48 c && leb c 57

-- The longest run of characters of a class, and the rest.
pub run : (ℕ → Bool) → List ℕ → List ℕ × List ℕ
run class [] = ([], [])
run class (c ∷ text) =
    let (matched, rest) = run class text in if class c then (c ∷ matched, rest) else ([], c ∷ text)

-- `$`, with no flag.
at_end : List ℕ → Bool
at_end [] = true
at_end (c ∷ []) = c == 10
at_end (c ∷ d ∷ text) = false

number_match : List ℕ → List ℕ × List ℕ → Option (List ℕ × List ℕ)
unfolding at_end
number_match prefix (number, rest) =
    if leb 1 (length number) && leb (length number) 6 && at_end rest
    then some (prefix, number)
    else none

prefix_match : List ℕ × List ℕ → Option (List ℕ × List ℕ)
unfolding number_match run
prefix_match (prefix, []) = none
prefix_match (prefix, c ∷ rest) =
    if leb 2 (length prefix) && leb (length prefix) 4 && c == 45
    then number_match prefix (run is_digit rest)
    else none

-- `REF_PATTERN.match`: the groups `prefix` and `number`.
unfoldable pub ref_match : List ℕ → Option (List ℕ × List ℕ)
unfolding prefix_match run
ref_match ref = prefix_match (run is_upper ref)

zeros : ℕ → List ℕ
zeros zero = []
zeros (suc n) = 48 ∷ zeros n

-- `{number:0{width}d}`.
unfoldable pub padded : ℕ → ℕ → List ℕ
unfolding zeros
padded number width = let digits = decimal number in zeros (width - length digits) ++ digits

matched_or_malformed : List ℕ → Option (List ℕ × List ℕ) → Result RefError (List ℕ)
matched_or_malformed ref none = err malformed
matched_or_malformed ref (some groups) = ok ref

unfoldable pub format_ref : List ℕ → ℤ → ℕ → Result RefError (List ℕ)
unfolding matched_or_malformed
format_ref prefix (negsuc n) width = err negative_number
format_ref prefix (pos n) width =
    let ref = prefix ++ 45 ∷ padded n width in matched_or_malformed ref (ref_match ref)

groups_of : Option (List ℕ × List ℕ) → Result RefError (List ℕ × ℕ)
groups_of none = err malformed
groups_of (some (prefix, number)) = ok (prefix, value 0 number)

unfoldable pub parse_ref : List ℕ → Result RefError (List ℕ × ℕ)
unfolding groups_of
parse_ref ref = groups_of (ref_match ref)

unfoldable pub account_ref : ℤ → Result RefError (List ℕ)
account_ref number = format_ref (codes "ACC") number 4

unfoldable pub opportunity_ref : ℤ → Result RefError (List ℕ)
opportunity_ref number = format_ref (codes "OPP") number 4

unfoldable pub incident_ref : ℤ → Result RefError (List ℕ)
incident_ref number = format_ref (codes "INC") number 3

unfoldable pub evidence_ref : ℤ → Result RefError (List ℕ)
evidence_ref number = format_ref (codes "EV") number 3

unfoldable pub hypothesis_ref : ℤ → Result RefError (List ℕ)
hypothesis_ref number = format_ref (codes "HYP") number 3

incident_ref_test : incident_ref (pos 7) ≡ ok (codes "INC-007")
unfolding incident_ref format_ref ref_match padded decimal
incident_ref_test = refl
