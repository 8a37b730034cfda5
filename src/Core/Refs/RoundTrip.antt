-- ===== src/Core/Refs/RoundTrip.antt =====
-- A business reference that is rendered is read back as its prefix and number.
use revenue_sentinel.Base.{
  ℕ, zero, suc, ◌-◌, ◌≤◌, Bool, true, false, List, [], ◌∷◌, ◌++◌, some, ok, ◌≡◌, refl, ◌∙◌, arith,
  All, length, length-append,
}
use revenue_sentinel.Base.Int.{pos}
use revenue_sentinel.Base.Text.{
  decimal, value, IsDigit, value-decimal, decimal-All, length-decimal, one-le-length-decimal,
}
use revenue_sentinel.Core.Refs.{
  is_upper, is_digit, run, ref_match, zeros, padded, format_ref, parse_ref,
}

-- A run ends at the first character outside the class.
run_stop :
    (class : ℕ → Bool) (xs : List ℕ) (c : ℕ) (rest : List ℕ)
    → All (λ x. class x ≡ true) xs
    → class c ≡ false
    → run class (xs ++ c ∷ rest) ≡ (xs, c ∷ rest)
unfolding run
run_stop class [] c rest h stop = rw stop refl
run_stop class (x ∷ xs) c rest h stop = rw (run_stop class xs c rest h.1 stop, h.0) refl

run_all : (class : ℕ → Bool) (xs : List ℕ) → All (λ x. class x ≡ true) xs → run class xs ≡ (xs, [])
unfolding run
run_all class [] h = refl
run_all class (x ∷ xs) h = rw (run_all class xs h.1, h.0) refl

zeros-digits : (n : ℕ) (xs : List ℕ) → All IsDigit xs → All (λ x. is_digit x ≡ true) (zeros n ++ xs)
unfolding zeros
zeros-digits zero [] h = tt
zeros-digits zero (x ∷ xs) h = (grind arith, zeros-digits zero xs h.1)
zeros-digits (suc n) xs h = (refl, zeros-digits n xs h)

value-zeros : (n : ℕ) (xs : List ℕ) → value 0 (zeros n ++ xs) ≡ value 0 xs
unfolding zeros
value-zeros zero xs = refl
value-zeros (suc n) xs = value-zeros n xs

length-zeros : (n : ℕ) → length (zeros n) ≡ n
unfolding zeros
length-zeros zero = refl
length-zeros (suc n) = omega (arith, length-zeros n)

padded-digits : (n width : ℕ) → All (λ x. is_digit x ≡ true) (padded n width)
unfolding padded
padded-digits n width = zeros-digits (width - length (decimal n)) (decimal n) (decimal-All n)

value-padded : (n width : ℕ) → value 0 (padded n width) ≡ n
unfolding padded
value-padded n width = value-zeros (width - length (decimal n)) (decimal n) ∙ value-decimal n

length-padded :
    (n width : ℕ)
    → n ≤ 999999
    → width ≤ 6
    → (1 ≤ length (padded n width)) × (length (padded n width) ≤ 6)
unfolding padded
length-padded n width h w = grind (
  arith,
  length-append (zeros (width - length (decimal n))) (decimal n),
  length-zeros (width - length (decimal n)),
  length-decimal 6 n (omega arith) (omega arith),
  one-le-length-decimal n,
)

-- The pattern takes a rendered reference apart.
ref_match-render :
    (prefix : List ℕ) (n width : ℕ)
    → All (λ c. is_upper c ≡ true) prefix
    → 2 ≤ length prefix
    → length prefix ≤ 4
    → n ≤ 999999
    → width ≤ 6
    → ref_match (prefix ++ 45 ∷ padded n width) ≡ some (prefix, padded n width)
unfolding ref_match
ref_match-render prefix n width upper few many small narrow =
    let bounds = length-padded n width small narrow in
    let digits = run_all is_digit (padded n width) (padded-digits n width) in
    rw (run_stop is_upper prefix 45 (padded n width) upper refl, digits)
      (ground (arith, bounds.0, bounds.1))

-- A reference is rendered as the prefix, a dash and the padded number, and parsed back to the same
-- prefix and number, for a prefix of two to four capitals, a number of at most six digits, and a
-- width of at most six.
pub parse_ref-format_ref :
    (prefix : List ℕ) (n width : ℕ)
    → All (λ c. is_upper c ≡ true) prefix
    → 2 ≤ length prefix
    → length prefix ≤ 4
    → n ≤ 999999
    → width ≤ 6
    → (format_ref prefix (pos n) width ≡ ok (prefix ++ 45 ∷ padded n width))
      × (parse_ref (prefix ++ 45 ∷ padded n width) ≡ ok (prefix, n))
unfolding format_ref parse_ref
parse_ref-format_ref prefix n width upper few many small narrow =
    let groups = ref_match-render prefix n width upper few many small narrow in
    (rw groups refl, rw (groups, value-padded n width) refl)
