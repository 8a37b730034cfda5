-- ===== src/Base/Text.antt =====
-- Text: code points as a list of numbers where the program reads characters, and whitespace of a native string.
use Prim.Native.Char.{code}
use Prim.Native.Nat.{ℕ, zero, suc, ◌+◌, ◌-◌, ◌*◌, ◌/◌, ◌%◌, ◌^◌, ◌≤◌, ◌<◌}
use Prim.Native.String.{String, char_at}
use mathlib.Core.Path.{◌≡◌, refl}
use mathlib.Core.Bool.{Bool, ◌&&◌, ◌||◌}
use mathlib.Core.List.{List, [], ◌∷◌, foldl}
use native.Mathlib.Omega.{arith}
use revenue_sentinel.Base.Tests.{leb, ◌==◌, str_eq, if◌then◌else◌}
use revenue_sentinel.Base.Lists.{length, All}

abbrev pub codes : String → List ℕ
codes String.[] = []
codes (String.◌∷◌ c s) = code c ∷ codes s

-- `str.isspace` of one character: what `str.strip` removes.
abbrev pub is_space : ℕ → Bool
is_space c =
    (leb 9 c && leb c 13)
    || (leb 28 c && leb c 32)
    || c == 133
    || c == 160
    || c == 5760
    || (leb 8192 c && leb c 8202)
    || c == 8232
    || c == 8233
    || c == 8239
    || c == 8287
    || c == 12288

pub lstrip : String → String
lstrip String.[] = ""
lstrip (String.◌∷◌ c s) = let rest = lstrip s in if is_space (code c) then rest else String.◌∷◌ c s

pub rstrip : String → String
rstrip String.[] = ""
rstrip (String.◌∷◌ c s) =
    let rest = rstrip s in if is_space (code c) && str_eq rest "" then "" else String.◌∷◌ c rest

-- `str.strip`.
unfoldable pub strip : String → String
unfolding lstrip rstrip
strip s = rstrip (lstrip s)

-- `not s.strip()`.
unfoldable pub is_blank : String → Bool
unfolding strip
is_blank s = str_eq (strip s) ""

strip_test : (strip "  usr:ada \t" ≡ "usr:ada") × (strip " \n " ≡ "")
unfolding strip
strip_test = (refl, refl)

-- The digits of a number, ahead of `out`: `fuel` bounds their count.
pub emit : ℕ → ℕ → List ℕ → List ℕ
emit zero n out = out
emit (suc fuel) n out =
    let rest = emit fuel (n / 10) ((48 + n % 10) ∷ out) in if n == 0 then out else rest

-- `str(n)`. A number has at most as many digits as it counts.
unfoldable pub decimal : ℕ → List ℕ
unfolding emit
decimal n = if n == 0 then 48 ∷ [] else emit n n []

-- `int(text)`, of digits.
abbrev pub value : ℕ → List ℕ → ℕ
value = foldl (λ n c. n * 10 + (c - 48))

abbrev pub IsDigit : ℕ → Type 0
IsDigit c = (48 ≤ c) × (c ≤ 57)

value-emit : (fuel n : ℕ) (out : List ℕ) → n ≤ fuel → value 0 (emit fuel n out) ≡ value n out
unfolding emit
value-emit zero n out h = grind arith
value-emit (suc fuel) n out h = ground (arith, value-emit fuel (n / 10) ((48 + n % 10) ∷ out))

pub value-decimal : (n : ℕ) → value 0 (decimal n) ≡ n
unfolding decimal
value-decimal n = ground (arith, value-emit n n [])

emit-All : (fuel n : ℕ) (out : List ℕ) → All IsDigit out → All IsDigit (emit fuel n out)
unfolding emit
emit-All zero n out h = h
emit-All (suc fuel) n out h = ground (arith, emit-All fuel (n / 10) ((48 + n % 10) ∷ out))

pub decimal-All : (n : ℕ) → All IsDigit (decimal n)
unfolding decimal
decimal-All n = ground (arith, emit-All n n [])

-- A number below 10 ^ k has at most k digits.
length-emit : (k fuel n : ℕ) (out : List ℕ) → n < 10 ^ k → length (emit fuel n out) ≤ k + length out
unfolding emit
length-emit k zero n out h = omega arith
length-emit zero (suc fuel) n out h = ground arith
length-emit (suc k) (suc fuel) n out h =
    ground (arith, length-emit k fuel (n / 10) ((48 + n % 10) ∷ out))

pub length-decimal : (k n : ℕ) → 1 ≤ k → n < 10 ^ k → length (decimal n) ≤ k
unfolding decimal
length-decimal k n pos h = ground (arith, length-emit k n n [])

emit_grows : (fuel n : ℕ) (out : List ℕ) → length out ≤ length (emit fuel n out)
unfolding emit
emit_grows zero n out = omega arith
emit_grows (suc fuel) n out = ground (arith, emit_grows fuel (n / 10) ((48 + n % 10) ∷ out))

pub one-le-length-decimal : (n : ℕ) → 1 ≤ length (decimal n)
unfolding decimal emit
one-le-length-decimal zero = omega arith
one-le-length-decimal (suc n) = ground (arith, emit_grows n (suc n / 10) ((48 + suc n % 10) ∷ []))

-- The printable characters of ASCII, from 32 on.
abbrev printable : String
printable =
    " !\"#$%&'()*+,-./0123456789:;<=>?@ABCDEFGHIJKLMNOPQRSTUVWXYZ[\\]^_`abcdefghijklmnopqrstuvwxyz{|}~"

-- The native string of code points, all printable ones of ASCII.
unfoldable pub text_of : List ℕ → String
text_of [] = ""
text_of (c ∷ cs) = String.◌∷◌ (char_at printable (c - 32)) (text_of cs)

text_of_test : text_of (codes "INC-001") ≡ "INC-001"
unfolding text_of
text_of_test = refl
