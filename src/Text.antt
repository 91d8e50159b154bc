-- ===== src/Text.antt =====
-- The methods of Python's `str` that the gateway uses, on texts as lists of code points.
use Prim.Native.Char.{code}
use Prim.Native.String.{String}
use Prim.Native.String
use Prim.Native.Nat.{◌%◌}
use llm_inference_gpu_server.Common.{
  ap, ℕ, zero, suc, ◌+◌, ◌-◌, ◌*◌, ◌/◌, ◌≤◌, ◌≡◌, ◌↔◌, inl, inr, Bool-cases, ltb, Option, none,
  some, Bool, true, false, ◌&&◌, ◌||◌, List, [], ◌∷◌, ◌++◌, refl, arith, ◌==◌, leb, if◌then◌else◌,
}
use mathlib.Core.Option
use llm_inference_gpu_server.Common.Int.{ℤ, pos, negsuc}

abbrev pub Text : Type 0
Text = List ℕ

abbrev pub codes : String → Text
codes String.[] = []
codes (String.◌∷◌ c s) = code c ∷ codes s

unfoldable pub text_eq : Text → Text → Bool
text_eq [] [] = true
text_eq (a ∷ s) (b ∷ t) = let rest = text_eq s t in if a == b then rest else false
text_eq _ _ = false

pub text_eq_iff : (s t : Text) → (text_eq s t ≡ true) ↔ (s ≡ t)
unfolding text_eq
text_eq_iff [] [] = ground arith
text_eq_iff [] (b ∷ t) = ground arith
text_eq_iff (a ∷ s) [] = ground arith
text_eq_iff (a ∷ s) (b ∷ t) = ground (arith, text_eq_iff s t)

-- `str.lower` on the letters of ASCII. Of the letters outside ASCII only two have a lower case with
-- an ASCII letter in it (`k`, and `i` before a combining dot).
unfoldable pub lower : Text → Text
lower [] = []
lower (c ∷ s) = (if leb b'A' c && leb c b'Z' then c + 32 else c) ∷ lower s

-- `str.isspace` on one character.
abbrev pub is_space : ℕ → Bool
is_space c =
    (leb 9 c && leb c 13)
    || (leb 28 c && leb c 32)
    || (c == 133)
    || (c == 160)
    || (c == 5760)
    || (leb 8192 c && leb c 8202)
    || (c == 8232)
    || (c == 8233)
    || (c == 8239)
    || (c == 8287)
    || (c == 12288)

unfoldable pub lstrip : Text → Text
lstrip [] = []
lstrip (c ∷ s) = let rest = lstrip s in if is_space c then rest else c ∷ s

unfoldable pub rstrip : Text → Text
rstrip [] = []
rstrip (c ∷ s) = after_space c (rstrip s)
  where
    after_space : ℕ → Text → Text
    after_space c [] = if is_space c then [] else c ∷ []
    after_space c (d ∷ t) = c ∷ d ∷ t

-- `str.strip`
unfoldable pub strip : Text → Text
strip s = rstrip (lstrip s)

abbrev pub is_digit : ℕ → Bool
is_digit c = leb b'0' c && leb c b'9'

-- The digits of `int(s)`, with `_` between two of them.
unfoldable pub parse_digits : ℕ → Bool → Text → Option ℕ
parse_digits value after_digit [] = if after_digit then some value else none
parse_digits value after_digit (c ∷ s) =
    let next = parse_digits (value * 10 + (c - 48)) true s in
    let gap = parse_digits value false s in
    if is_digit c then next else if c == b'_' && after_digit then gap else none

abbrev negated : ℕ → ℤ
negated zero = pos 0
negated (suc n) = negsuc n

-- `int(s)`, `none` where it raises, on texts without digits outside ASCII and shorter than the
-- limit of 4300 digits.
unfoldable pub parse_int : Text → Option ℤ
parse_int s = signed (strip s)
  where
    signed : Text → Option ℤ
    signed [] = none
    signed (c ∷ s) =
        if c == b'-'
        then Option.map negated (parse_digits 0 false s)
        else if c == b'+'
        then Option.map pos (parse_digits 0 false s)
        else Option.map pos (parse_digits 0 false (c ∷ s))

-- `s.startswith(prefix)` with what follows the prefix.
unfoldable pub after_prefix : Text → Text → Option Text
after_prefix [] s = some s
after_prefix (p ∷ prefix) [] = none
after_prefix (p ∷ prefix) (c ∷ s) =
    let rest = after_prefix prefix s in if p == c then rest else none

pub after_prefix_lem : (prefix s : Text) → after_prefix prefix (prefix ++ s) ≡ some s
unfolding after_prefix
after_prefix_lem [] s = refl
after_prefix_lem (p ∷ prefix) s = ground (arith, after_prefix_lem prefix s)

abbrev pub at : List String → ℕ → String
at [] i = ""
at (x ∷ xs) zero = x
at (x ∷ xs) (suc i) = at xs i

abbrev pub digit : ℕ → String
digit n = at ("0" ∷ "1" ∷ "2" ∷ "3" ∷ "4" ∷ "5" ∷ "6" ∷ "7" ∷ "8" ∷ "9" ∷ []) n

-- The digits of a number, on fuel for the number of its digits.
unfoldable pub decimal_from : ℕ → ℕ → String
decimal_from zero n = ""
decimal_from (suc fuel) n =
    let rest = decimal_from fuel (n / 10) in
    if ltb n 10 then digit n else String.◌++◌ rest (digit (n % 10))

-- `str(n)`
unfoldable pub decimal : ℕ → String
decimal n = decimal_from (suc n) n

-- More fuel changes nothing.
decimal_from-fuel : (f g n : ℕ) → suc n ≤ f → suc n ≤ g → decimal_from f n ≡ decimal_from g n
unfolding decimal_from
decimal_from-fuel zero g n h k = absurd (omega arith)
decimal_from-fuel (suc f) zero n h k = absurd (omega arith)
decimal_from-fuel (suc f) (suc g) n h k = elim (Bool-cases (ltb n 10)) [
  | inl e ↦ rw e refl
  | inr e ↦ rw (e, decimal_from-fuel f g (n / 10) (ground arith) (ground arith)) refl
]

pub decimal_lem : (n : ℕ) → 10 ≤ n → decimal n ≡ String.◌++◌ (decimal (n / 10)) (digit (n % 10))
unfolding decimal decimal_from
decimal_lem n h =
    rw (ltb_false n h, decimal_from-fuel n (suc (n / 10)) (n / 10) (ground arith) (ground arith))
      refl
  where
    ltb_false : (n : ℕ) → 10 ≤ n → ltb n 10 ≡ false
    ltb_false n h = ground arith

abbrev is_some : Option Text → Bool
is_some none = false
is_some (some s) = true

-- `part in s`
unfoldable pub contains : Text → Text → Bool
contains part [] = text_eq part []
contains part (c ∷ s) =
    let rest = contains part s in if is_some (after_prefix part (c ∷ s)) then true else rest

-- `s[:n]`
unfoldable pub take_str : ℕ → String → String
take_str zero s = String.[]
take_str (suc n) String.[] = String.[]
take_str (suc n) (String.◌∷◌ c s) = String.◌∷◌ c (take_str n s)

pub take_str_twice : (n : ℕ) (s : String) → take_str n (take_str n s) ≡ take_str n s
unfolding take_str
take_str_twice zero s = refl
take_str_twice (suc n) String.[] = refl
take_str_twice (suc n) (String.◌∷◌ c s) = ap (String.◌∷◌ c) (take_str_twice n s)
