-- ===== src/Flags/Numbers.antt =====
-- strconv.ParseInt, with base 10 (strconv.Atoi) and with base 0, which package flag uses: the base
-- is told by a prefix, and underscores may stand between digits. An int has 64 bits.
pub mod RoundTrip
use jobs.Prelude.{
  Text, ℕ, zero, suc, ℤ, pos, negsuc, ◌+◌, ◌-◌, ◌*◌, ◌^◌, ◌==◌, ltb, leb, Bool, true, false, ◌&&◌,
  ◌||◌, List, [], ◌∷◌, Option, none, some, if◌then◌else◌,
}

abbrev pub is_digit : ℕ → Bool
is_digit c = leb b'0' c && leb c b'9'

-- The value of a digit or a letter.
abbrev pub digit_value : ℕ → Option ℕ
digit_value c =
    if is_digit c
    then some (c - 48)
    else (if leb b'a' c && leb c b'z'
        then some (c - 87)
        else (if leb b'A' c && leb c b'Z' then some (c - 55) else none))

-- The digits of a base, after the number read so far. In base 0 an underscore is passed over.
unfoldable pub parse_digits : Bool → ℕ → ℕ → Text → Option ℕ
parse_digits underscores base acc [] = some acc
parse_digits underscores base acc (c ∷ s) =
    let skip = parse_digits underscores base acc s in
    let read = λ (d : ℕ). parse_digits underscores base (acc * base + d) s in
    if underscores && (c == b'_')
    then skip
    else elim (digit_value c) [ none ↦ none | some d ↦ if ltb d base then read d else none ]

-- The base that the prefix tells, and what is left.
abbrev letter_base : ℕ → Option ℕ
letter_base c =
    if (c == b'b') || (c == b'B')
    then some 2
    else (if (c == b'o') || (c == b'O')
        then some 8
        else (if (c == b'x') || (c == b'X') then some 16 else none))

abbrev pub base_prefix : Text → ℕ × Text
base_prefix [] = (10, [])
base_prefix (c ∷ []) = if c == b'0' then (8, []) else (10, c ∷ [])
base_prefix (c ∷ d ∷ []) = if c == b'0' then (8, d ∷ []) else (10, c ∷ d ∷ [])
base_prefix (c ∷ d ∷ e ∷ s) =
    if c == b'0'
    then (elim (letter_base d) [ none ↦ (8, d ∷ e ∷ s) | some b ↦ (b, e ∷ s) ])
    else (10, c ∷ d ∷ e ∷ s)

abbrev pub has_underscore : Text → Bool
has_underscore [] = false
has_underscore (c ∷ s) = (c == b'_') || has_underscore s

-- What underscoreOK saw last: nothing yet, a digit or a prefix, an underscore, another character.
pub data Seen : Type 0 where
  nothing digit underscore other : Seen

abbrev see : Bool → ℕ → Bool
see hex c = is_digit c || (hex && ((leb b'a' c && leb c b'f') || (leb b'A' c && leb c b'F')))

abbrev after_underscore : Seen → Bool
after_underscore underscore = true
after_underscore _ = false

abbrev after_digit : Seen → Bool
after_digit digit = true
after_digit _ = false

abbrev underscores_from : Bool → Seen → Text → Bool
underscores_from hex saw [] = if after_underscore saw then false else true
underscores_from hex saw (c ∷ s) =
    let digits = underscores_from hex digit s in
    let under = underscores_from hex underscore s in
    let more = underscores_from hex other s in
    if see hex c
    then digits
    else (if c == b'_'
        then (if after_digit saw then under else false)
        else (if after_underscore saw then false else more))

abbrev underscore_ok : Text → Bool
underscore_ok (c ∷ d ∷ s) =
    if c == b'0'
    then (elim (letter_base d) [
      | none ↦ underscores_from false nothing (c ∷ d ∷ s)
      | some b ↦ underscores_from (b == 16) digit s
    ])
    else underscores_from false nothing (c ∷ d ∷ s)
underscore_ok s = underscores_from false nothing s

-- strconv.ParseUint in base 0, without the bound.
abbrev pub parse_uint0 : Text → Option ℕ
parse_uint0 [] = none
parse_uint0 (c ∷ s) =
    let (base, digits) = base_prefix (c ∷ s) in
    if has_underscore (c ∷ s) && (if underscore_ok (c ∷ s) then false else true)
    then none
    else parse_digits true base 0 digits

abbrev pub parse_uint10 : Text → Option ℕ
parse_uint10 [] = none
parse_uint10 (c ∷ s) = parse_digits false 10 0 (c ∷ s)

-- The bounds of an int.
abbrev negate : ℕ → ℤ
negate zero = pos 0
negate (suc n) = negsuc n

abbrev signed : Bool → Option ℕ → Option ℤ
signed minus none = none
signed false (some n) = if ltb n (2 ^ 63) then some (pos n) else none
signed true (some n) = if leb n (2 ^ 63) then some (negate n) else none

abbrev pub with_sign : (Text → Option ℕ) → Text → Option ℤ
with_sign uint [] = none
with_sign uint (c ∷ s) =
    if c == b'+'
    then signed false (uint s)
    else (if c == b'-' then signed true (uint s) else signed false (uint (c ∷ s)))

-- strconv.ParseInt(s, 0, 64)
unfoldable pub parse_int0 : Text → Option ℤ
unfolding parse_digits
parse_int0 s = with_sign parse_uint0 s

-- strconv.Atoi
unfoldable pub atoi : Text → Option ℤ
unfolding parse_digits
atoi s = with_sign parse_uint10 s
