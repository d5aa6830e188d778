-- ===== src/Flags/Numbers/RoundTrip.antt =====
-- A number that strconv.Itoa writes is read back, in both bases.
use jobs.Prelude.{
  Text, ℕ, zero, suc, ℤ, pos, negsuc, ◌+◌, ◌-◌, ◌*◌, ◌^◌, ◌<◌, Bool, true, false, [], ◌∷◌, All,
  Option, some, ◌≡◌, ◌≢◌, refl, ◌∙◌, ap, arith,
}
use jobs.Effects.{
  decimal, format_int, numeral_value, numeral_value-decimal, IsDigit, decimal-IsDigit, Leads,
  decimal-Leads,
}
use jobs.Flags.Numbers.{
  parse_digits, has_underscore, base_prefix, parse_uint0, parse_uint10, with_sign, parse_int0, atoi,
}

-- The numbers that an int holds.
abbrev pub IsInt64 : ℤ → Type 0
IsInt64 (pos n) = n < 2 ^ 63
IsInt64 (negsuc n) = n < 2 ^ 63

parse_digits-numeral_value :
    (u : Bool) (acc : ℕ) (s : Text)
    → All IsDigit s
    → parse_digits u 10 acc s ≡ some (numeral_value acc s)
unfolding parse_digits numeral_value
parse_digits-numeral_value u acc [] h = refl
parse_digits-numeral_value u acc (c ∷ s) h =
    ground (arith, parse_digits-numeral_value u (acc * 10 + (c - 48)) s h.1)

has_underscore-digits : (s : Text) → All IsDigit s → has_underscore s ≡ false
has_underscore-digits [] h = refl
has_underscore-digits (c ∷ s) h = ground (arith, has_underscore-digits s h.1)

-- A numeral without a leading zero is in base 10.
base_prefix-Leads : (s : Text) → Leads s → base_prefix s ≡ (10, s)
base_prefix-Leads [] h = absurd (cc h.2)
base_prefix-Leads (c ∷ []) (d, t, e, lo, hi) = ground arith
base_prefix-Leads (c ∷ c' ∷ []) (d, t, e, lo, hi) = ground arith
base_prefix-Leads (c ∷ c' ∷ c'' ∷ s) (d, t, e, lo, hi) = ground arith

parse_uint0-Leads : (s : Text) → Leads s → All IsDigit s → parse_uint0 s ≡ some (numeral_value 0 s)
parse_uint0-Leads [] l h = absurd (cc l.2)
parse_uint0-Leads (c ∷ s) l h =
    rw (base_prefix-Leads (c ∷ s) l, has_underscore-digits (c ∷ s) h)
      (parse_digits-numeral_value true 0 (c ∷ s) h)

parse_uint0-decimal : (n : ℕ) → parse_uint0 (decimal n) ≡ some n
parse_uint0-decimal zero = unfold decimal parse_digits in refl
parse_uint0-decimal (suc n) =
    parse_uint0-Leads (decimal (suc n)) (decimal-Leads (suc n) (omega arith))
      (decimal-IsDigit (suc n))
    ∙ ap (λ (m : ℕ). some m) (numeral_value-decimal (suc n))

parse_uint10-digits :
    (s : Text) → s ≢ [] → All IsDigit s → parse_uint10 s ≡ some (numeral_value 0 s)
parse_uint10-digits [] e h = absurd (e refl)
parse_uint10-digits (c ∷ s) e h = parse_digits-numeral_value false 0 (c ∷ s) h

decimal-ne-nil : (n : ℕ) → decimal n ≢ []
decimal-ne-nil zero e = unfold decimal in cc
decimal-ne-nil (suc n) e = cc (decimal-Leads (suc n) (omega arith)).2

parse_uint10-decimal : (n : ℕ) → parse_uint10 (decimal n) ≡ some n
parse_uint10-decimal n =
    parse_uint10-digits (decimal n) (decimal-ne-nil n) (decimal-IsDigit n)
    ∙ ap (λ (m : ℕ). some m) (numeral_value-decimal n)

-- A text of digits has no sign.
with_sign-digits :
    (uint : Text → Option ℕ) (s : Text) (n : ℕ)
    → s ≢ []
    → All IsDigit s
    → uint s ≡ some n
    → n < 2 ^ 63
    → with_sign uint s ≡ some (pos n)
with_sign-digits uint [] n e h u b = absurd (e refl)
with_sign-digits uint (c ∷ s) n e h u b = ground arith

with_sign-format_int :
    (uint : Text → Option ℕ) (i : ℤ)
    → ((n : ℕ) → uint (decimal n) ≡ some n)
    → IsInt64 i
    → with_sign uint (format_int i) ≡ some i
unfolding format_int
with_sign-format_int uint (pos n) reads b =
    with_sign-digits uint (decimal n) n (decimal-ne-nil n) (decimal-IsDigit n) (reads n) b
with_sign-format_int uint (negsuc n) reads b = ground (arith, reads (suc n))

-- What strconv.Itoa writes of an int is read back, by package flag and by strconv.Atoi.
pub parse_int-format_int :
    (i : ℤ) → IsInt64 i → (parse_int0 (format_int i) ≡ some i) × (atoi (format_int i) ≡ some i)
unfolding parse_int0 atoi
parse_int-format_int i b = (
  with_sign-format_int parse_uint0 i parse_uint0-decimal b,
  with_sign-format_int parse_uint10 i parse_uint10-decimal b,
)
