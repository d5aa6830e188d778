-- ===== src/Effects/Decimal.antt =====
-- Decimal numerals: strconv.FormatInt and strconv.Itoa in base 10.
use jobs.Prelude.{
  Text, ℕ, zero, suc, ℤ, pos, negsuc, ◌+◌, ◌-◌, ◌*◌, ◌/◌, ◌%◌, ◌<◌, ◌≤◌, ltb, List, [], ◌∷◌, ◌++◌,
  All, ◌≡◌, refl, ◌∙◌, arith, if◌then◌else◌, Bool-cases, inl, inr, ltb-false,
}

-- The digits of n, given as many rounds as n + 1.
decimal_rounds : ℕ → ℕ → Text
decimal_rounds zero n = []
decimal_rounds (suc f) n =
    let rest = decimal_rounds f (n / 10) in
    if ltb n 10 then (48 + n) ∷ [] else rest ++ (48 + n % 10) ∷ []

unfoldable pub decimal : ℕ → Text
unfolding decimal_rounds
decimal n = decimal_rounds (suc n) n

-- strconv.Itoa
unfoldable pub format_int : ℤ → Text
unfolding decimal
format_int (pos n) = decimal n
format_int (negsuc n) = b'-' ∷ decimal (suc n)

-- The number that a text of digits stands for.
unfoldable pub numeral_value : ℕ → Text → ℕ
numeral_value acc [] = acc
numeral_value acc (d ∷ ds) = numeral_value (acc * 10 + (d - 48)) ds

numeral_value-append :
    (acc : ℕ) (s : Text) (d : ℕ)
    → numeral_value acc (s ++ d ∷ []) ≡ numeral_value acc s * 10 + (d - 48)
unfolding numeral_value
numeral_value-append acc [] d = refl
numeral_value-append acc (c ∷ s) d = numeral_value-append (acc * 10 + (c - 48)) s d

numeral_value-decimal_rounds : (f n : ℕ) → n < f → numeral_value 0 (decimal_rounds f n) ≡ n
unfolding decimal_rounds
numeral_value-decimal_rounds zero n h = absurd (omega arith)
numeral_value-decimal_rounds (suc f) n h = elim (Bool-cases (ltb n 10)) [
  | inl small ↦ rw small (unfold numeral_value in omega arith)
  | inr large ↦ rw large (
      numeral_value-append 0 (decimal_rounds f (n / 10)) (48 + n % 10)
      ∙ omega (
        arith,
        numeral_value-decimal_rounds f (n / 10) (omega (arith, ltb-false n 10 large)),
        ltb-false n 10 large,
      ))
]

-- A number is read back from its digits.
pub numeral_value-decimal : (n : ℕ) → numeral_value 0 (decimal n) ≡ n
unfolding decimal
numeral_value-decimal n = numeral_value-decimal_rounds (suc n) n (omega arith)

abbrev pub IsDigit : ℕ → Type 0
IsDigit c = (48 ≤ c) × (c ≤ 57)

All-append {ℓ} :
    {A : Type ℓ} (P : A → Type 0) (xs ys : List A) → All P xs → All P ys → All P (xs ++ ys)
All-append P [] ys p q = q
All-append P (x ∷ xs) ys p q = (p.0, All-append P xs ys p.1 q)

decimal_rounds-IsDigit : (f n : ℕ) → All IsDigit (decimal_rounds f n)
unfolding decimal_rounds
decimal_rounds-IsDigit zero n = tt
decimal_rounds-IsDigit (suc f) n = elim (Bool-cases (ltb n 10)) [
  | inl small ↦ rw small (ground arith)
  | inr large ↦ rw large (
      All-append IsDigit (decimal_rounds f (n / 10)) _ (decimal_rounds-IsDigit f (n / 10))
        (ground arith))
]

-- A numeral has digits only.
pub decimal-IsDigit : (n : ℕ) → All IsDigit (decimal n)
unfolding decimal
decimal-IsDigit n = decimal_rounds-IsDigit (suc n) n

-- The first digit is not zero.
abbrev pub Leads : Text → Type 0
Leads s = (c : ℕ) × (t : Text) × (s ≡ c ∷ t) × (49 ≤ c) × (c ≤ 57)

decimal_rounds-Leads : (f n : ℕ) → n < f → 0 < n → Leads (decimal_rounds f n)
unfolding decimal_rounds
decimal_rounds-Leads zero n h p = absurd (omega arith)
decimal_rounds-Leads (suc f) n h p = elim (Bool-cases (ltb n 10)) [
  | inl small ↦ rw small (48 + n, [], refl, omega arith, ground arith)
  | inr large ↦
      let (c, t, e, lo, hi) =
        decimal_rounds-Leads f (n / 10) (omega (arith, ltb-false n 10 large))
          (omega (arith, ltb-false n 10 large)) in
      rw large (c, t ++ (48 + n % 10) ∷ [], rw e refl, lo, hi)
]

-- A numeral of a number above zero does not start with a zero.
pub decimal-Leads : (n : ℕ) → 0 < n → Leads (decimal n)
unfolding decimal
decimal-Leads n p = decimal_rounds-Leads (suc n) n (omega arith) p
