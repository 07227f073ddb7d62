-- ===== src/Log/Decimal.antt =====
-- The decimal digits that are put.
use mathlib.Core.List.{reverse, reverse-reverse}
use pinion.Prelude.{
  List, ℕ, ◌∷◌, ◌<◌, ◌-◌, ◌^◌, ◌≡◌, ◌+◌, arith, Bool-cases, ◌*◌, [], ◌==◌, inl, ◌/◌, inr, zero,
  subst, sym, ◌≤◌, ◌⊎◌, refl, ltb, ◌%◌, ap, ◌∙◌,
}
use native.Mathlib.Nat.{pow-suc}
use pinion.Log.{fill, putd, suc, digit}

-- The number that decimal digits stand for, the last digit first.
pub value : List ℕ → ℕ
value [] = 0
value (c ∷ cs) = (c - b'0') + 10 * value cs

value-fill : (n x : ℕ) → x < 10 ^ n → value (fill n x) ≡ x
unfolding value fill
value-fill zero x small = omega arith
value-fill (suc n) x small =
    let below : x / 10 < 10 ^ n =
      let step : x < 10 ^ n * 10 = subst (λ m. x < m) (pow-suc 10 n) small in omega arith in
    ground (arith, value-fill n (x / 10) below)

-- A decimal digit.
abbrev pub Digit : ℕ → Type 0
Digit c = (b'0' ≤ c) × (c ≤ b'9')

-- Decimal digits, the last one first, of which the first one is not 0.
abbrev pub Led : List ℕ → Type 0
Led [] = ⊥
Led (c ∷ []) = (b'1' ≤ c) × (c ≤ b'9')
Led (c ∷ d ∷ cs) = Digit c × Led (d ∷ cs)

-- The digits of a number without a leading 0, the last one first; 0 has the digit 0.
abbrev pub Numeral : ℕ → List ℕ → Type 0
Numeral n cs = (value cs ≡ n) × ((cs ≡ b'0' ∷ []) ⊎ Led cs)

Led-cons : (c : ℕ) (cs : List ℕ) → Digit c → Led cs → Led (c ∷ cs)
Led-cons c [] d led = absurd led
Led-cons c (e ∷ cs) d led = (d, led)

fill_zero : (n : ℕ) → fill n 0 ≡ []
unfolding fill
fill_zero zero = refl
fill_zero (suc n) = refl

fill-suc : (n x : ℕ) → 0 < x → fill (suc n) x ≡ digit (x % 10) ∷ fill n (x / 10)
unfolding fill
fill-suc n x pos = ground arith

digit-Digit : (x : ℕ) → Digit (digit (x % 10))
digit-Digit x = (ground arith, ground arith)

fill-Led : (n x : ℕ) → 0 < x → x < 10 ^ n → Led (fill n x)
fill-Led zero x pos small = absurd (omega arith)
fill-Led (suc n) x pos small =
    let below : x / 10 < 10 ^ n =
      let step : x < 10 ^ n * 10 = subst (λ m. x < m) (pow-suc 10 n) small in omega arith in
    subst Led (sym (fill-suc n x pos)) (elim (Bool-cases (ltb x 10)) [
      | inl one ↦
          subst (λ cs. Led (digit (x % 10) ∷ cs)) (sym (ap (fill n) (ground arith) ∙ fill_zero n))
            (ground arith, ground arith)
      | inr more ↦
          Led-cons (digit (x % 10)) (fill n (x / 10)) (digit-Digit x)
            (fill-Led n (x / 10) (ground arith) below)
    ])

-- The decimal digits that logputd prints for a number below 2^31 stand for this number.
value-putd : (x : ℕ) → x < 2 ^ 31 → value (reverse (putd x)) ≡ x
unfolding putd value
value-putd x small = elim (Bool-cases (x == 0)) [
  | inl z ↦ rw z (ground arith)
  | inr n ↦ rw (n, reverse-reverse (fill 10 x)) (value-fill 10 x (omega arith))
]

-- They are its decimal digits without a leading 0.
pub putd-Numeral : (x : ℕ) → x < 2 ^ 31 → Numeral x (reverse (putd x))
unfolding putd
putd-Numeral x small = (
  value-putd x small,
  elim (Bool-cases (x == 0)) [
    | inl z ↦ inl (rw z refl)
    | inr n ↦ inr (rw (n, reverse-reverse (fill 10 x)) (fill-Led 10 x (ground arith) (omega arith)))
  ],
)
