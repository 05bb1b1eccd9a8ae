-- ===== src/StepId/Decimal.antt =====
-- The decimal text of an index: only digits, never empty, and different for different numbers.
use ironflow_go.Prelude.{
  ℕ, zero, suc, ◌+◌, ◌-◌, ◌*◌, ◌/◌, ◌%◌, ◌≤◌, ◌<◌, ◌≡◌, refl, sym, ap, ◌∙◌, ◌≢◌, [], ◌∷◌, ◌++◌,
  Text, All, arith, ltb, Bool-cases, inl, inr,
}
use ironflow_go.StepId.{itoa, itoa_fuel}

abbrev pub IsDigit : ℕ → Type 0
IsDigit c = (48 ≤ c) × (c < 58)

unfoldable pub value : ℕ → Text → ℕ
value acc [] = acc
value acc (c ∷ s) = value (acc * 10 + (c - 48)) s

value-append : (acc c : ℕ) (s : Text) → value acc (s ++ c ∷ []) ≡ value acc s * 10 + (c - 48)
unfolding value
value-append acc c [] = refl
value-append acc c (d ∷ s) = value-append (acc * 10 + (d - 48)) c s

All-append-one : (s : Text) (c : ℕ) → All IsDigit s → IsDigit c → All IsDigit (s ++ c ∷ [])
All-append-one [] c h d = (d, tt)
All-append-one (x ∷ s) c h d = (h.0, All-append-one s c h.1 d)

pub value-itoa_fuel : (f n : ℕ) → n < f → value 0 (itoa_fuel f n) ≡ n
unfolding itoa_fuel value
value-itoa_fuel zero n h = absurd (omega arith)
value-itoa_fuel (suc f) n h = elim (Bool-cases (ltb n 10)) [
  | inl small ↦ rw small (omega arith)
  | inr big ↦ rw big (
      value-append 0 (48 + n % 10) (itoa_fuel f (n / 10))
      ∙ (let ih : value 0 (itoa_fuel f (n / 10)) ≡ n / 10 =
            value-itoa_fuel f (n / 10) (ground arith) in
          omega (arith, ih)))
]

digits-itoa_fuel : (f n : ℕ) → All IsDigit (itoa_fuel f n)
unfolding itoa_fuel
digits-itoa_fuel zero n = tt
digits-itoa_fuel (suc f) n = elim (Bool-cases (ltb n 10)) [
  | inl small ↦ rw small ((omega arith, ground arith), tt)
  | inr big ↦ rw big (
      All-append-one (itoa_fuel f (n / 10)) (48 + n % 10) (digits-itoa_fuel f (n / 10))
        (omega arith, omega arith))
]

pub itoa_digits : (n : ℕ) → All IsDigit (itoa n)
unfolding itoa
itoa_digits n = digits-itoa_fuel (suc n) n

pub itoa_injective : (m n : ℕ) → itoa m ≡ itoa n → m ≡ n
unfolding itoa
itoa_injective m n h =
    sym (value-itoa_fuel (suc m) m (omega arith))
    ∙ ap (value 0) h
    ∙ value-itoa_fuel (suc n) n (omega arith)

append-one-ne-nil : (s : Text) (c : ℕ) → s ++ c ∷ [] ≢ []
append-one-ne-nil [] c h = cc
append-one-ne-nil (x ∷ s) c h = cc

pub itoa-ne-nil : (n : ℕ) → itoa n ≢ []
unfolding itoa
itoa-ne-nil n h = ground (arith, append-one-ne-nil (itoa_fuel n (n / 10)) (48 + n % 10))

pub value-itoa : (n : ℕ) → value 0 (itoa n) ≡ n
unfolding itoa
value-itoa n = value-itoa_fuel (suc n) n (omega arith)
