-- ===== src/Commands/Decimals.antt =====
-- The decimal digits of a number, read back.
use distributed_event_bus.Prelude.{
  ℕ, zero, suc, ◌+◌, ◌-◌, ◌*◌, ◌/◌, ◌%◌, ◌≤◌, ◌≡◌, refl, ap, ◌∙◌, inl, inr, true, false, [], ◌∷◌,
  ◌++◌, Text, ltb, arith, Bool-cases, All,
}
use distributed_event_bus.Server.Failures.{digits}

-- The number that a text of digits stands for, behind digits that stand for the first argument.
abbrev pub value : ℕ → Text → ℕ
value front [] = front
value front (b ∷ bs) = value (front * 10 + (b - 48)) bs

abbrev pub IsDigit : ℕ → Type 0
IsDigit b = (48 ≤ b) × (b ≤ 57)

-- The text is a decimal numeral of the number.
pub record IsDecimal (text : Text) (n : ℕ) : Type 0 where
  pub means : value 0 text ≡ n
  pub only_digits : All IsDigit text

value-append : (front : ℕ) (xs ys : Text) → value front (xs ++ ys) ≡ value (value front xs) ys
value-append front [] ys = refl
value-append front (x ∷ xs) ys = value-append (front * 10 + (x - 48)) xs ys

All-snoc : (xs : Text) (b : ℕ) → All IsDigit xs → IsDigit b → All IsDigit (xs ++ (b ∷ []))
All-snoc [] b h d = (d, tt)
All-snoc (x ∷ xs) b h d = (h.0, All-snoc xs b h.1 d)

digits_small : (fuel n : ℕ) → ltb n 10 ≡ true → digits (suc fuel) n ≡ (48 + n) ∷ []
unfolding digits
digits_small fuel n h = rw h refl

digits_more :
    (fuel n : ℕ)
    → ltb n 10 ≡ false
    → digits (suc fuel) n ≡ digits fuel (n / 10) ++ ((48 + n % 10) ∷ [])
unfolding digits
digits_more fuel n h = rw h refl

pub digits-IsDecimal : (fuel n : ℕ) → n ≤ fuel → IsDecimal (digits fuel n) n
digits-IsDecimal zero n h =
    unfold digits in record { means = omega arith; only_digits = ((omega arith, omega arith), tt) }
digits-IsDecimal (suc fuel) n h = elim (Bool-cases (ltb n 10)) [
  | inl small ↦
      rw (digits_small fuel n small)
        (record { means = omega arith; only_digits = ((omega arith, ground arith), tt) })
  | inr more ↦
      let big : 10 ≤ n = ground arith in
      let k = digits-IsDecimal fuel (n / 10) (omega arith) in
      rw (digits_more fuel n more) (record {
        means =
            value-append 0 (digits fuel (n / 10)) ((48 + n % 10) ∷ [])
            ∙ ap (λ x. x * 10 + ((48 + n % 10) - 48)) k.means
            ∙ omega arith;
        only_digits =
            All-snoc (digits fuel (n / 10)) (48 + n % 10) k.only_digits (omega arith, omega arith);
      })
]
