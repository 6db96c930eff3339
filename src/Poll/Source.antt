-- ===== src/Poll/Source.antt =====
-- The digits of an issue number in the source of a row, as src/robot_army/poll.py writes it.
use robot_army.Base.{
  ℕ, zero, suc, ◌<◌, ◌/◌, ◌%◌, ltb, ◌≡◌, refl, ap, false, Bool-cases, inl, inr, arith,
}
use robot_army.Base.{append, digit, digits}

quotient_below : (n f : ℕ) → ltb n 10 ≡ false → n < suc f → n / 10 < f
quotient_below n f big h = ground (arith, big, h)

-- The digits of a number do not depend on the fuel, once it is larger than the number.
pub digits_enough : (f g n : ℕ) → n < f → n < g → digits f n ≡ digits g n
unfolding digits
digits_enough zero g n h k = absurd (omega (arith, h))
digits_enough (suc f) zero n h k = absurd (omega (arith, k))
digits_enough (suc f) (suc g) n h k = elim (Bool-cases (ltb n 10)) [
  | inl small' ↦ rw (small', digits) refl
  | inr big' ↦
      rw (big', digits)
        (ap (λ t. append t (digit (n % 10)))
          (digits_enough f g (n / 10) (quotient_below n f big' h) (quotient_below n g big' k)))
]
