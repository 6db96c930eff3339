-- ===== src/Base/Decimal.antt =====
-- A number is read back from its digits, and texts that are joined with the same text differ by what
-- they are joined from.
use Prim.Native.Char.{code}
use Prim.Native.Nat.{ℕ, zero, suc, ◌+◌, ◌-◌, ◌*◌, ◌/◌, ◌%◌, ◌<◌}
use Prim.Native.String.{String}
use mathlib.Core.Path.{◌≡◌, refl, sym, ap, ◌∙◌}
use mathlib.Core.Logic.{inl, inr}
use native.Mathlib.Omega.{arith}
use robot_army.Base.Tests.{ltb, Bool-cases}
use robot_army.Base.Text.{append, digit, digits}

abbrev tail : String → String
tail String.[] = String.[]
tail (String.◌∷◌ c s) = s

abbrev head : String → ℕ
head String.[] = 0
head (String.◌∷◌ c s) = code c

size : String → ℕ
size String.[] = 0
size (String.◌∷◌ c s) = suc (size s)

size-append : (s t : String) → size (append s t) ≡ size s + size t
unfolding size
size-append String.[] t = omega arith
size-append (String.◌∷◌ c s) t = omega (arith, size-append s t)

-- The number that a text of digits writes, behind the digits of `n`.
value : ℕ → String → ℕ
value n String.[] = n
value n (String.◌∷◌ c s) = value (10 * n + (code c - 48)) s

value-append : (n : ℕ) (s t : String) → value n (append s t) ≡ value (value n s) t
unfolding value
value-append n String.[] t = refl
value-append n (String.◌∷◌ c s) t = value-append (10 * n + (code c - 48)) s t

value-digit : (n d : ℕ) → d < 10 → value n (digit d) ≡ 10 * n + d
unfolding value digit
value-digit n zero h = omega arith
value-digit n (suc zero) h = refl
value-digit n (suc (suc zero)) h = refl
value-digit n (suc (suc (suc zero))) h = refl
value-digit n (suc (suc (suc (suc zero)))) h = refl
value-digit n (suc (suc (suc (suc (suc zero))))) h = refl
value-digit n (suc (suc (suc (suc (suc (suc zero)))))) h = refl
value-digit n (suc (suc (suc (suc (suc (suc (suc zero))))))) h = refl
value-digit n (suc (suc (suc (suc (suc (suc (suc (suc zero)))))))) h = refl
value-digit n (suc (suc (suc (suc (suc (suc (suc (suc (suc zero))))))))) h = refl
value-digit n (suc (suc (suc (suc (suc (suc (suc (suc (suc (suc d)))))))))) h =
    absurd (omega (arith, h))

value-digits : (fuel n : ℕ) → n < fuel → value 0 (digits fuel n) ≡ n
unfolding digits
value-digits zero n h = absurd (omega (arith, h))
value-digits (suc fuel) n h = elim (Bool-cases (ltb n 10)) [
  | inl small' ↦ rw (small', digits) (value-digit 0 n (ground (arith, small')) ∙ omega arith)
  | inr big' ↦
      rw (big', digits)
        (value-append 0 (digits fuel (n / 10)) (digit (n % 10))
          ∙ ap (λ m. value m (digit (n % 10)))
              (value-digits fuel (n / 10) (ground (arith, big', h)))
          ∙ value-digit (n / 10) (n % 10) (omega arith)
          ∙ omega arith)
]

-- What stands behind the same text is the same.
pub append_cancel : (a s t : String) → append a s ≡ append a t → s ≡ t
append_cancel String.[] s t e = e
append_cancel (String.◌∷◌ c a) s t e = append_cancel a s t (ap tail e)

-- Texts of one size that begin the same text write the same number.
value_front :
    (n : ℕ) (a b s t : String) → size a ≡ size b → append a s ≡ append b t → value n a ≡ value n b
unfolding size value
value_front n String.[] String.[] s t h e = refl
value_front n String.[] (String.◌∷◌ d b) s t h e = absurd (omega (arith, h))
value_front n (String.◌∷◌ c a) String.[] s t h e = absurd (omega (arith, h))
value_front n (String.◌∷◌ c a) (String.◌∷◌ d b) s t h e =
    let same : code c ≡ code d = ap head e in
    ap (λ x. value (10 * n + (x - 48)) a) same
    ∙ value_front (10 * n + (code d - 48)) a b s t (omega (arith, h)) (ap tail e)

-- Numbers whose digits make the same text in front of the same one are equal.
pub digits_injective :
    (i j : ℕ) (s : String) → append (digits (suc i) i) s ≡ append (digits (suc j) j) s → i ≡ j
digits_injective i j s e =
    let a = digits (suc i) i in
    let b = digits (suc j) j in
    sym (value-digits (suc i) i (omega arith))
    ∙ value_front 0 a b s s (omega (arith, size-append a s, size-append b s, ap size e)) e
    ∙ value-digits (suc j) j (omega arith)

-- A text does not become itself when a character and more are put in front of it.
pub append_longer : (d s : String) → s ≡ append "." (append d s) → ⊥
unfolding size
append_longer d s e = omega (arith, size-append d s, ap size e)
