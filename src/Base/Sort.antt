-- ===== src/Base/Sort.antt =====
-- Python's `sorted` with a key: a stable sort by a test on two elements, and the lexicographic order
-- of tuples of integers.
use mathlib.Core.List.Perm
use mathlib.Core.List.{List, [], ◌∷◌, Perm}
use Prim.Native.Nat.{suc}
use mathlib.Core.Path.{◌≡◌, refl}
use mathlib.Core.Bool.{Bool, true, false, ◌||◌, ◌&&◌}
use mathlib.Core.Logic.{inl, inr}
use native.Mathlib.Omega.{arith}
use robot_army.Base.Tests.{if◌then◌else◌, Bool-cases}
use robot_army.Base.Lists.{All, length}
use robot_army.Base.Int.{ℤ, pos, negsuc, ltb_ℤ, eq_ℤ}

module _ {ℓ} {A : Type ℓ} (le : A → A → Bool) where
  pub insert_by : A → List A → List A
  insert_by x [] = x ∷ []
  insert_by x (y ∷ ys) = let rest = insert_by x ys in if le x y then x ∷ y ∷ ys else y ∷ rest

  unfoldable pub sort_by : List A → List A
  unfolding insert_by
  sort_by [] = []
  sort_by (x ∷ xs) = insert_by x (sort_by xs)

  insert_by-perm : (x : A) (ys : List A) → Perm (insert_by x ys) (x ∷ ys)
  unfolding insert_by
  insert_by-perm x [] = Perm.refl (x ∷ [])
  insert_by-perm x (y ∷ ys) = elim (Bool-cases (le x y)) [
    | inl yes' ↦ rw yes' (Perm.refl (x ∷ y ∷ ys))
    | inr no' ↦ rw no' (Perm.trans (Perm.cons y (insert_by-perm x ys)) (Perm.swap x y ys))
  ]

  pub sort_by-perm : (xs : List A) → Perm (sort_by xs) xs
  unfolding sort_by
  sort_by-perm [] = Perm.refl []
  sort_by-perm (x ∷ xs) = Perm.trans (insert_by-perm x (sort_by xs)) (Perm.cons x (sort_by-perm xs))

  -- Every element is at most each one behind it.
  abbrev pub IsSorted : List A → Type ℓ
  IsSorted [] = Unit
  IsSorted (x ∷ xs) = All (λ y. le x y ≡ true) xs × IsSorted xs

pub All-map {ℓ κ} :
    {A : Type ℓ} (P Q : A → Type κ) → ((x : A) → P x → Q x) → (xs : List A) → All P xs → All Q xs
All-map P Q f [] h = tt
All-map P Q f (x ∷ xs) h = (f x h.0, All-map P Q f xs h.1)

insert_by-All {ℓ κ} :
    {A : Type ℓ} (le : A → A → Bool) (P : A → Type κ) (x : A) (ys : List A)
    → P x
    → All P ys
    → All P (insert_by le x ys)
unfolding insert_by
insert_by-All le P x [] px h = (px, tt)
insert_by-All le P x (y ∷ ys) px h = elim (Bool-cases (le x y)) [
  | inl yes' ↦ rw yes' (px, h)
  | inr no' ↦ rw no' (h.0, insert_by-All le P x ys px h.1)
]

pub sort_by-All {ℓ κ} :
    {A : Type ℓ} (le : A → A → Bool) (P : A → Type κ) (xs : List A)
    → All P xs
    → All P (sort_by le xs)
unfolding sort_by
sort_by-All le P [] h = tt
sort_by-All le P (x ∷ xs) h = insert_by-All le P x (sort_by le xs) h.0 (sort_by-All le P xs h.1)

length-insert_by {ℓ} :
    {A : Type ℓ} (le : A → A → Bool) (x : A) (ys : List A)
    → length (insert_by le x ys) ≡ suc (length ys)
unfolding insert_by
length-insert_by le x [] = refl
length-insert_by le x (y ∷ ys) = ground (arith, length-insert_by le x ys)

pub length-sort_by {ℓ} :
    {A : Type ℓ} (le : A → A → Bool) (xs : List A) → length (sort_by le xs) ≡ length xs
unfolding sort_by
length-sort_by le [] = refl
length-sort_by le (x ∷ xs) =
    omega (arith, length-insert_by le x (sort_by le xs), length-sort_by le xs)

module _ {ℓ} {A : Type ℓ} (le : A → A → Bool) (total : (a b : A) → le a b ≡ false → le b a ≡ true)
    (trans : (a b c : A) → le a b ≡ true → le b c ≡ true → le a c ≡ true) where
  insert_by-IsSorted : (x : A) (ys : List A) → IsSorted le ys → IsSorted le (insert_by le x ys)
  unfolding insert_by
  insert_by-IsSorted x [] h = (tt, tt)
  insert_by-IsSorted x (y ∷ ys) h = elim (Bool-cases (le x y)) [
    | inl yes' ↦ rw yes' (
      (yes', All-map (λ z. le y z ≡ true) (λ z. le x z ≡ true) (λ z. trans x y z yes') ys h.0),
      h,
    )
    | inr no' ↦ rw no' (
      insert_by-All le (λ z. le y z ≡ true) x ys (total x y no') h.0,
      insert_by-IsSorted x ys h.1,
    )
  ]

  pub sort_by-IsSorted : (xs : List A) → IsSorted le (sort_by le xs)
  unfolding sort_by
  sort_by-IsSorted [] = tt
  sort_by-IsSorted (x ∷ xs) = insert_by-IsSorted x (sort_by le xs) (sort_by-IsSorted xs)

-- `a <= b` on tuples of integers.
unfoldable pub lex_le : List ℤ → List ℤ → Bool
lex_le [] b = true
lex_le (x ∷ a) [] = false
lex_le (x ∷ a) (y ∷ b) = ltb_ℤ x y || eq_ℤ x y && lex_le a b

pub lex_le_total : (a b : List ℤ) → lex_le a b ≡ false → lex_le b a ≡ true
unfolding lex_le
lex_le_total [] b h = absurd (cc h)
lex_le_total (x ∷ a) [] h = refl
lex_le_total (pos m ∷ a) (pos n ∷ b) h = ground (arith, lex_le_total a b)
lex_le_total (negsuc m ∷ a) (negsuc n ∷ b) h = ground (arith, lex_le_total a b)
lex_le_total (pos m ∷ a) (negsuc n ∷ b) h = refl
lex_le_total (negsuc m ∷ a) (pos n ∷ b) h = absurd (cc h)

pub lex_le_trans : (a b c : List ℤ) → lex_le a b ≡ true → lex_le b c ≡ true → lex_le a c ≡ true
unfolding lex_le
lex_le_trans [] b c p q = refl
lex_le_trans (x ∷ a) [] c p q = absurd (cc p)
lex_le_trans (x ∷ a) (y ∷ b) [] p q = absurd (cc q)
lex_le_trans (x ∷ a) (y ∷ b) (z ∷ c) p q = ground (arith, lex_le_trans a b c)
