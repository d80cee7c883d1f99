-- ===== src/Prelude/Sort.antt =====
-- Insertion sort by a Boolean order: what `ORDER BY` does to the rows of a query.
use mathlib.Core.Path.{◌≡◌}
use mathlib.Core.Bool.{Bool, true, false}
use mathlib.Core.Logic.{inl, inr}
use mathlib.Core.List.{List, [], ◌∷◌, Perm}
use mathlib.Core.List.Perm
use native.Mathlib.Omega.{arith}
use Prim.Native.Nat.{ℕ, suc, ◌≤◌, ◌<◌}
use gowallet.Prelude.Tests.{leb, if◌then◌else◌, Bool-cases}
use gowallet.Prelude.Lists.{All, All-map, keep}

module _ {A : Type 0} (before : A → A → Bool) where
  unfoldable pub insert : A → List A → List A
  insert x [] = x ∷ []
  insert x (y ∷ ys) = if before x y then x ∷ y ∷ ys else y ∷ insert x ys

  unfoldable pub sort : List A → List A
  unfolding insert
  sort [] = []
  sort (x ∷ xs) = insert x (sort xs)

  -- Each element stands before all that follow it.
  abbrev pub IsSorted : List A → Type 0
  IsSorted [] = Unit
  IsSorted (x ∷ xs) = All (λ y. before x y ≡ true) xs × IsSorted xs

  insert-perm : (x : A) (ys : List A) → Perm (insert x ys) (x ∷ ys)
  unfolding insert
  insert-perm x [] = Perm.refl (x ∷ [])
  insert-perm x (y ∷ ys) = elim (Bool-cases (before x y)) [
    | inl first ↦ rw first (Perm.refl (x ∷ y ∷ ys))
    | inr later ↦ rw later (Perm.trans (Perm.cons y (insert-perm x ys)) (Perm.swap x y ys))
  ]

  pub sort-perm : (xs : List A) → Perm (sort xs) xs
  unfolding sort
  sort-perm [] = Perm.refl []
  sort-perm (x ∷ xs) = Perm.trans (insert-perm x (sort xs)) (Perm.cons x (sort-perm xs))

  insert-All {κ} : (P : A → Type κ) (x : A) (ys : List A) → P x → All P ys → All P (insert x ys)
  unfolding insert
  insert-All P x [] p h = (p, tt)
  insert-All P x (y ∷ ys) p h = elim (Bool-cases (before x y)) [
    | inl first ↦ rw first (p, h)
    | inr later ↦ rw later (h.0, insert-All P x ys p h.1)
  ]

  pub sort-All {κ} : (P : A → Type κ) (xs : List A) → All P xs → All P (sort xs)
  unfolding sort
  sort-All P [] h = tt
  sort-All P (x ∷ xs) h = insert-All P x (sort xs) h.0 (sort-All P xs h.1)

  -- What is already in order stays as it is.
  pub sort-eq_of_IsSorted : (xs : List A) → IsSorted xs → sort xs ≡ xs
  unfolding sort
  sort-eq_of_IsSorted [] h = ground arith
  sort-eq_of_IsSorted (x ∷ []) h = ground arith
  sort-eq_of_IsSorted (x ∷ y ∷ ys) h = rw (sort-eq_of_IsSorted (y ∷ ys) h.1) (ground arith)

  module _ (total : (x y : A) → before x y ≡ false → before y x ≡ true)
      (trans : (x y z : A) → before x y ≡ true → before y z ≡ true → before x z ≡ true) where
    insert-IsSorted : (x : A) (ys : List A) → IsSorted ys → IsSorted (insert x ys)
    unfolding insert
    insert-IsSorted x [] h = (tt, tt)
    insert-IsSorted x (y ∷ ys) h = elim (Bool-cases (before x y)) [
      | inl first ↦ rw first ((first, All-map (λ z p. trans x y z first p) ys h.0), h)
      | inr later ↦
          rw later (
            insert-All (λ z. before y z ≡ true) x ys (total x y later) h.0,
            insert-IsSorted x ys h.1,
          )
    ]

    sort-IsSorted : (xs : List A) → IsSorted (sort xs)
    unfolding sort
    sort-IsSorted [] = tt
    sort-IsSorted (x ∷ xs) = insert-IsSorted x (sort xs) (sort-IsSorted xs)

-- Rows whose keys fall from the first to the last, all below `bound`.
module _ {A : Type 0} (key : A → ℕ) where
  abbrev pub HasFalling : ℕ → List A → Type 0
  HasFalling bound [] = Unit
  HasFalling bound (x ∷ xs) = (key x < bound) × HasFalling (key x) xs

  kept_below :
      (p : A → Bool) (n bound : ℕ) (xs : List A)
      → HasFalling bound xs
      → bound ≤ suc n
      → All (λ y. leb (key y) n ≡ true) (keep p xs)
  kept_below p n bound [] h le = tt
  kept_below p n bound (x ∷ xs) h le = elim (Bool-cases (p x)) [
    | inl passes ↦ rw passes (ground arith, kept_below p n (key x) xs h.1 (omega arith))
    | inr fails ↦ rw fails (kept_below p n (key x) xs h.1 (omega arith))
  ]

  -- Those of them that pass a test are sorted, the largest key first.
  pub HasFalling-IsSorted :
      (p : A → Bool) (bound : ℕ) (xs : List A)
      → HasFalling bound xs
      → IsSorted (λ x y. leb (key y) (key x)) (keep p xs)
  HasFalling-IsSorted p bound [] h = tt
  HasFalling-IsSorted p bound (x ∷ xs) h = elim (Bool-cases (p x)) [
    | inl passes ↦
        rw passes
          (kept_below p (key x) (key x) xs h.1 (omega arith), HasFalling-IsSorted p (key x) xs h.1)
    | inr fails ↦ rw fails (HasFalling-IsSorted p (key x) xs h.1)
  ]
