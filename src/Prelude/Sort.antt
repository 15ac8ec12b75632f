-- ===== src/Prelude/Sort.antt =====
-- Go's `sort.Slice`, as an insertion sort by the program's `less`. The program sorts lists whose
-- keys differ, where every sort returns the same list.
use Prim.Native.Nat.{suc}
use mathlib.Core.Path.{◌≡◌, refl}
use mathlib.Core.Bool.{Bool, true, false}
use mathlib.Core.List.{List, [], ◌∷◌, ◌++◌, Perm}
use mathlib.Core.List.Perm
use mathlib.Core.Logic.{inl, inr}
use cpa_codex_auto_reset.Prelude.Tests.{if◌then◌else◌, Bool-cases}
use native.Mathlib.Omega.{arith}
use cpa_codex_auto_reset.Prelude.Lists.{length, All, append-All}

module _ {ℓ} {A : Type ℓ} (less : A → A → Bool) where
  pub insert_by : A → List A → List A
  insert_by x [] = x ∷ []
  insert_by x (y ∷ ys) = if less y x then y ∷ insert_by x ys else x ∷ y ∷ ys

  unfoldable pub sort_by : List A → List A
  unfolding insert_by
  sort_by [] = []
  sort_by (x ∷ xs) = insert_by x (sort_by xs)

  insert_by-perm : (x : A) (ys : List A) → Perm (insert_by x ys) (x ∷ ys)
  unfolding insert_by
  insert_by-perm x [] = Perm.refl _
  insert_by-perm x (y ∷ ys) = elim (Bool-cases (less y x)) [
    | inl later ↦ rw later (Perm.trans (Perm.cons y (insert_by-perm x ys)) (Perm.swap x y ys))
    | inr sooner ↦ rw sooner (Perm.refl _)
  ]

  -- Sorting loses and invents nothing.
  pub sort_by-perm : (xs : List A) → Perm (sort_by xs) xs
  unfolding sort_by
  sort_by-perm [] = Perm.refl _
  sort_by-perm (x ∷ xs) = Perm.trans (insert_by-perm x (sort_by xs)) (Perm.cons x (sort_by-perm xs))

  insert_by-length : (x : A) (ys : List A) → length (insert_by x ys) ≡ suc (length ys)
  unfolding insert_by
  insert_by-length x [] = refl
  insert_by-length x (y ∷ ys) = ground (arith, insert_by-length x ys)

  pub sort_by-length : (xs : List A) → length (sort_by xs) ≡ length xs
  unfolding sort_by
  sort_by-length [] = refl
  sort_by-length (x ∷ xs) = ground (arith, sort_by-length xs, insert_by-length x (sort_by xs))

  insert_by-All : (P : A → Type 0) (x : A) (ys : List A) → P x → All P ys → All P (insert_by x ys)
  unfolding insert_by
  insert_by-All P x [] px all = (px, tt)
  insert_by-All P x (y ∷ ys) px all = ground (arith, insert_by-All P x ys px all.1)

  -- What holds of every element holds of every element of the sorted list.
  pub sort_by-All : (P : A → Type 0) (xs : List A) → All P xs → All P (sort_by xs)
  unfolding sort_by
  sort_by-All P [] all = tt
  sort_by-All P (x ∷ xs) all = insert_by-All P x (sort_by xs) all.0 (sort_by-All P xs all.1)

  -- No element is less than the one before it.
  abbrev pub Sorted : List A → Type 0
  Sorted [] = Unit
  Sorted (x ∷ []) = Unit
  Sorted (x ∷ y ∷ ys) = (less y x ≡ false) × Sorted (y ∷ ys)

  module _ (asym : (x y : A) → less x y ≡ true → less y x ≡ false) where
    insert_by-Sorted : (x : A) (ys : List A) → Sorted ys → Sorted (insert_by x ys)
    unfolding insert_by
    insert_by-Sorted x [] h = tt
    insert_by-Sorted x (y ∷ []) h = ground (arith, asym y x)
    insert_by-Sorted x (y ∷ z ∷ zs) h =
        ground (arith, asym y x, asym z x, h.0, insert_by-Sorted x (z ∷ zs) h.1)

    pub sort_by-Sorted : (xs : List A) → Sorted (sort_by xs)
    unfolding sort_by
    sort_by-Sorted [] = tt
    sort_by-Sorted (x ∷ xs) = insert_by-Sorted x (sort_by xs) (sort_by-Sorted xs)

module _ {ℓ} {A : Type ℓ} (R : A → A → Type 0) where
  -- Each element is related to every later one.
  abbrev pub Pairwise : List A → Type 0
  Pairwise [] = Unit
  Pairwise (x ∷ xs) = All (R x) xs × Pairwise xs

  module _ (less : A → A → Bool) (symmetric : (x y : A) → R x y → R y x) where
    insert_by-Pairwise :
        (x : A) (ys : List A) → All (R x) ys → Pairwise ys → Pairwise (insert_by less x ys)
    unfolding insert_by
    insert_by-Pairwise x [] all h = (tt, tt)
    insert_by-Pairwise x (y ∷ ys) all h = elim (Bool-cases (less y x)) [
      | inl later ↦ rw later (
        insert_by-All less (R y) x ys (symmetric x y all.0) h.0,
        insert_by-Pairwise x ys all.1 h.1,
      )
      | inr sooner ↦ rw sooner (all, h)
    ]

    pub sort_by-Pairwise : (xs : List A) → Pairwise xs → Pairwise (sort_by less xs)
    unfolding sort_by
    sort_by-Pairwise [] h = tt
    sort_by-Pairwise (x ∷ xs) h =
        insert_by-Pairwise x (sort_by less xs) (sort_by-All less (R x) xs h.0)
          (sort_by-Pairwise xs h.1)

  pub append-Pairwise :
      (xs : List A) (y : A) → Pairwise xs → All (λ x. R x y) xs → Pairwise (xs ++ y ∷ [])
  append-Pairwise [] y h all = (tt, tt)
  append-Pairwise (x ∷ xs) y h all =
      (append-All (R x) xs y h.0 all.0, append-Pairwise xs y h.1 all.1)
