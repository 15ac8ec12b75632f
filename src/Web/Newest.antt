-- ===== src/Web/Newest.antt =====
-- The loop with which the log page turns the log around (internal/web/handler.go: `logs`).
use cpa_codex_auto_reset.Prelude.{
  ℕ, zero, suc, ◌+◌, ◌-◌, ◌≤◌, ◌<◌, ◌≡◌, ◌∙◌, refl, sym, inl, inr, ◌||◌, ◌&&◌, ◌++◌, Option, none,
  some, List, [], ◌∷◌, ltb, eqb, length, get_elem?, set, length-set, get_elem?-set, get_elem?-some,
  get_elem?-none, get_elem?-ext, length-append, if◌then◌else◌, arith, Bool-cases,
}
use mathlib.Core.List.{reverse, reverse-cons}

module _ {A : Type 0} where
  -- `xs[i], xs[j] = xs[j], xs[i]`, which the loop does within bounds only.
  unfoldable pub swap : ℕ → ℕ → List A → List A
  swap i j xs = elim (get_elem? xs i) [
    | none ↦ xs
    | some a ↦ elim (get_elem? xs j) [ none ↦ xs | some b ↦ set (set xs i b) j a ]
  ]

  -- The loop; `rounds` bounds its rounds.
  unfoldable pub swap_ends : ℕ → ℕ → ℕ → List A → List A
  swap_ends zero left right xs = xs
  swap_ends (suc rounds) left right xs =
      let swapped = swap_ends rounds (left + 1) (right - 1) (swap left right xs) in
      if ltb left right then swapped else xs

  -- For an empty list `right` starts at -1 in the source, at 0 here: neither is above `left`.
  unfoldable pub newest_first : List A → List A
  newest_first xs = swap_ends (length xs) 0 (length xs - 1) xs

  length-swap : (i j : ℕ) (xs : List A) → length (swap i j xs) ≡ length xs
  unfolding swap
  length-swap i j xs = grind (arith, length-set)

  get_elem?-swap :
      (i j k : ℕ) (xs : List A)
      → i < length xs
      → j < length xs
      → get_elem? (swap i j xs) k
        ≡ (if eqb j k then get_elem? xs i else if eqb i k then get_elem? xs j else get_elem? xs k)
  unfolding swap
  get_elem?-swap i j k xs hi hj =
      let (a, at_i) = get_elem?-some xs i hi in
      let (b, at_j) = get_elem?-some xs j hj in
      rw (at_i, at_j)
        (ground
          (arith, length-set xs i b, get_elem?-set xs i k b, get_elem?-set (set xs i b) j k a))

  -- What stands at `k` once the entries before `left` and after `right` are swapped.
  abbrev mixed : ℕ → ℕ → List A → ℕ → Option A
  mixed left right xs k =
      if ltb k left || (ltb right k && ltb k (length xs))
      then get_elem? xs (length xs - 1 - k)
      else get_elem? xs k

  record Mirrors (left right : ℕ) (old xs : List A) : Type 0 where
    same_length : length xs ≡ length old
    ends : left + right + 1 ≡ length old
    entries : (k : ℕ) → get_elem? xs k ≡ mixed left right old k

  swap-Mirrors :
      (left right : ℕ) (old xs : List A)
      → left < right
      → Mirrors left right old xs
      → Mirrors (left + 1) (right - 1) old (swap left right xs)
  swap-Mirrors left right old xs h m = record {
    same_length = length-swap left right xs ∙ m.same_length;
    ends = omega (arith, m.ends);
    entries = λ k. ground (
      arith,
      get_elem?-swap left right k xs,
      m.same_length,
      m.ends,
      m.entries k,
      m.entries left,
      m.entries right,
      get_elem?-none old k,
    );
  }

  swap_ends-Mirrors :
      (rounds left right : ℕ) (old xs : List A)
      → length old ≤ left + rounds
      → Mirrors left right old xs
      → (k : ℕ) → k < length old
      → get_elem? (swap_ends rounds left right xs) k ≡ get_elem? old (length old - 1 - k)
  unfolding swap_ends
  swap_ends-Mirrors zero left right old xs h m k lt = absurd (omega (arith, m.ends))
  swap_ends-Mirrors (suc rounds) left right old xs h m k lt = elim (Bool-cases (ltb left right)) [
    | inl going ↦ rw going (
        swap_ends-Mirrors rounds (left + 1) (right - 1) old (swap left right xs) (omega arith)
          (swap-Mirrors left right old xs (ground arith) m) k lt)
    | inr over ↦ rw over (ground (arith, m.ends, m.entries k))
  ]

  length-swap_ends :
      (rounds left right : ℕ) (xs : List A) → length (swap_ends rounds left right xs) ≡ length xs
  unfolding swap_ends
  length-swap_ends zero left right xs = refl
  length-swap_ends (suc rounds) left right xs = ground (
    arith,
    length-swap_ends rounds (left + 1) (right - 1) (swap left right xs),
    length-swap left right xs,
  )

  length-reverse : (xs : List A) → length (reverse xs) ≡ length xs
  length-reverse [] = refl
  length-reverse (x ∷ xs) =
      rw (reverse-cons x xs) (omega (arith, length-append (reverse xs) (x ∷ []), length-reverse xs))

  get_elem?-snoc :
      (xs : List A) (y : A) (k : ℕ)
      → get_elem? (xs ++ y ∷ []) k ≡ (if eqb k (length xs) then some y else get_elem? xs k)
  get_elem?-snoc [] y zero = refl
  get_elem?-snoc [] y (suc k) = ground arith
  get_elem?-snoc (x ∷ xs) y zero = ground arith
  get_elem?-snoc (x ∷ xs) y (suc k) = ground (arith, get_elem?-snoc xs y k)

  get_elem?-reverse :
      (xs : List A) (k : ℕ)
      → k < length xs
      → get_elem? (reverse xs) k ≡ get_elem? xs (length xs - 1 - k)
  get_elem?-reverse [] k h = absurd (omega arith)
  get_elem?-reverse (x ∷ xs) k h =
      rw (reverse-cons x xs)
        (ground (arith, get_elem?-snoc (reverse xs) x k, length-reverse xs, get_elem?-reverse xs k))

  turned :
      (xs : List A)
      → 0 < length xs
      → (k : ℕ)
      → get_elem? (swap_ends (length xs) 0 (length xs - 1) xs) k ≡ get_elem? (reverse xs) k
  turned xs h k =
      let start : Mirrors 0 (length xs - 1) xs xs = record {
        same_length = refl;
        ends = omega arith;
        entries = λ k. initially k;
      } in
      elim (Bool-cases (ltb k (length xs))) [
        | inl inside ↦
            swap_ends-Mirrors (length xs) 0 (length xs - 1) xs xs (omega arith) start k
              (ground (arith, inside))
            ∙ sym (get_elem?-reverse xs k (ground (arith, inside)))
        | inr outside ↦
            get_elem?-none _ k
              (ground (arith, outside, length-swap_ends (length xs) 0 (length xs - 1) xs))
            ∙ sym (get_elem?-none _ k (ground (arith, outside, length-reverse xs)))
      ]
    where
      initially : (k : ℕ) → get_elem? xs k ≡ mixed 0 (length xs - 1) xs k
      initially k = ground arith

  -- The loop that swaps the entries from both ends, within the bounds of the log, gives the whole log
  -- from its last entry to its first.
  pub newest_first-eq-reverse : (xs : List A) → newest_first xs ≡ reverse xs
  unfolding newest_first swap_ends
  newest_first-eq-reverse [] = refl
  newest_first-eq-reverse (x ∷ xs) = get_elem?-ext _ _ (turned (x ∷ xs) (omega arith))
