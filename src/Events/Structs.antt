-- ===== src/Events/Structs.antt =====
-- The structures that are allocated, by their addresses, the last allocated first.
use app_framework_binder.Base.{
  ℕ, ◌+◌, ◌≡◌, refl, Bool, true, false, Option, none, some, List, [], ◌∷◌, ◌==◌, if◌then◌else◌,
  length, inl, inr, arith, Bool-cases,
}

module _ {A : Type 0} where
  -- A read, a write, and the release of a structure; `none` is a read of memory that is not allocated.
  unfoldable pub at : ℕ → List (ℕ × A) → Option A
  at p [] = none
  at p ((q, a) ∷ xs) = let rest = at p xs in if q == p then some a else rest

  unfoldable pub write : ℕ → A → List (ℕ × A) → List (ℕ × A)
  write p v [] = []
  write p v ((q, a) ∷ xs) = let rest = write p v xs in if q == p then (q, v) ∷ xs else (q, a) ∷ rest

  unfoldable pub free : ℕ → List (ℕ × A) → List (ℕ × A)
  free p [] = []
  free p ((q, a) ∷ xs) = let rest = free p xs in if q == p then xs else (q, a) ∷ rest

  -- No address is used twice.
  unfoldable pub Distinct : List (ℕ × A) → Type 0
  Distinct [] = Unit
  Distinct ((q, a) ∷ xs) = (at q xs ≡ none) × Distinct xs

  pub at-write :
      (p : ℕ) (v : A) (xs : List (ℕ × A)) (a : A) → at p xs ≡ some a → at p (write p v xs) ≡ some v
  unfolding at write
  at-write p v [] a e = ground (arith, e)
  at-write p v ((q, b) ∷ xs) a e = ground (arith, e, at-write p v xs a)

  pub at-write_other :
      (p q : ℕ) (v : A) (xs : List (ℕ × A)) → (q == p) ≡ false → at q (write p v xs) ≡ at q xs
  unfolding at write
  at-write_other p q v [] apart = refl
  at-write_other p q v ((r, b) ∷ xs) apart = ground (arith, apart, at-write_other p q v xs apart)

  pub at-write-none :
      (p q : ℕ) (v : A) (xs : List (ℕ × A)) → at q xs ≡ none → at q (write p v xs) ≡ none
  unfolding at write
  at-write-none p q v [] gone = refl
  at-write-none p q v ((r, b) ∷ xs) gone = ground (arith, gone, at-write-none p q v xs)

  pub at-free_other : (p q : ℕ) (xs : List (ℕ × A)) → (q == p) ≡ false → at q (free p xs) ≡ at q xs
  unfolding at free
  at-free_other p q [] apart = refl
  at-free_other p q ((r, b) ∷ xs) apart = ground (arith, apart, at-free_other p q xs apart)

  pub at-free_none : (p q : ℕ) (xs : List (ℕ × A)) → at q xs ≡ none → at q (free p xs) ≡ none
  unfolding at free
  at-free_none p q [] gone = refl
  at-free_none p q ((r, b) ∷ xs) gone = ground (arith, gone, at-free_none p q xs)

  pub at-free : (p : ℕ) (xs : List (ℕ × A)) → Distinct xs → at p (free p xs) ≡ none
  unfolding at free Distinct
  at-free p [] distinct = refl
  at-free p ((r, b) ∷ xs) (alone, distinct) = ground (arith, alone, at-free p xs distinct)

  pub write-Distinct : (p : ℕ) (v : A) (xs : List (ℕ × A)) → Distinct xs → Distinct (write p v xs)
  unfolding write Distinct
  write-Distinct p v [] distinct = tt
  write-Distinct p v ((r, b) ∷ xs) (alone, distinct) = elim (Bool-cases (r == p)) [
    | inl same ↦ rw same (alone, distinct)
    | inr other ↦ rw other (at-write-none p r v xs alone, write-Distinct p v xs distinct)
  ]

  pub free-Distinct : (p : ℕ) (xs : List (ℕ × A)) → Distinct xs → Distinct (free p xs)
  unfolding free Distinct
  free-Distinct p [] distinct = tt
  free-Distinct p ((r, b) ∷ xs) (alone, distinct) = elim (Bool-cases (r == p)) [
    | inl same ↦ rw same distinct
    | inr other ↦ rw other (at-free_none p r xs alone, free-Distinct p xs distinct)
  ]

  -- The addresses of the structures that pass a test: a chain of them, the last allocated first.
  unfoldable pub chain : (A → Bool) → List (ℕ × A) → List ℕ
  chain test [] = []
  chain test ((q, a) ∷ xs) = let rest = chain test xs in if test a then q ∷ rest else rest

-- The link of a chain to a structure is made to go past it: the loop `while (*prv != p)`, which does
-- not stop before the structure, so that `none` is a read through NULL.
unfoldable pub unlink : ℕ → List ℕ → Option (List ℕ)
unlink p [] = none
unlink p (q ∷ links) =
    let rest = unlink p links in
    if q == p then some links else elim rest [ none ↦ none | some kept ↦ some (q ∷ kept) ]

module _ {A : Type 0} (test : A → Bool) where
  pub unlink-chain :
      (p : ℕ) (xs : List (ℕ × A)) (a : A)
      → at p xs ≡ some a
      → test a ≡ true
      → unlink p (chain test xs) ≡ some (chain test (free p xs))
  unfolding at free chain unlink
  unlink-chain p [] a e passes = ground (arith, e)
  unlink-chain p ((q, b) ∷ xs) a e passes = ground (arith, e, passes, unlink-chain p xs a)

  pub chain-free_other :
      (p : ℕ) (xs : List (ℕ × A)) (a : A)
      → at p xs ≡ some a
      → test a ≡ false
      → chain test (free p xs) ≡ chain test xs
  unfolding at free chain
  chain-free_other p [] a e fails = ground (arith, e)
  chain-free_other p ((q, b) ∷ xs) a e fails = ground (arith, e, fails, chain-free_other p xs a)

  pub chain-write :
      (p : ℕ) (v : A) (xs : List (ℕ × A)) (a : A)
      → at p xs ≡ some a
      → test v ≡ test a
      → chain test (write p v xs) ≡ chain test xs
  unfolding at write chain
  chain-write p v [] a e same = refl
  chain-write p v ((q, b) ∷ xs) a e same = ground (arith, e, same, chain-write p v xs a)

  -- The first structure of a chain is allocated and passes.
  pub chain_first :
      (xs : List (ℕ × A)) (p : ℕ) (links : List ℕ)
      → Distinct xs
      → chain test xs ≡ p ∷ links
      → (a : A) × (at p xs ≡ some a) × (test a ≡ true)
  unfolding at chain Distinct
  chain_first [] p links distinct e = ground (arith, e)
  chain_first ((q, b) ∷ xs) p links (alone, distinct) e = elim (Bool-cases (test b)) [
    | inl passes ↦ let same : q ≡ p = ground (arith, e, passes) in (b, ground (arith, same), passes)
    | inr fails ↦
        let (a, here, passes) = chain_first xs p links distinct (ground (arith, e, fails)) in
        (a, ground (arith, here, alone), passes)
  ]

  -- The structures that do not pass, with their addresses.
  unfoldable pub others : List (ℕ × A) → List (ℕ × A)
  others [] = []
  others ((q, a) ∷ xs) = let rest = others xs in if test a then rest else (q, a) ∷ rest

  pub others-free :
      (p : ℕ) (xs : List (ℕ × A)) (a : A)
      → at p xs ≡ some a
      → test a ≡ true
      → others (free p xs) ≡ others xs
  unfolding at free others
  others-free p [] a e passes = ground (arith, e)
  others-free p ((q, b) ∷ xs) a e passes = ground (arith, e, passes, others-free p xs a)

  pub others_all : (xs : List (ℕ × A)) → chain test xs ≡ [] → others xs ≡ xs
  unfolding chain others
  others_all [] none_left = refl
  others_all ((q, b) ∷ xs) none_left = ground (arith, none_left, others_all xs)

  pub length-chain-free :
      (p : ℕ) (xs : List (ℕ × A)) (a : A)
      → at p xs ≡ some a
      → test a ≡ true
      → length (chain test (free p xs)) + 1 ≡ length (chain test xs)
  unfolding at free chain
  length-chain-free p [] a e passes = ground (arith, e)
  length-chain-free p ((q, b) ∷ xs) a e passes = ground (arith, e, passes, length-chain-free p xs a)

  pub at-chain_nil :
      (p : ℕ) (xs : List (ℕ × A)) (a : A) → chain test xs ≡ [] → at p xs ≡ some a → test a ≡ false
  unfolding at chain
  at-chain_nil p [] a nil e = ground (arith, e)
  at-chain_nil p ((q, b) ∷ xs) a nil e = ground (arith, e, nil, at-chain_nil p xs a)
