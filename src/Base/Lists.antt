-- ===== src/Base/Lists.antt =====
-- Byte arrays as lists indexed by native numbers, and the laws of the operations on them in `if`
-- form: the element at `i` of each result.
use Prim.Native.Nat.{ℕ, zero, suc, ◌+◌, ◌-◌, ◌≤◌, min}
use mathlib.Core.Path.{◌≡◌, refl, ap, ap₂}
use mathlib.Core.List.{List, [], ◌∷◌, ◌++◌}
use mathlib.Core.Option.{Option, none, some, some-injective}
use native.Mathlib.Nat.{add-zero}
use native.Mathlib.Omega.{arith}
use zlnet.Base.Tests.{ltb, if◌then◌else◌}

module _ {ℓ} {A : Type ℓ} where
  abbrev pub length : List A → ℕ
  length [] = 0
  length (x ∷ xs) = suc (length xs)

  abbrev pub get_elem? : List A → ℕ → Option A
  get_elem? [] i = none
  get_elem? (x ∷ xs) zero = some x
  get_elem? (x ∷ xs) (suc i) = get_elem? xs i

  abbrev pub take : ℕ → List A → List A
  take zero xs = []
  take (suc n) [] = []
  take (suc n) (x ∷ xs) = x ∷ take n xs

  abbrev pub drop : ℕ → List A → List A
  drop zero xs = xs
  drop (suc n) [] = []
  drop (suc n) (x ∷ xs) = drop n xs

  pub ext : (xs ys : List A) → ((i : ℕ) → get_elem? xs i ≡ get_elem? ys i) → xs ≡ ys
  ext [] [] h = refl
  ext [] (y ∷ ys) h = ground (arith, h 0)
  ext (x ∷ xs) [] h = ground (arith, h 0)
  ext (x ∷ xs) (y ∷ ys) h = ap₂ ◌∷◌ (some-injective _ _ (h 0)) (ext xs ys (λ i. h (suc i)))

  pub length-append : (xs ys : List A) → length (xs ++ ys) ≡ length xs + length ys
  length-append [] ys = omega arith
  length-append (x ∷ xs) ys = omega (arith, length-append xs ys)

  pub length-take : (n : ℕ) (xs : List A) → length (take n xs) ≡ min n (length xs)
  length-take zero xs = omega arith
  length-take (suc n) [] = omega arith
  length-take (suc n) (x ∷ xs) = omega (arith, length-take n xs)

  pub length-drop : (n : ℕ) (xs : List A) → length (drop n xs) ≡ length xs - n
  length-drop zero xs = omega arith
  length-drop (suc n) [] = omega arith
  length-drop (suc n) (x ∷ xs) = omega (arith, length-drop n xs)

  pub get_elem?-none : (xs : List A) (i : ℕ) → length xs ≤ i → get_elem? xs i ≡ none
  get_elem?-none [] i h = refl
  get_elem?-none (x ∷ xs) zero h = absurd (omega arith)
  get_elem?-none (x ∷ xs) (suc i) h = get_elem?-none xs i (omega arith)

  pub get_elem?-append :
      (xs ys : List A) (i : ℕ)
      → get_elem? (xs ++ ys) i
        ≡ (if ltb i (length xs) then get_elem? xs i else get_elem? ys (i - length xs))
  get_elem?-append [] ys i = ground arith
  get_elem?-append (x ∷ xs) ys zero = ground arith
  get_elem?-append (x ∷ xs) ys (suc i) = ground (arith, get_elem?-append xs ys i)

  pub get_elem?-take :
      (n : ℕ) (xs : List A) (i : ℕ)
      → get_elem? (take n xs) i ≡ (if ltb i n then get_elem? xs i else none)
  get_elem?-take zero xs i = ground arith
  get_elem?-take (suc n) [] i = ground arith
  get_elem?-take (suc n) (x ∷ xs) zero = ground arith
  get_elem?-take (suc n) (x ∷ xs) (suc i) = ground (arith, get_elem?-take n xs i)

  pub get_elem?-drop :
      (n : ℕ) (xs : List A) (i : ℕ) → get_elem? (drop n xs) i ≡ get_elem? xs (n + i)
  get_elem?-drop zero xs i = ap (get_elem? xs) (omega arith)
  get_elem?-drop (suc n) [] i = refl
  get_elem?-drop (suc n) (x ∷ xs) i = ground (arith, get_elem?-drop n xs i)

module _ {ℓ} {A : Type ℓ} where
  pub take_all : (n : ℕ) (xs : List A) → length xs ≤ n → take n xs ≡ xs
  take_all zero [] h = refl
  take_all zero (x ∷ xs) h = absurd (omega arith)
  take_all (suc n) [] h = refl
  take_all (suc n) (x ∷ xs) h = ap (◌∷◌ x) (take_all n xs (omega arith))

  pub drop_all : (n : ℕ) (xs : List A) → length xs ≤ n → drop n xs ≡ []
  drop_all zero [] h = refl
  drop_all zero (x ∷ xs) h = absurd (omega arith)
  drop_all (suc n) [] h = refl
  drop_all (suc n) (x ∷ xs) h = drop_all n xs (omega arith)

  pub take-append-drop : (n : ℕ) (xs : List A) → take n xs ++ drop n xs ≡ xs
  take-append-drop zero xs = refl
  take-append-drop (suc n) [] = refl
  take-append-drop (suc n) (x ∷ xs) = rw (take-append-drop n xs)

  pub take-append_length : (xs ys : List A) → take (length xs) (xs ++ ys) ≡ xs
  take-append_length [] ys = refl
  take-append_length (x ∷ xs) ys = ap (◌∷◌ x) (take-append_length xs ys)

  pub drop-append_length : (xs ys : List A) → drop (length xs) (xs ++ ys) ≡ ys
  drop-append_length [] ys = refl
  drop-append_length (x ∷ xs) ys = drop-append_length xs ys

-- A case split on numbers wants its goal in `Type 0`; the arrays of the sources hold bytes.
module _ {A : Type 0} where
  -- `xs` with the elements from `off` on overwritten by `ys`.
  unfoldable pub splice : List A → ℕ → List A → List A
  splice xs off ys = take off xs ++ (ys ++ drop (off + length ys) xs)

  -- The `n` elements of `xs` from `off` on.
  unfoldable pub slice : List A → ℕ → ℕ → List A
  slice xs off n = take n (drop off xs)

  pub length-splice :
      (xs : List A) (off : ℕ) (ys : List A)
      → off + length ys ≤ length xs
      → length (splice xs off ys) ≡ length xs
  unfolding splice
  length-splice xs off ys h = omega (
    arith,
    length-append (take off xs) (ys ++ drop (off + length ys) xs),
    length-append ys (drop (off + length ys) xs),
    length-take off xs,
    length-drop (off + length ys) xs,
  )

  pub get_elem?-splice :
      (xs : List A) (off : ℕ) (ys : List A) (i : ℕ)
      → off + length ys ≤ length xs
      → get_elem? (splice xs off ys) i ≡ (
          if ltb i off
          then get_elem? xs i
          else if ltb i (off + length ys)
          then get_elem? ys (i - off)
          else get_elem? xs i)
  unfolding splice
  get_elem?-splice xs off ys i h = ground (
    arith,
    get_elem?-append (take off xs) (ys ++ drop (off + length ys) xs) i,
    get_elem?-append ys (drop (off + length ys) xs) (i - off),
    length-take off xs,
    get_elem?-take off xs i,
    get_elem?-drop (off + length ys) xs (i - off - length ys),
  )

  pub length-slice : (xs : List A) (off n : ℕ) → off + n ≤ length xs → length (slice xs off n) ≡ n
  unfolding slice
  length-slice xs off n h = omega (arith, length-take n (drop off xs), length-drop off xs)

  pub get_elem?-slice :
      (xs : List A) (off n i : ℕ)
      → get_elem? (slice xs off n) i ≡ (if ltb i n then get_elem? xs (off + i) else none)
  unfolding slice
  get_elem?-slice xs off n i =
      ground (arith, get_elem?-take n (drop off xs) i, get_elem?-drop off xs i)

  pub splice-nil : (xs : List A) (off : ℕ) → splice xs off [] ≡ xs
  unfolding splice
  splice-nil xs off = rw add-zero (take-append-drop off xs)

  pub slice_lem : (xs : List A) (off n : ℕ) → slice xs off n ≡ take n (drop off xs)
  unfolding slice
  slice_lem xs off n = refl
