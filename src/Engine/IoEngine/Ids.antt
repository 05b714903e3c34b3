-- ===== src/Engine/IoEngine/Ids.antt =====
-- The callback ids as a circle: how many ids ago an id was handed out, and the order that the list of
-- the waiting callbacks keeps.
use zlnet.Base.{
  ℕ, ◌+◌, ◌-◌, ◌≤◌, ◌<◌, ◌≡◌, ◌≢◌, refl, List, [], ◌∷◌, ◌++◌, Bool, true, false, ltb, leb, ◌==◌,
  ◌||◌, if◌then◌else◌, Bool-cases, inl, inr, arith,
}
use zlnet.Base.Core.{without}
use zlnet.Engine.IoEngine.{CallbackHandler}
use zlnet.Engine.IoEngine.Callbacks.{last_id}

abbrev pub Handlers : Type 0
Handlers = ℕ → CallbackHandler

-- What `makeCallbackId` makes of the last id.
abbrev pub next_id : ℕ → ℕ
next_id n = if ltb n last_id then n + 1 else 1

-- How many ids were handed out after `id`, where the last is `n`.
unfoldable pub age : ℕ → ℕ → ℕ
age n id = if leb id n then n - id else n + last_id - id

unfoldable pub has : ℕ → List ℕ → Bool
has p [] = false
has p (q ∷ l) = p == q || has p l

-- Every callback of the list was made after one of the age `a`, and ends no earlier than `from`.
abbrev pub Later : Handlers → ℕ → ℕ → ℕ → List ℕ → Type 0
Later h n a from [] = Unit
Later h n a from (p ∷ l) = (age n (h p).cb_id < a) × (from ≤ (h p).to_ms) × Later h n a from l

-- The ids are numbers of the circle, the oldest callback comes first, and the times, none of them
-- later than `last`, rise.
abbrev pub Ordered : Handlers → ℕ → ℕ → List ℕ → Type 0
Ordered h n last [] = Unit
Ordered h n last (p ∷ l) =
    (0 < (h p).cb_id)
    × ((h p).cb_id ≤ last_id)
    × ((h p).to_ms ≤ last)
    × Later h n (age n (h p).cb_id) (h p).to_ms l
    × Ordered h n last l

pub age_bound : (n id : ℕ) → n ≤ last_id → 0 < id → id ≤ last_id → age n id < last_id
unfolding age
age_bound n id hn h0 h1 = ground arith

pub age_same :
    (n id : ℕ) → n ≤ last_id → 0 < id → id ≤ last_id → id ≡ next_id n → age n id + 1 ≡ last_id
unfolding age
age_same n id hn h0 h1 e = ground arith

pub age_step :
    (n id : ℕ)
    → n ≤ last_id
    → 0 < id
    → id ≤ last_id
    → id ≢ next_id n
    → age (next_id n) id ≡ age n id + 1
unfolding age
age_step n id hn h0 h1 ne = ground arith

pub age_new : (n : ℕ) → age n n ≡ 0
unfolding age
age_new n = ground arith

-- What a member of the list has.
pub Later-at :
    (h : Handlers) (n a from : ℕ) (l : List ℕ) (p : ℕ)
    → Later h n a from l
    → has p l ≡ true
    → (age n (h p).cb_id < a) × (from ≤ (h p).to_ms)
unfolding has
Later-at h n a from [] p o m = cc
Later-at h n a from (q ∷ l) p o m = ground (arith, Later-at h n a from l p)

pub Ordered-at :
    (h : Handlers) (n last : ℕ) (l : List ℕ) (p : ℕ)
    → Ordered h n last l
    → has p l ≡ true
    → (0 < (h p).cb_id) × ((h p).cb_id ≤ last_id) × ((h p).to_ms ≤ last)
unfolding has
Ordered-at h n last [] p o m = cc
Ordered-at h n last (q ∷ l) p o m = ground (arith, Ordered-at h n last l p)

-- The first callback is not in the rest of the list.
pub Ordered-head :
    (h : Handlers) (n last p : ℕ) (l : List ℕ) → Ordered h n last (p ∷ l) → has p l ≡ false
Ordered-head h n last p l o = elim (Bool-cases (has p l)) [
  | inl m ↦ absurd (omega (arith, Later-at h n _ _ l p o.3 m))
  | inr f ↦ f
]

pub has-append : (p q : ℕ) (l : List ℕ) → has p (l ++ q ∷ []) ≡ (has p l || (p == q))
unfolding has
has-append p q [] = ground arith
has-append p q (r ∷ l) = ground (arith, has-append p q l)

-- The list without `p` has what else it had, and nothing new.
pub has-without : (p q : ℕ) (l : List ℕ) → p ≢ q → has q (without p l) ≡ has q l
unfolding has without
has-without p q [] ne = refl
has-without p q (r ∷ l) ne = ground (arith, has-without p q l ne)

pub not-has-without :
    (h : Handlers) (n last p : ℕ) (l : List ℕ) → Ordered h n last l → has p (without p l) ≡ false
unfolding has without
not-has-without h n last p [] o = refl
not-has-without h n last p (q ∷ l) o = elim (Bool-cases (p == q)) [
  | inl e ↦ ground (arith, Ordered-head h n last q l o)
  | inr f ↦ ground (arith, not-has-without h n last p l o.4)
]

Later-without :
    (h : Handlers) (n a from p : ℕ) (l : List ℕ)
    → Later h n a from l
    → Later h n a from (without p l)
unfolding without
Later-without h n a from p [] o = tt
Later-without h n a from p (q ∷ l) o = elim (Bool-cases (p == q)) [
  | inl e ↦ rw e o.2
  | inr f ↦ rw f (o.0, o.1, Later-without h n a from p l o.2)
]

-- A callback that leaves keeps the order of the others.
pub Ordered-without :
    (h : Handlers) (n last p : ℕ) (l : List ℕ) → Ordered h n last l → Ordered h n last (without p l)
unfolding without
Ordered-without h n last p [] o = tt
Ordered-without h n last p (q ∷ l) o = elim (Bool-cases (p == q)) [
  | inl e ↦ rw e o.4
  | inr f ↦ rw f (o.0, o.1, o.2, Later-without h n _ _ p l o.3, Ordered-without h n last p l o.4)
]

-- The same id and time for each of the list's callbacks.
abbrev pub SameTimes : Handlers → Handlers → List ℕ → Type 0
SameTimes h h' l =
    (p : ℕ) → has p l ≡ true → ((h' p).cb_id ≡ (h p).cb_id) × ((h' p).to_ms ≡ (h p).to_ms)

SameTimes-tail : (h h' : Handlers) (p : ℕ) (l : List ℕ) → SameTimes h h' (p ∷ l) → SameTimes h h' l
unfolding has
SameTimes-tail h h' p l s q m = s q (ground arith)

SameTimes-head :
    (h h' : Handlers) (p : ℕ) (l : List ℕ)
    → SameTimes h h' (p ∷ l)
    → ((h' p).cb_id ≡ (h p).cb_id) × ((h' p).to_ms ≡ (h p).to_ms)
unfolding has
SameTimes-head h h' p l s = s p (ground arith)

Later-same :
    (h h' : Handlers) (n a from : ℕ) (l : List ℕ)
    → SameTimes h h' l
    → Later h n a from l
    → Later h' n a from l
Later-same h h' n a from [] s o = tt
Later-same h h' n a from (p ∷ l) s o =
    let e = SameTimes-head h h' p l s in
    (rw (e.0) o.0, rw (e.1) o.1, Later-same h h' n a from l (SameTimes-tail h h' p l s) o.2)

pub Ordered-same :
    (h h' : Handlers) (n last : ℕ) (l : List ℕ)
    → SameTimes h h' l
    → Ordered h n last l
    → Ordered h' n last l
Ordered-same h h' n last [] s o = tt
Ordered-same h h' n last (p ∷ l) s o =
    let e = SameTimes-head h h' p l s in
    let rest = SameTimes-tail h h' p l s in
    rw (e.0, e.1)
      (o.0, o.1, o.2, Later-same h h' n _ _ l rest o.3, Ordered-same h h' n last l rest o.4)
