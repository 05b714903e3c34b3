-- ===== src/Engine/IoEngine/NextId.antt =====
-- What a new callback id does to the order of the waiting callbacks: where the oldest does not have
-- the new id, no callback has it.
use zlnet.Base.{
  ℕ, ◌+◌, ◌≤◌, ◌<◌, ◌≡◌, ◌≢◌, List, [], ◌∷◌, ◌++◌, true, ◌==◌, Bool-cases, inl, inr, arith,
}
use zlnet.Engine.IoEngine.Callbacks.{last_id}
use zlnet.Engine.IoEngine.Ids.{
  Handlers, next_id, age, has, Later, Ordered, age_bound, age_same, age_step, age_new,
}

-- The oldest callback does not have this id.
abbrev pub FirstIsNot : Handlers → ℕ → List ℕ → Type 0
FirstIsNot h id [] = Unit
FirstIsNot h id (p ∷ l) = (h p).cb_id ≢ id

module _ (h : Handlers) (n : ℕ) (fits : n ≤ last_id) where
  not-next : (id a : ℕ) → 0 < id → id ≤ last_id → age n id < a → a < last_id → id ≢ next_id n
  not-next id a h0 h1 lt b = λ e. omega (arith, age_same n id fits h0 h1 e)

  -- The callback behind the first has another id, too.
  FirstIsNot-tail :
      (last p : ℕ) (l : List ℕ) → Ordered h n last (p ∷ l) → FirstIsNot h (next_id n) l
  FirstIsNot-tail last p [] o = tt
  FirstIsNot-tail last p (q ∷ l) o = not-next _ _ o.4.0 o.4.1 o.3.0 (age_bound n _ fits o.0 o.1)

  pub Ordered-fresh :
      (last : ℕ) (l : List ℕ)
      → Ordered h n last l
      → FirstIsNot h (next_id n) l
      → (q : ℕ) → has q l ≡ true
      → (h q).cb_id ≢ next_id n
  unfolding has
  Ordered-fresh last [] o f q m = absurd (ground arith)
  Ordered-fresh last (p ∷ l) o f q m = elim (Bool-cases (q == p)) [
    | inl e ↦ ground (arith)
    | inr ne ↦ Ordered-fresh last l o.4 (FirstIsNot-tail last p l o) q (ground arith)
  ]

  Later-step :
      (last a from : ℕ) (l : List ℕ)
      → a < last_id
      → Ordered h n last l
      → Later h n a from l
      → Later h (next_id n) (a + 1) from l
  Later-step last a from [] b o w = tt
  Later-step last a from (q ∷ l) b o w = (
    omega (arith, age_step n _ fits o.0 o.1 (not-next _ _ o.0 o.1 w.0 b)),
    w.1,
    Later-step last a from l b o.4 w.2,
  )

  pub Ordered-step :
      (last : ℕ) (l : List ℕ)
      → Ordered h n last l
      → FirstIsNot h (next_id n) l
      → Ordered h (next_id n) last l
  Ordered-step last [] o f = tt
  Ordered-step last (p ∷ l) o f = (
    o.0,
    o.1,
    o.2,
    rw (age_step n _ fits o.0 o.1 f) (Later-step last _ _ l (age_bound n _ fits o.0 o.1) o.4 o.3),
    Ordered-step last l o.4 (FirstIsNot-tail last p l o),
  )

pub Ordered-later :
    (h : Handlers) (n last last' : ℕ) (l : List ℕ)
    → last ≤ last'
    → Ordered h n last l
    → Ordered h n last' l
Ordered-later h n last last' [] b o = tt
Ordered-later h n last last' (p ∷ l) b o =
    (o.0, o.1, omega arith, o.3, Ordered-later h n last last' l b o.4)

age_pos : (n id : ℕ) → 0 < n → 0 < id → id ≤ last_id → n ≤ last_id → id ≢ n → 0 < age n id
unfolding age
age_pos n id h h0 h1 hn ne = ground arith

module _ (h : Handlers) (n p : ℕ) (newest : (h p).cb_id ≡ n) where
  Later-push :
      (a from : ℕ) (l : List ℕ)
      → 0 < a
      → from ≤ (h p).to_ms
      → Later h n a from l
      → Later h n a from (l ++ p ∷ [])
  Later-push a from [] pos b w = (rw (newest, age_new n) pos, b, tt)
  Later-push a from (q ∷ l) pos b w = (w.0, w.1, Later-push a from l pos b w.2)

  -- A callback with the last id and the latest time goes to the end of the list.
  pub Ordered-push :
      (l : List ℕ)
      → 0 < n
      → n ≤ last_id
      → ((q : ℕ) → has q l ≡ true → (h q).cb_id ≢ n)
      → Ordered h n (h p).to_ms l
      → Ordered h n (h p).to_ms (l ++ p ∷ [])
  unfolding has
  Ordered-push [] pos fits fresh o = (rw newest pos, rw newest fits, omega arith, tt, tt)
  Ordered-push (q ∷ l) pos fits fresh o = (
    o.0,
    o.1,
    o.2,
    Later-push _ _ l (age_pos n _ pos o.0 o.1 fits (fresh q (ground arith))) o.2 o.3,
    Ordered-push l pos fits (λ r m. fresh r (ground arith)) o.4,
  )
