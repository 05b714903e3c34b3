-- ===== src/Network/Growth.antt =====
-- The loop by which CRingBuffer::ensure, Buffer::ensure and StackBuffer::ensure enlarge an array:
-- `while (newcapacity < capacity) newcapacity = (newcapacity << 1) + 1;` on `uint32`.
use zlnet.Base.{
  ℕ, zero, suc, ◌+◌, ◌-◌, ◌*◌, ◌%◌, ◌^◌, ◌≤◌, ◌<◌, ◌≡◌, refl, arith, ◌⊎◌, inl, inr, ltb,
  if◌then◌else◌, lt_cases, ap, ◌∙◌, Result, ok, fault, fuel, u32_mod, add32,
}
use native.Mathlib.Nat.{pow-suc}

pub double : ℕ → ℕ
double c = add32 (c * 2 % u32_mod) 1

-- The fuel is the number of tests left.
unfoldable pub grow : ℕ → ℕ → ℕ → Result ℕ
unfolding double
grow zero c need = fault fuel
grow (suc f) c need = let rest = grow f (double c) need in if ltb c need then rest else ok c

-- 33 tests are enough from every start (`grow_total` below).
abbrev pub rounds : ℕ
rounds = 33

-- With `2 ^ k ∣ c + 1`, doubling gives `2 ^ (k + 1) ∣ double c + 1`: after 32 rounds at most the
-- capacity is `2 ^ 32 - 1`, which is below no `uint32`.
mul-lt : (q m p : ℕ) → q * p < m * p → q < m
mul-lt q m p h = elim (lt_cases q m) [ inl l ↦ l | inr g ↦ absurd (grind arith) ]

double_multiple :
    (c m p q : ℕ)
    → c < u32_mod
    → c + 1 ≡ m * p
    → p * (2 * q) ≡ u32_mod
    → (k : ℕ) × (double c + 1 ≡ k * (p * 2))
unfolding double
double_multiple c m p q h e s = elim (lt_cases (c * 2) u32_mod) [
  | inl small ↦ (m, omega arith)
  | inr big ↦
      let d : ℕ = m - q in
      let below : q < m = mul-lt q m p (omega arith) in
      let split : m ≡ q + d = omega arith in
      let split' : m * p ≡ (q + d) * p = ap (λ (t : ℕ). t * p) split in (d, omega (arith, split'))
]

grow_stop : (f c need : ℕ) → need ≤ c → grow (suc f) c need ≡ ok c
unfolding grow
grow_stop f c need h = ground arith

grow_more : (f c need : ℕ) → c < need → grow (suc f) c need ≡ grow f (double c) need
unfolding grow
grow_more f c need h = ground arith

pub double-lt : (c : ℕ) → (double c < u32_mod) × (double c ≤ 2 * c + 1)
unfolding double
double-lt c = omega arith

one_of_full : (c m p : ℕ) → c < u32_mod → c + 1 ≡ m * p → p ≡ u32_mod → c + 1 ≡ u32_mod
one_of_full c zero p h e s = omega arith
one_of_full c (suc zero) p h e s = omega arith
one_of_full c (suc (suc m)) p h e s = rw s at e2
  where
    e2 : c + 1 ≡ p
    e2 = absurd (grind arith)

pow_suc :
    (p f : ℕ) → p * 2 ^ suc f ≡ u32_mod → (p * (2 * 2 ^ f) ≡ u32_mod) × (p * 2 * 2 ^ f ≡ u32_mod)
pow_suc p f s = omega (arith, two, ap (λ (t : ℕ). p * t) two)
  where
    two : 2 ^ suc f ≡ 2 * 2 ^ f
    two = rw (pow-suc 2 f) (omega arith)

-- What a run of the loop from `c` returns.
abbrev pub Grown : ℕ → ℕ → Result ℕ → Type 0
Grown c need g =
    (r : ℕ) × (g ≡ ok r) × (need ≤ r) × (r < u32_mod) × ((r ≡ c) ⊎ (c < need) × (r < 2 * need))

grow_rounds :
    (f c need m p : ℕ)
    → c < u32_mod
    → need < u32_mod
    → c + 1 ≡ m * p
    → p * 2 ^ f ≡ u32_mod
    → Grown c need (grow (suc f) c need)
grow_rounds zero c need m p h hn e s =
    let top : c + 1 ≡ u32_mod = one_of_full c m p h e (omega arith) in
    (c, grow_stop zero c need (omega arith), omega arith, h, inl refl)
grow_rounds (suc f) c need m p h hn e s = elim (lt_cases c need) [
  | inr stop ↦ (c, grow_stop (suc f) c need stop, stop, h, inl refl)
  | inl more ↦
      let (s1, s2) = pow_suc p f s in
      let (k, e') = double_multiple c m p (2 ^ f) h e s1 in
      let (r, g, lo, hi, b) = grow_rounds f (double c) need k (p * 2) (double-lt c).0 hn e' s2 in
      (r, grow_more (suc f) c need more ∙ g, lo, hi, inr (more, grown r more b))
]
  where
    grown : (r : ℕ) → c < need → (r ≡ double c) ⊎ (double c < need) × (r < 2 * need) → r < 2 * need
    grown r more (inl e) = omega (arith, double-lt c)
    grown r more (inr (_, b)) = b

-- For every capacity and every needed size below 2 ^ 32 the doubling loop ends within 33 tests of
-- its condition, also where the doubling wraps around; what it returns is below 2 ^ 32 and holds
-- the size, and is the capacity it began with or less than twice the size.
pub grow_total : (c need : ℕ) → c < u32_mod → need < u32_mod → Grown c need (grow rounds c need)
grow_total c need h hn = grow_rounds 32 c need (c + 1) 1 h hn (omega arith) (omega arith)
