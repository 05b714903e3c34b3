-- ===== src/Network/RingBuffer/Resize.antt =====
-- CRingBuffer::resize, ensure and tryshrink.
use zlnet.Base.{
  ℕ, ◌+◌, ◌-◌, ◌≤◌, ◌<◌, ◌≡◌, refl, arith, List, length, get_elem?, if◌then◌else◌, u32_mod,
  length-alloc, ok, splice, slice, get_elem?-splice, length-splice, ext, length-slice,
  get_elem?-slice, copy_in_lem, copy_out_lem, inl, inr, lt_cases, alloc, leb, ◌==◌,
}
use zlnet.Network.Growth.{grow_total}
use zlnet.Network.RingBuffer.{Ring, relocate, resize, ensure, tryshrink, bound_size, shrink_size}
use zlnet.Network.RingBuffer.Valid.{IsValid, wrap, contents, get_elem?-contents}

-- What `relocate` leaves in the new array `tem`.
module _ (r : Ring) (tem : List ℕ) where
  moved_tail : List ℕ
  moved_tail = splice tem 0 (slice r.buff r.front (r.capacity - r.front))

  pub moved : List ℕ
  unfolding moved_tail
  moved =
      if r.size == 0
      then tem
      else if leb r.end r.front
      then splice moved_tail (r.capacity - r.front) (slice r.buff 0 r.end)
      else splice tem 0 (slice r.buff r.front r.size)

module _ {r : Ring} (tem : List ℕ) (v : IsValid r) (room : r.size ≤ length tem) where
  relocate_lem : relocate r tem ≡ ok (moved r tem)
  unfolding relocate moved
  relocate_lem = ground (
    arith,
    copy_out_lem r.buff r.front (r.capacity - r.front),
    copy_out_lem r.buff 0 r.end,
    copy_out_lem r.buff r.front r.size,
    length-slice r.buff r.front (r.capacity - r.front),
    length-slice r.buff r.front r.size,
    length-slice r.buff 0 r.end,
    copy_in_lem tem 0 (slice r.buff r.front (r.capacity - r.front)),
    copy_in_lem tem 0 (slice r.buff r.front r.size),
    length-splice tem 0 (slice r.buff r.front (r.capacity - r.front)),
    copy_in_lem (moved_tail r tem) (r.capacity - r.front) (slice r.buff 0 r.end),
  )

  length-moved : length (moved r tem) ≡ length tem
  unfolding moved
  length-moved = ground (
    arith,
    length-slice r.buff r.front (r.capacity - r.front),
    length-slice r.buff r.front r.size,
    length-slice r.buff 0 r.end,
    length-splice tem 0 (slice r.buff r.front (r.capacity - r.front)),
    length-splice tem 0 (slice r.buff r.front r.size),
    length-splice (moved_tail r tem) (r.capacity - r.front) (slice r.buff 0 r.end),
  )

  get_elem?-moved :
      (i : ℕ)
      → i < r.size
      → get_elem? (moved r tem) i ≡ get_elem? r.buff (wrap r.capacity (r.front + i))
  unfolding moved
  get_elem?-moved i h = ground (
    arith,
    length-slice r.buff r.front (r.capacity - r.front),
    length-slice r.buff r.front r.size,
    length-slice r.buff 0 r.end,
    length-splice tem 0 (slice r.buff r.front (r.capacity - r.front)),
    get_elem?-splice tem 0 (slice r.buff r.front (r.capacity - r.front)) i,
    get_elem?-splice tem 0 (slice r.buff r.front r.size) i,
    get_elem?-splice (moved_tail r tem) (r.capacity - r.front) (slice r.buff 0 r.end) i,
    get_elem?-slice r.buff r.front (r.capacity - r.front) i,
    get_elem?-slice r.buff r.front r.size i,
    get_elem?-slice r.buff 0 r.end (i - (r.capacity - r.front)),
  )

module _ (junk : ℕ → ℕ) where
  abbrev pub resized : Ring → ℕ → Ring
  resized r n = record r { buff = moved r (alloc junk n); capacity = n; front = 0; end = r.size }

  resized-IsValid :
      {r : Ring} (n : ℕ) → IsValid r → r.size < n → n < u32_mod → IsValid (resized r n)
  resized-IsValid {r} n v s w = ground (arith, length-moved (alloc junk n) v, length-alloc junk n)

  -- A resize to an array that is larger than the content keeps the bytes and their order.
  pub resize_lem :
      {r : Ring} (n : ℕ)
      → IsValid r
      → r.size < n
      → n < u32_mod
      → (resize junk r n ≡ ok (resized r n))
        × IsValid (resized r n)
        × (contents (resized r n) ≡ contents r)
  unfolding resize
  resize_lem {r} n v s w = (
    rw (relocate_lem (alloc junk n) v (omega (arith, length-alloc junk n))),
    v',
    ext (contents (resized r n)) (contents r) λ i. ground (
      arith,
      get_elem?-contents i v,
      get_elem?-contents i v',
      get_elem?-moved (alloc junk n) v (omega (arith, length-alloc junk n)) i,
    ),
  )
    where
      v' : IsValid (resized r n)
      v' = resized-IsValid n v s w

  -- `ensure` succeeds on every need that a `uint32` can hold, and makes room for it.
  pub ensure_lem :
      {r : Ring} (need : ℕ)
      → IsValid r
      → need < u32_mod
      → r.size < need
      → (q : Ring) × (ensure junk r need ≡ ok q)
        × IsValid q
        × (contents q ≡ contents r)
        × (q.size ≡ r.size)
        × (need ≤ q.capacity)
  unfolding ensure
  ensure_lem {r} need v w s = elim (lt_cases r.capacity need) [
    | inr fits ↦ (r, ground arith, v, refl, refl, fits)
    | inl small ↦
        let (n, g, lo, hi, _) = grow_total r.capacity need v.word w in
        let (e, v', c) = resize_lem n v (omega arith) hi in
        (resized r n, ground (arith, g, e), v', c, refl, lo)
  ]

  -- `tryshrink` replaces an empty ring above the bound by a small one, and changes no other.
  pub tryshrink_lem :
      {r : Ring}
      → IsValid r
      → (q : Ring) × (tryshrink junk r ≡ ok q)
        × IsValid q
        × (contents q ≡ contents r)
        × (q.size ≡ r.size)
        × ((r.size ≡ 0) → q.capacity ≤ bound_size)
  unfolding tryshrink
  tryshrink_lem {r} v = elim (lt_cases 0 r.size) [
    | inl full ↦ (r, ground arith, v, refl, refl, λ e. absurd (omega arith))
    | inr empty ↦ elim (lt_cases bound_size r.capacity) [
      | inr small ↦ (r, ground arith, v, refl, refl, λ _. small)
      | inl big ↦
          let (e, v', c) = resize_lem shrink_size v (omega arith) (omega arith) in
          (resized r shrink_size, ground (arith, e), v', c, refl, λ _. omega arith)
    ]
  ]
