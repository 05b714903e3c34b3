-- ===== src/Network/RingBuffer/Read.antt =====
-- CRingBuffer::look, read and read_confirm.
use zlnet.Base.{
  ℕ, ◌+◌, ◌-◌, ◌≤◌, ◌<◌, ◌≡◌, arith, List, ◌++◌, take, drop, ltb, ◌⊎◌, true, false, if◌then◌else◌,
  get_elem?-append, get_elem?-take, get_elem?-drop, ok, fault, assertion, slice, get_elem?-slice,
  length-slice, ext, copy_out_lem, leb, ◌&&◌, ◌∙◌, inl, inr, refl, lt_cases,
}
use zlnet.Network.RingBuffer.{Ring, read, look, read_confirm, copy_pieces}
use zlnet.Network.RingBuffer.Resize.{tryshrink_lem}
use zlnet.Network.RingBuffer.Valid.{IsValid, wrap, contents, get_elem?-contents}

module _ (r : Ring) (len : ℕ) where
  rest : ℕ
  rest = r.capacity - r.front

  two_pieces : List ℕ
  unfolding rest
  two_pieces = slice r.buff r.front rest ++ slice r.buff 0 (len - rest)

module _ {r : Ring} (len : ℕ) (v : IsValid r) (stored : len ≤ r.size) where
  two_pieces_lem : rest r len ≤ len → two_pieces r len ≡ take len (contents r)
  unfolding two_pieces
  two_pieces_lem h = ext (two_pieces r len) (take len (contents r)) λ i. ground (
    arith,
    get_elem?-append (slice r.buff r.front (rest r len)) (slice r.buff 0 (len - rest r len)) i,
    length-slice r.buff r.front (rest r len),
    get_elem?-slice r.buff r.front (rest r len) i,
    get_elem?-slice r.buff 0 (len - rest r len) (i - rest r len),
    get_elem?-take len (contents r) i,
    get_elem?-contents i v,
  )

  one_piece_lem : len ≤ rest r len → slice r.buff r.front len ≡ take len (contents r)
  unfolding rest
  one_piece_lem h = ext (slice r.buff r.front len) (take len (contents r)) λ i. ground (
    arith,
    get_elem?-slice r.buff r.front len i,
    get_elem?-take len (contents r) i,
    get_elem?-contents i v,
  )

  copy_two : rest r len ≤ len → copy_pieces r len true ≡ ok (take len (contents r))
  unfolding copy_pieces two_pieces
  copy_two h = ground (
    arith,
    copy_out_lem r.buff r.front (rest r len),
    copy_out_lem r.buff 0 (len - rest r len),
    two_pieces_lem h,
  )

  copy_one : len ≤ rest r len → copy_pieces r len false ≡ ok (take len (contents r))
  unfolding copy_pieces rest
  copy_one h = ground (arith, copy_out_lem r.buff r.front len, one_piece_lem h)

-- On a valid ring look copies the oldest len bytes where len is at least one and at most the size,
-- and is an assertion failure for every other len.
pub look-contents :
    {r : Ring} (len : ℕ)
    → IsValid r
    → look r len
      ≡ (if leb len r.size && ltb 0 len then ok (take len (contents r)) else fault assertion)
unfolding look rest
look-contents {r} len v = ground (arith, copy_two len v, copy_one len v)

-- The ring after its oldest `len` bytes are gone.
abbrev advanced : Ring → ℕ → Ring
advanced r len = record r { front = wrap r.capacity (r.front + len); size = r.size - len }

module _ {r : Ring} (len : ℕ) (v : IsValid r) (stored : len ≤ r.size) where
  advanced-IsValid : IsValid (advanced r len)
  advanced-IsValid = ground arith

  contents-advanced : contents (advanced r len) ≡ drop len (contents r)
  contents-advanced = ext (contents (advanced r len)) (drop len (contents r)) λ i. ground (
    arith,
    get_elem?-contents i advanced-IsValid,
    get_elem?-drop len (contents r) i,
    get_elem?-contents (len + i) v,
  )

-- What a call that removes the oldest `len` bytes leaves.
pub record Dropped (r : Ring) (len : ℕ) (q : Ring) : Type 0 where
  pub valid : IsValid q
  pub bytes : contents q ≡ drop len (contents r)
  pub left : q.size ≡ r.size - len

-- On a valid ring read_confirm of between one byte and all that are stored succeeds and leaves a
-- valid ring whose contents have lost that many of the oldest bytes.
pub read_confirm_lem :
    {r : Ring} (len : ℕ)
    → IsValid r
    → 0 < len
    → len ≤ r.size
    → (q : Ring) × (read_confirm r len ≡ ok q) × Dropped r len q
unfolding read_confirm
read_confirm_lem {r} len v h s = (
  advanced r len,
  ground arith,
  record { valid = advanced-IsValid len v s; bytes = contents-advanced len v s; left = refl },
)

-- On a valid ring, reading between one byte and all that are stored returns the oldest bytes in
-- order and leaves the others, in a valid ring, also where the emptied ring is replaced by a
-- smaller one.
pub contents-read :
    (junk : ℕ → ℕ) {r : Ring} (len : ℕ)
    → IsValid r
    → 0 < len
    → len ≤ r.size
    → (q : Ring) × (read junk r len ≡ ok (take len (contents r), q)) × Dropped r len q
unfolding read rest
contents-read junk {r} len v h s =
    let w = advanced-IsValid len v s in
    let (q, e, v', c, z, _) = tryshrink_lem junk w in
    elim (lt_cases 0 (r.size - len)) [
      | inl more ↦ (
        advanced r len,
        ground (arith, copy_two len v s, copy_one len v s),
        record { valid = w; bytes = contents-advanced len v s; left = refl },
      )
      | inr empty ↦ (
        q,
        ground (arith, copy_two len v s, copy_one len v s, e),
        record { valid = v'; bytes = c ∙ contents-advanced len v s; left = z },
      )
    ]

-- Reading, looking at or confirming no byte, or more bytes than the ring stores, is an assertion
-- failure of each of the three operations, on every ring.
pub read_refused :
    (junk : ℕ → ℕ) (r : Ring) (len : ℕ)
    → (len ≡ 0) ⊎ (r.size < len)
    → (read junk r len ≡ fault assertion)
      × (look r len ≡ fault assertion)
      × (read_confirm r len ≡ fault assertion)
unfolding read look read_confirm
read_refused junk r len h = ground arith
