-- ===== src/Network/RingBuffer/Write.antt =====
-- CRingBuffer::write.
use zlnet.Base.{
  ℕ, ◌+◌, ◌-◌, ◌≤◌, ◌<◌, ◌≡◌, arith, List, ◌++◌, length, take, drop, get_elem?, ltb, if◌then◌else◌,
  u32_mod, length-take, length-drop, get_elem?-append, get_elem?-take, get_elem?-drop, ok, splice,
  get_elem?-splice, length-splice, ext, copy_in_lem, leb, ◌&&◌, get_elem?-none, ◌∙◌, ap,
}
use zlnet.Network.RingBuffer.{Ring, write, store}
use zlnet.Network.RingBuffer.Resize.{ensure_lem}
use zlnet.Network.RingBuffer.Valid.{IsValid, wrap, contents, length-contents, get_elem?-contents}

-- The array and the end index after the copies of `write`.
module _ (r : Ring) (bs : List ℕ) where
  unfoldable pub room : ℕ
  room = r.capacity - r.end

  unfoldable pub first_part : List ℕ
  unfolding room
  first_part = splice r.buff r.end (take room bs)

  unfoldable pub stored_buff : List ℕ
  unfolding first_part
  stored_buff =
      if leb r.front r.end && leb room (length bs)
      then splice first_part 0 (drop room bs)
      else splice r.buff r.end bs

  abbrev pub stored : Ring
  stored = record r { buff = stored_buff; end = wrap r.capacity (r.end + length bs) }

  abbrev pub written : Ring
  written = record stored { size = r.size + length bs }

module _ {r : Ring} (bs : List ℕ) (v : IsValid r) (fits : r.size + length bs ≤ r.capacity)
    (some_bytes : 0 < length bs) where
  store_lem : store r bs ≡ ok (stored r bs)
  unfolding store stored_buff
  store_lem = ground (
    arith,
    length-take (room r bs) bs,
    length-drop (room r bs) bs,
    copy_in_lem r.buff r.end bs,
    copy_in_lem r.buff r.end (take (room r bs) bs),
    length-splice r.buff r.end (take (room r bs) bs),
    copy_in_lem (first_part r bs) 0 (drop (room r bs) bs),
  )

  length-stored_buff : length (stored_buff r bs) ≡ r.capacity
  unfolding stored_buff
  length-stored_buff = ground (
    arith,
    length-take (room r bs) bs,
    length-drop (room r bs) bs,
    length-splice r.buff r.end bs,
    length-splice r.buff r.end (take (room r bs) bs),
    length-splice (first_part r bs) 0 (drop (room r bs) bs),
  )

  pub written-IsValid : IsValid (written r bs)
  written-IsValid = ground (arith, length-stored_buff)

  -- The element at `j` of an array that the new bytes go round in.
  get_elem?-around :
      (j : ℕ)
      → r.front ≤ r.end
      → room r bs ≤ length bs
      → j < r.capacity
      → get_elem? (splice (first_part r bs) 0 (drop (room r bs) bs)) j ≡ (
          if ltb j (length bs - room r bs)
          then get_elem? bs (room r bs + j)
          else if ltb j r.end
          then get_elem? r.buff j
          else get_elem? bs (j - r.end))
  unfolding first_part
  get_elem?-around j o a h = ground (
    arith,
    length-take (room r bs) bs,
    length-drop (room r bs) bs,
    length-splice r.buff r.end (take (room r bs) bs),
    get_elem?-splice r.buff r.end (take (room r bs) bs) j,
    get_elem?-splice (first_part r bs) 0 (drop (room r bs) bs) j,
    get_elem?-take (room r bs) bs (j - r.end),
    get_elem?-drop (room r bs) bs j,
  )

  get_elem?-stored_buff :
      (i : ℕ)
      → i < r.size + length bs
      → get_elem? (stored_buff r bs) (wrap r.capacity (r.front + i)) ≡ (
          if ltb i r.size
          then get_elem? r.buff (wrap r.capacity (r.front + i))
          else get_elem? bs (i - r.size))
  unfolding stored_buff
  get_elem?-stored_buff i h = ground (
    arith,
    get_elem?-splice r.buff r.end bs (wrap r.capacity (r.front + i)),
    get_elem?-around (wrap r.capacity (r.front + i)),
  )

  pub contents-written : contents (written r bs) ≡ contents r ++ bs
  contents-written = ext (contents (written r bs)) (contents r ++ bs) λ i. ground (
    arith,
    get_elem?-contents i v,
    get_elem?-contents i written-IsValid,
    get_elem?-append (contents r) bs i,
    length-contents v,
    get_elem?-stored_buff i,
    get_elem?-none bs (i - r.size),
  )

-- On a valid ring, writing at least one byte, up to the size that a uint32 can count, succeeds:
-- the ring stays valid, and its contents are those it held followed by the bytes written, also
-- where the array wraps around or is replaced by a larger one.
pub contents-write :
    (junk : ℕ → ℕ) {r : Ring} (bs : List ℕ)
    → IsValid r
    → 0 < length bs
    → r.size + length bs < u32_mod
    → (q : Ring) × (write junk r bs ≡ ok q)
      × IsValid q
      × (contents q ≡ contents r ++ bs)
      × (q.size ≡ r.size + length bs)
unfolding write
contents-write junk {r} bs v h w =
    let (q, e, v', c, s, cap) = ensure_lem junk (r.size + length bs) v w (omega arith) in
    (
      written q bs,
      ground (arith, e, store_lem bs v' (omega arith) h),
      written-IsValid bs v' (omega arith) h,
      contents-written bs v' (omega arith) h ∙ ap (λ xs. xs ++ bs) c,
      omega arith,
    )
