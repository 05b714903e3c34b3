-- ===== src/Network/RingBuffer/Vectors.antt =====
-- CRingBuffer::getWriteableVec, getReadableVec and write_confirm: the two regions that `readv` fills
-- and that `writev` sends.
use zlnet.Base.{
  ℕ, ◌+◌, ◌-◌, ◌≤◌, ◌<◌, ◌≡◌, arith, List, [], ◌++◌, length, take, drop, ltb, leb, ◌==◌, ◌&&◌,
  if◌then◌else◌, length-take, length-drop, get_elem?-append, Result, ok, fault, null, ◌>>=◌, slice,
  get_elem?-slice, length-slice, ext, copy_in, copy_in_lem, splice, some, none, take_all, drop_all,
  splice-nil, length-splice, lt_cases, inl, inr,
}
use zlnet.Network.RingBuffer.{
  Ring, SBufferVec, get_writeable_vec, get_readable_vec, write_confirm, writable_bytes,
}
use zlnet.Network.RingBuffer.Valid.{IsValid, contents, get_elem?-contents}
use zlnet.Network.RingBuffer.Write.{
  room, first_part, stored_buff, written, written-IsValid, contents-written,
}

-- What `writev` takes from a region.
abbrev pub gather : List ℕ → SBufferVec → List ℕ
gather m v = elim v.buff [ none ↦ [] | some off ↦ slice m off v.len ]

-- What `readv` does with a region that it has `bs` for.
abbrev pub put : List ℕ → SBufferVec → List ℕ → Result (List ℕ)
put m v bs = elim v.buff [
  | none ↦ if length bs == 0 then ok m else fault null
  | some off ↦ copy_in m off bs
]

-- `readv` fills the first region before the second.
abbrev pub scatter : Ring → List ℕ → Result Ring
scatter r bs = do
  m ← put r.buff r.writerv0 (take r.writerv0.len bs)
  m' ← put m r.writerv1 (drop r.writerv0.len bs)
  ok (record r { buff = m' })

-- On a valid ring the two regions of getReadableVec hold the stored bytes in order and their
-- lengths add up to the size; the contents are not changed and the ring stays valid.
pub get_readable_vec_lem :
    {r : Ring}
    → IsValid r
    → let q = get_readable_vec r in
      (gather q.buff q.readerv0 ++ gather q.buff q.readerv1 ≡ contents r)
      × (q.readerv0.len + q.readerv1.len ≡ r.size)
      × (contents q ≡ contents r)
      × IsValid q
unfolding get_readable_vec
get_readable_vec_lem {r} v = (
  ext _ (contents r) λ i. ground (
    arith,
    get_elem?-contents i v,
    get_elem?-append (slice r.buff r.front (r.capacity - r.front))
        (slice r.buff 0 (r.size - (r.capacity - r.front))) i,
    get_elem?-append (slice r.buff r.front r.size) [] i,
    length-slice r.buff r.front (r.capacity - r.front),
    length-slice r.buff r.front r.size,
    get_elem?-slice r.buff r.front (r.capacity - r.front) i,
    get_elem?-slice r.buff r.front r.size i,
    get_elem?-slice r.buff 0 (r.size - (r.capacity - r.front)) (i - (r.capacity - r.front)),
  ),
  ground arith,
  ground arith,
  ground arith,
)

-- On a valid ring the lengths of the two regions of getWriteableVec add up to writableBytes, and
-- to one byte less where the free space goes round the end of the array.
pub get_writeable_vec_total :
    {r : Ring}
    → IsValid r
    → let q = get_writeable_vec r in
      q.writerv0.len + q.writerv1.len ≡ (
        if leb r.front r.end && ltb 0 r.front && ltb r.size r.capacity
        then writable_bytes r - 1
        else writable_bytes r)
unfolding get_writeable_vec writable_bytes
get_writeable_vec_total v = ground arith

-- The bytes that `readv` leaves in the regions are where `write` would have put them.
module _ {r : Ring} (bs : List ℕ) (v : IsValid r) (some_bytes : 0 < length bs) where
  abbrev vecs : Ring
  vecs = get_writeable_vec r

  abbrev filled : Ring
  filled = record vecs { buff = stored_buff r bs }

  room_left : length bs ≤ vecs.writerv0.len + vecs.writerv1.len → r.size + length bs ≤ r.capacity
  unfolding get_writeable_vec
  room_left fits = ground arith

  scatter_straight :
      r.size + length bs ≤ r.capacity
      → (r.front ≤ r.end → length bs < r.capacity - r.end)
      → scatter vecs bs ≡ ok filled
  unfolding get_writeable_vec stored_buff room
  scatter_straight fits h = ground (
    arith,
    take_all vecs.writerv0.len bs,
    drop_all vecs.writerv0.len bs,
    copy_in_lem r.buff r.end bs,
    copy_in_lem (splice r.buff r.end bs) 0 [],
    splice-nil (splice r.buff r.end bs) 0,
  )

  scatter_around :
      length bs ≤ vecs.writerv0.len + vecs.writerv1.len
      → r.front ≤ r.end
      → r.capacity - r.end ≤ length bs
      → scatter vecs bs ≡ ok filled
  unfolding get_writeable_vec stored_buff first_part room
  scatter_around fits o h = ground (
    arith,
    length-take (r.capacity - r.end) bs,
    length-drop (r.capacity - r.end) bs,
    copy_in_lem r.buff r.end (take (r.capacity - r.end) bs),
    length-splice r.buff r.end (take (r.capacity - r.end) bs),
    copy_in_lem (splice r.buff r.end (take (r.capacity - r.end) bs)) 0
        (drop (r.capacity - r.end) bs),
    drop_all (r.capacity - r.end) bs,
    splice-nil (splice r.buff r.end (take (r.capacity - r.end) bs)) 0,
  )

-- The ring once the bytes in the regions are confirmed.
abbrev confirmed : Ring → List ℕ → Ring
confirmed r bs =
    let q = get_writeable_vec r in
    record (written r bs) { writerv0 = q.writerv0; writerv1 = q.writerv1 }

module _ {r : Ring} (bs : List ℕ) (v : IsValid r) (some_bytes : 0 < length bs) where
  confirm_filled :
      r.size + length bs ≤ r.capacity
      → write_confirm (record (get_writeable_vec r) { buff = stored_buff r bs }) (length bs)
        ≡ ok (confirmed r bs)
  unfolding write_confirm get_writeable_vec
  confirm_filled fits = ground arith

  scatter_filled :
      let q = get_writeable_vec r in
      length bs ≤ q.writerv0.len + q.writerv1.len
      → scatter q bs ≡ ok (record q { buff = stored_buff r bs })
  scatter_filled fits = elim (lt_cases (length bs) (r.capacity - r.end)) [
    | inl less ↦ scatter_straight bs v some_bytes (room_left bs v some_bytes fits) (λ _. less)
    | inr more ↦ elim (lt_cases r.end r.front) [
      | inl gap ↦
          scatter_straight bs v some_bytes (room_left bs v some_bytes fits)
            (λ o. absurd (omega arith))
      | inr o ↦ scatter_around bs v some_bytes fits o more
    ]
  ]

-- On a valid ring, bytes put into the regions of getWriteableVec, from one byte to all that they
-- hold, stand behind the stored bytes once write_confirm is told their number, and the ring stays
-- valid.
pub write_confirm_lem :
    {r : Ring} (bs : List ℕ)
    → IsValid r
    → let q = get_writeable_vec r in
      0 < length bs
      → length bs ≤ q.writerv0.len + q.writerv1.len
      → (f q' : Ring) × (scatter q bs ≡ ok f)
        × (write_confirm f (length bs) ≡ ok q')
        × IsValid q'
        × (contents q' ≡ contents r ++ bs)
write_confirm_lem {r} bs v h fits =
    let space = room_left bs v h fits in
    let w = written-IsValid bs v space h in
    (
      record (get_writeable_vec r) { buff = stored_buff r bs },
      confirmed r bs,
      scatter_filled bs v h fits,
      confirm_filled bs v h space,
      ground (arith, w),
      contents-written bs v space h,
    )
