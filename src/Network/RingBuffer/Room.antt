-- ===== src/Network/RingBuffer/Room.antt =====
-- CRingBuffer::getWriteableVec: the room that the two regions have.
use zlnet.Base.{
  ℕ, ◌+◌, ◌≤◌, ◌≡◌, [], length, ok, copy_in_lem, splice-nil, slice_lem, take, drop, Result, ◌>>=◌,
  zero, suc, List, none, some, ◌⊎◌, inl, inr, refl, ap, ◌∙◌, arith,
}
use zlnet.Network.RingBuffer.{Ring, SBufferVec, get_writeable_vec, get_readable_vec}
use zlnet.Network.RingBuffer.Valid.{IsValid, contents}
use zlnet.Network.RingBuffer.Vectors.{scatter, put, gather}

abbrev pub room : Ring → ℕ
room r = (get_writeable_vec r).writerv0.len + (get_writeable_vec r).writerv1.len

pub room-le : {r : Ring} → IsValid r → r.size + room r ≤ r.capacity
unfolding get_writeable_vec
room-le v = ground arith

-- `getWriteableVec` changes only the regions.
pub get_writeable_vec-contents :
    {r : Ring}
    → IsValid r
    → IsValid (get_writeable_vec r) × (contents (get_writeable_vec r) ≡ contents r)
unfolding get_writeable_vec
get_writeable_vec-contents v = ground arith

take-nil : (n : ℕ) → take {A = ℕ} n [] ≡ []
take-nil zero = refl
take-nil (suc n) = refl

drop-nil : (n : ℕ) → drop {A = ℕ} n [] ≡ []
drop-nil zero = refl
drop-nil (suc n) = refl

-- A region gets nothing.
put_nothing :
    (m : List ℕ) (v : SBufferVec)
    → (off : ℕ) → off ≤ length m
    → (v.buff ≡ none) ⊎ (v.buff ≡ some off)
    → put m v [] ≡ ok m
put_nothing m v off fits (inl e) = rw e refl
put_nothing m v off fits (inr e) =
    rw e (copy_in_lem m off [] (omega arith) ∙ ap ok (splice-nil m off))

module _ {r : Ring} (v : IsValid r) where
  first_region :
      ((get_writeable_vec r).writerv0.buff ≡ none)
      ⊎ ((get_writeable_vec r).writerv0.buff ≡ some r.end)
  unfolding get_writeable_vec
  first_region = ground arith

  second_region :
      ((get_writeable_vec r).writerv1.buff ≡ none) ⊎ ((get_writeable_vec r).writerv1.buff ≡ some 0)
  unfolding get_writeable_vec
  second_region = ground arith

  same_buff : (get_writeable_vec r).buff ≡ r.buff
  unfolding get_writeable_vec
  same_buff = ground arith

  -- `readv` with nothing to deliver.
  pub scatter_none : scatter (get_writeable_vec r) [] ≡ ok (get_writeable_vec r)
  scatter_none =
      let q = get_writeable_vec r in
      let fits : r.end ≤ length q.buff = rw same_buff (ground arith) in
      let last : List ℕ → Result Ring = λ m. ok (record q { buff = m }) in
      let second : List ℕ → Result Ring = λ m. put m q.writerv1 [] >>= last in
      rw (take-nil, drop-nil)
        (ap (λ (x : Result (List ℕ)). x >>= second)
            (put_nothing q.buff q.writerv0 r.end fits (first_region))
          ∙ ap (λ (x : Result (List ℕ)). x >>= last)
              (put_nothing q.buff q.writerv1 0 (omega arith) (second_region)))

-- One stored byte stands in the first readable region.
pub single_byte :
    {r : Ring}
    → IsValid r
    → r.size ≡ 1
    → gather (get_readable_vec r).buff (get_readable_vec r).readerv1 ≡ []
unfolding get_readable_vec
single_byte {r} v one = ground (arith, slice_lem r.buff 0 0)

-- `getReadableVec` changes only the regions.
pub get_readable_vec_size : (r : Ring) → (get_readable_vec r).size ≡ r.size
unfolding get_readable_vec
get_readable_vec_size r = ground arith
