-- ===== src/Network/RingBuffer/Tests.antt =====
-- Runs of CRingBuffer on concrete rings.
use Prim.Native.Nat.{◌+◌}
use zlnet.Base.{ℕ, ◌-◌, ◌≡◌, refl, arith, [], ◌∷◌, ◌++◌, ok}
use zlnet.Network.RingBuffer.{
  Ring, null_vec, write, read, write_confirm, get_readable_vec, get_writeable_vec, writable_bytes,
}
use zlnet.Network.RingBuffer.Valid.{IsValid, contents}
use zlnet.Network.RingBuffer.Write.{contents-write}
use zlnet.Network.RingBuffer.Read.{contents-read, Dropped}
use zlnet.Network.RingBuffer.Vectors.{
  gather, scatter, get_readable_vec_lem, get_writeable_vec_total, write_confirm_lem,
}

abbrev zeros : ℕ → ℕ
zeros _ = 0

-- 7, then 8, then 9, round the end of the array.
abbrev wrapped : Ring
wrapped = record {
  capacity = 5;
  front = 3;
  end = 1;
  size = 3;
  buff = 9 ∷ 0 ∷ 0 ∷ 7 ∷ 8 ∷ [];
  writerv0 = null_vec;
  writerv1 = null_vec;
  readerv0 = null_vec;
  readerv1 = null_vec;
}

-- 7, then 8, in the middle of the array.
abbrev middle : Ring
middle = record wrapped { front = 2; end = 4; size = 2; buff = 0 ∷ 0 ∷ 7 ∷ 8 ∷ 0 ∷ [] }

wrapped-IsValid : IsValid wrapped
wrapped-IsValid = omega arith

middle-IsValid : IsValid middle
middle-IsValid = omega arith

contents-wrapped : contents wrapped ≡ 7 ∷ 8 ∷ 9 ∷ []
contents-wrapped = refl

contents-write_example :
    (q : Ring) × (write zeros wrapped (1 ∷ 2 ∷ 3 ∷ []) ≡ ok q)
    × IsValid q
    × (contents q ≡ (7 ∷ 8 ∷ 9 ∷ []) ++ (1 ∷ 2 ∷ 3 ∷ []))
    × (q.size ≡ 3 + 3)
contents-write_example =
    contents-write zeros (1 ∷ 2 ∷ 3 ∷ []) wrapped-IsValid (omega arith) (omega arith)

contents-read_example :
    (q : Ring) × (read zeros wrapped 3 ≡ ok (7 ∷ 8 ∷ 9 ∷ [], q)) × Dropped wrapped 3 q
contents-read_example = contents-read zeros 3 wrapped-IsValid (omega arith) (omega arith)

get_readable_vec_lem_example :
    let q = get_readable_vec wrapped in
    (gather q.buff q.readerv0 ++ gather q.buff q.readerv1 ≡ contents wrapped)
    × (q.readerv0.len + q.readerv1.len ≡ wrapped.size)
    × (contents q ≡ contents wrapped)
    × IsValid q
get_readable_vec_lem_example = get_readable_vec_lem wrapped-IsValid

get_writeable_vec_total_example :
    let q = get_writeable_vec middle in q.writerv0.len + q.writerv1.len ≡ writable_bytes middle - 1
get_writeable_vec_total_example = get_writeable_vec_total middle-IsValid

write_confirm_lem_example :
    let q = get_writeable_vec middle in
    (f q' : Ring) × (scatter q (1 ∷ 2 ∷ []) ≡ ok f)
    × (write_confirm f 2 ≡ ok q')
    × IsValid q'
    × (contents q' ≡ contents middle ++ (1 ∷ 2 ∷ []))
unfolding get_writeable_vec
write_confirm_lem_example =
    write_confirm_lem (1 ∷ 2 ∷ []) middle-IsValid (omega arith) (omega arith)
