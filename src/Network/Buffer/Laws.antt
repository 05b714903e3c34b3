-- ===== src/Network/Buffer/Laws.antt =====
-- Buffer's invariant, its operations against the bytes in use, and Buffer as an IBuffer.
use zlnet.Base.{
  ℕ, ◌+◌, ◌-◌, ◌≤◌, ◌<◌, ◌≡◌, refl, arith, List, ◌++◌, length, take, get_elem?, none, some, u32_mod,
  length-take, get_elem?-append, get_elem?-take, get_elem?-none, ok, slice, splice, get_elem?-slice,
  length-slice, ext, get_elem?-splice, length-splice, length-alloc, copy_in_lem, copy_out_lem,
  lt_cases, inl, inr, alloc, [], ◌∙◌, ap, take_all,
}
use zlnet.Network.Growth.{grow_total}
use zlnet.Network.Buffer.{
  Buffer, ensure, write, reserve, read, read_pointer, poke, peek, create, copy, clear, initial_size,
}
use zlnet.Network.IBuffer.{IBuffer}

pub record IsValid (b : Buffer) : Type 0 where
  pub storage : length b.buff ≡ b.capacity
  pub word : b.capacity < u32_mod
  pub size_in : b.size ≤ b.capacity

abbrev pub bytes : Buffer → List ℕ
bytes b = take b.size b.buff

pub length-bytes : (b : Buffer) → IsValid b → length (bytes b) ≡ b.size
length-bytes b v = omega (arith, length-take b.size b.buff)

-- `ensure` never fails on a `uint32`, keeps the bytes in use, and makes room.
pub ensure_lem :
    {b : Buffer} (need : ℕ)
    → IsValid b
    → need < u32_mod
    → (c : Buffer) × (ensure b need ≡ ok c)
      × IsValid c
      × (c.size ≡ b.size)
      × ((i : ℕ) → i < b.size → get_elem? c.buff i ≡ get_elem? b.buff i)
      × (need ≤ c.capacity)
unfolding ensure
ensure_lem {b} need v w = elim (lt_cases b.capacity need) [
  | inr fits ↦ (b, ground arith, v, refl, λ i h. refl, fits)
  | inl small ↦
      let (n, g, lo, hi, _) = grow_total b.capacity need v.word w in
      let fresh = alloc (λ _. 0) n in
      let used = slice b.buff 0 b.size in
      (
        record b { buff = splice fresh 0 used; capacity = n },
        ground (
          arith,
          g,
          copy_out_lem b.buff 0 b.size,
          length-slice b.buff 0 b.size,
          length-alloc (λ _. 0) n,
          copy_in_lem fresh 0 used,
        ),
        ground (
          arith,
          length-slice b.buff 0 b.size,
          length-alloc (λ _. 0) n,
          length-splice fresh 0 used,
        ),
        refl,
        λ i h. ground (
          arith,
          length-slice b.buff 0 b.size,
          length-alloc (λ _. 0) n,
          get_elem?-splice fresh 0 used i,
          get_elem?-slice b.buff 0 b.size i,
        ),
        lo,
      )
]

-- The buffer after `bs` were copied to `pos`, and `_size` is `n`.
abbrev overwritten : Buffer → ℕ → List ℕ → ℕ → Buffer
overwritten c pos bs n = record c { buff = splice c.buff pos bs; size = n }

overwritten-IsValid :
    (c : Buffer) (pos : ℕ) (bs : List ℕ) (n : ℕ)
    → IsValid c
    → pos + length bs ≤ c.capacity
    → n ≤ c.capacity
    → IsValid (overwritten c pos bs n)
overwritten-IsValid c pos bs n v h k = ground (arith, length-splice c.buff pos bs)

-- On a valid Buffer a write at or before the end of the bytes in use, whose end a uint32 can
-- count, succeeds: the bytes before the position are kept, those written follow, whatever stood
-- behind them is forgotten, and the Buffer stays valid.
pub write_truncates :
    {b : Buffer} (pos : ℕ) (bs : List ℕ)
    → IsValid b
    → pos ≤ b.size
    → pos + length bs < u32_mod
    → (q : Buffer) × (write b pos bs ≡ ok q) × IsValid q × (bytes q ≡ take pos (bytes b) ++ bs)
unfolding write
write_truncates {b} pos bs v p w =
    let n = pos + length bs in
    let (c, e, v', s, k, room) = ensure_lem n v w in
    (
      overwritten c pos bs n,
      ground (arith, e, copy_in_lem c.buff pos bs),
      overwritten-IsValid c pos bs n v' (omega arith) room,
      ext (bytes (overwritten c pos bs n)) (take pos (bytes b) ++ bs) λ i. ground (
        arith,
        get_elem?-append (take pos (bytes b)) bs i,
        length-take pos (bytes b),
        length-bytes b v,
        get_elem?-take pos (bytes b) i,
        get_elem?-take b.size b.buff i,
        get_elem?-take n (splice c.buff pos bs) i,
        get_elem?-splice c.buff pos bs i,
        get_elem?-none bs (i - pos),
        k i,
      ),
    )

-- A reservation at the end followed by a store of that many bytes.
pub reserve_poke :
    {b : Buffer} (bs : List ℕ)
    → IsValid b
    → b.size + length bs < u32_mod
    → (q q' : Buffer) × (reserve b b.size (length bs) ≡ ok (some b.size, q))
      × (poke q b.size bs ≡ ok q')
      × IsValid q'
      × (bytes q' ≡ bytes b ++ bs)
unfolding reserve poke
reserve_poke {b} bs v w =
    let n = b.size + length bs in
    let (c, e, v', s, k, room) = ensure_lem n v w in
    (
      record c { size = n },
      overwritten c b.size bs n,
      ground (arith, e),
      ground (arith, copy_in_lem c.buff b.size bs),
      overwritten-IsValid c b.size bs n v' (omega arith) room,
      ext (bytes (overwritten c b.size bs n)) (bytes b ++ bs) λ i. ground (
        arith,
        get_elem?-append (bytes b) bs i,
        length-bytes b v,
        get_elem?-take b.size b.buff i,
        get_elem?-take n (splice c.buff b.size bs) i,
        get_elem?-splice c.buff b.size bs i,
        get_elem?-none bs (i - b.size),
        k i,
      ),
    )

slice-bytes :
    (b : Buffer) (pos n : ℕ)
    → IsValid b
    → pos + n ≤ b.size
    → slice b.buff pos n ≡ slice (bytes b) pos n
slice-bytes b pos n v h = ext (slice b.buff pos n) (slice (bytes b) pos n) λ i. ground (
  arith,
  get_elem?-slice b.buff pos n i,
  get_elem?-slice (bytes b) pos n i,
  get_elem?-take b.size b.buff (pos + i),
)

pub read_lem :
    (b : Buffer) (pos n : ℕ)
    → IsValid b
    → pos + n ≤ b.size
    → (read b pos n ≡ ok (slice (bytes b) pos n))
      × (read_pointer b pos n ≡ some pos)
      × (peek b pos n ≡ ok (slice (bytes b) pos n))
unfolding read read_pointer peek
read_lem b pos n v h = ground (arith, copy_out_lem b.buff pos n, slice-bytes b pos n v h)

pub read_outside :
    (b : Buffer) (pos n : ℕ)
    → IsValid b
    → b.size < pos + n
    → pos + n < u32_mod
    → read_pointer b pos n ≡ none
unfolding read_pointer
read_outside b pos n v h w = ground arith

pub write_end :
    (b : Buffer) (bs : List ℕ)
    → IsValid b
    → b.size + length bs < u32_mod
    → (q : Buffer) × (write b b.size bs ≡ ok q) × IsValid q × (bytes q ≡ bytes b ++ bs)
write_end b bs v w =
    let (q, e, v', c) = write_truncates b.size bs v (omega arith) w in
    (
      q,
      e,
      v',
      c ∙ ap (λ xs. xs ++ bs) (take_all b.size (bytes b) (omega (arith, length-bytes b v))),
    )

pub size_word : (b : Buffer) → IsValid b → b.size < u32_mod
size_word b v = omega (arith, v.word, v.size_in)

-- A Buffer is an IBuffer.
abbrev pub buffer_IBuffer : IBuffer Buffer
buffer_IBuffer = record {
  IsValid = IsValid;
  bytes = bytes;
  size = λ b. b.size;
  write = write;
  reserve = reserve;
  read = read;
  read_pointer = read_pointer;
  poke = poke;
  peek = peek;
  length-bytes = length-bytes;
  size_word = size_word;
  write_end = write_end;
  reserve_end = λ b bs v w. reserve_poke bs v w;
  read_inside = read_lem;
  read_outside = read_outside;
}

-- A new buffer and a cleared one are valid and empty, and a copy has the same bytes.
pub create-IsValid :
    (junk : ℕ → ℕ) (n : ℕ) → n < u32_mod → IsValid (create junk n) × (bytes (create junk n) ≡ [])
unfolding create
create-IsValid junk n w = ground (arith, length-alloc junk n, length-alloc junk initial_size)

pub clear-IsValid : {b : Buffer} → IsValid b → IsValid (clear b) × (bytes (clear b) ≡ [])
unfolding clear
clear-IsValid v = ground arith

pub copy_lem :
    (junk : ℕ → ℕ) {b : Buffer}
    → IsValid b
    → (q : Buffer) × (copy junk b ≡ ok q) × IsValid q × (bytes q ≡ bytes b)
unfolding copy
copy_lem junk {b} v =
    let used = slice b.buff 0 b.size in
    let fresh = alloc junk b.capacity in
    (
      record b { buff = splice fresh 0 used },
      ground (
        arith,
        copy_out_lem b.buff 0 b.size,
        length-slice b.buff 0 b.size,
        length-alloc junk b.capacity,
        copy_in_lem fresh 0 used,
      ),
      ground (
        arith,
        length-slice b.buff 0 b.size,
        length-alloc junk b.capacity,
        length-splice fresh 0 used,
      ),
      ext (take b.size (splice fresh 0 used)) (bytes b) λ i. ground (
        arith,
        length-slice b.buff 0 b.size,
        length-alloc junk b.capacity,
        get_elem?-take b.size b.buff i,
        get_elem?-take b.size (splice fresh 0 used) i,
        get_elem?-splice fresh 0 used i,
        get_elem?-slice b.buff 0 b.size i,
      ),
    )
