-- ===== src/Network/BufferReader/Laws.antt =====
-- The loads of a BufferReader, against the bytes that are left.
use zlnet.Base.{
  ℕ, ◌+◌, ◌^◌, ◌<◌, ◌≡◌, refl, ap, ◌∙◌, arith, List, ◌++◌, length, take, drop, Result, ok, fault,
  assertion, u32_mod, length-append, add32, slice, slice_lem, take-append_length,
  drop-append_length, some, ext, get_elem?-drop,
}
use zlnet.Network.IBuffer.{IBuffer}
use zlnet.Network.ByteOrder.{
  Host, be_bytes, of_memory, network_to_host16, network_to_host32, network_to_host64,
  network_to_host_float, network_to_host_double,
}
use zlnet.Network.ByteOrder.Laws.{network_to_host_lem, length-be_bytes, of_memory_one}
use zlnet.Network.BufferReader.{
  BufferReader, create, load, read_bytes, word, read_space, read_uint8, read_uint16, read_uint32,
  read_uint64, read_int8, read_int16, read_int32, read_int64, read_float, read_double,
}

drop-drop : (m n : ℕ) (xs : List ℕ) → drop n (drop m xs) ≡ drop (m + n) xs
drop-drop m n xs = ext (drop n (drop m xs)) (drop (m + n) xs) λ i. ground (
  arith,
  get_elem?-drop n (drop m xs) i,
  get_elem?-drop m xs (n + i),
  get_elem?-drop (m + n) xs i,
)

module _ {S : Type 0} (buffer : IBuffer S) where
  -- The bytes that the reader has not passed are `xs`.
  pub record Holds (r : BufferReader S) (xs : List ℕ) : Type 0 where
    pub valid : buffer.IsValid r.buf
    pub count : r.pos + length xs ≡ buffer.size r.buf
    pub left : drop r.pos (buffer.bytes r.buf) ≡ xs

  -- A new reader holds all bytes of its buffer.
  pub create-Holds : (b : S) → buffer.IsValid b → Holds (create b) (buffer.bytes b)
  unfolding create
  create-Holds b v = record {
    valid = v;
    count = omega (arith, buffer.length-bytes b v);
    left = refl;
  }

  -- The call returns `v` and leaves the reader with `rest`.
  abbrev pub Takes {ℓ} :
      {A : Type ℓ} → A → BufferReader S → List ℕ → Result (A × BufferReader S) → Type ℓ
  Takes {A} v r rest m = (q : BufferReader S) × (m ≡ ok (v, q)) × Holds q rest × (q.buf ≡ r.buf)

  -- The reader after `n` more bytes.
  abbrev passed : BufferReader S → ℕ → BufferReader S
  passed r n = record r { pos = add32 r.pos n }

  -- The pointer, the bytes at it and the next position, where `bs` are the next bytes.
  next_bytes :
      {r : BufferReader S} (bs rest : List ℕ)
      → Holds r (bs ++ rest)
      → (buffer.read_pointer r.buf r.pos (length bs) ≡ some r.pos)
        × (buffer.peek r.buf r.pos (length bs) ≡ ok bs)
        × Holds (passed r (length bs)) rest
  next_bytes {r} bs rest o =
      let n = length bs in
      let l = length-append bs rest in
      let inside = buffer.read_inside r.buf r.pos n o.valid (omega (arith, o.count, l)) in
      let w = buffer.size_word r.buf o.valid in
      let got : slice (buffer.bytes r.buf) r.pos n ≡ bs =
        slice_lem (buffer.bytes r.buf) r.pos n ∙ ap (take n) o.left ∙ take-append_length bs rest in
      let next : add32 r.pos n ≡ r.pos + n = omega (arith, o.count, l, w) in
      (
        inside.1,
        inside.2 ∙ ap ok got,
        record {
          valid = o.valid;
          count = omega (arith, o.count, l, w);
          left =
              rw (next, ← drop-drop r.pos n (buffer.bytes r.buf), o.left)
                (drop-append_length bs rest);
        },
      )

  pub load_lem :
      {r : BufferReader S} (bs rest : List ℕ)
      → Holds r (bs ++ rest)
      → Takes bs r rest (load buffer r (length bs))
  unfolding load
  load_lem {r} bs rest o =
      let (p, g, z) = next_bytes bs rest o in (passed r (length bs), rw (p, g), z, refl)

  pub read_bytes_lem :
      {r : BufferReader S} (bs rest : List ℕ)
      → Holds r (bs ++ rest)
      → Takes bs r rest (read_bytes buffer r (length bs))
  unfolding read_bytes
  read_bytes_lem bs rest o = load_lem bs rest o

  pub read_space_lem :
      {r : BufferReader S} (bs rest : List ℕ)
      → Holds r (bs ++ rest)
      → (q : BufferReader S) × (read_space buffer r (length bs) ≡ (some r.pos, q))
        × (buffer.peek q.buf r.pos (length bs) ≡ ok bs)
        × Holds q rest
        × (q.buf ≡ r.buf)
  unfolding read_space
  read_space_lem {r} bs rest o =
      let (p, g, z) = next_bytes bs rest o in (passed r (length bs), rw p, g, z, refl)

  module _ (h : Host) (r : BufferReader S) (v : ℕ) (rest : List ℕ) where
    word_lem :
        (n : ℕ) → Holds r (be_bytes n v ++ rest) → Takes (be_bytes n v) r rest (load buffer r n)
    word_lem n o = rw (length-be_bytes n v) at (load_lem (be_bytes n v) rest o)

    take_word :
        (n : ℕ) (convert : ℕ → ℕ)
        → convert (of_memory h.endian (be_bytes n v)) ≡ v
        → Holds r (be_bytes n v ++ rest)
        → Takes v r rest (word buffer h n convert r)
    unfolding word
    take_word n convert e o = let (q, g, z, b) = word_lem n o in (q, ground (arith, g, e), z, b)

    pub read_uint8_lem :
        v < 2 ^ 8 → Holds r (be_bytes 1 v ++ rest) → Takes v r rest (read_uint8 buffer h r)
    unfolding read_uint8
    read_uint8_lem w = take_word 1 (λ x. x) (of_memory_one h.endian v w)

    pub read_uint16_lem :
        v < 2 ^ 16 → Holds r (be_bytes 2 v ++ rest) → Takes v r rest (read_uint16 buffer h r)
    unfolding read_uint16
    read_uint16_lem w =
        take_word 2 (network_to_host16 h)
          (network_to_host_lem h 0 0 v (omega arith) (omega arith) w).2

    pub read_uint32_lem :
        v < 2 ^ 32 → Holds r (be_bytes 4 v ++ rest) → Takes v r rest (read_uint32 buffer h r)
    unfolding read_uint32
    read_uint32_lem w =
        take_word 4 (network_to_host32 h)
          (network_to_host_lem h 0 v 0 (omega arith) w (omega arith)).1

    pub read_uint64_lem :
        v < 2 ^ 64 → Holds r (be_bytes 8 v ++ rest) → Takes v r rest (read_uint64 buffer h r)
    unfolding read_uint64
    read_uint64_lem w =
        take_word 8 (network_to_host64 h)
          (network_to_host_lem h v 0 0 w (omega arith) (omega arith)).0

  -- The readers of signed integers and of floats return the bits of the unsigned readers.
  pub read_signed :
      (h : Host) (r : BufferReader S)
      → (read_int8 buffer h r ≡ read_uint8 buffer h r)
        × (read_int16 buffer h r ≡ read_uint16 buffer h r)
        × (read_int32 buffer h r ≡ read_uint32 buffer h r)
        × (read_int64 buffer h r ≡ read_uint64 buffer h r)
        × (read_float buffer h r ≡ read_uint32 buffer h r)
        × (read_double buffer h r ≡ read_uint64 buffer h r)
  unfolding read_int8 read_int16 read_int32 read_int64 read_float read_double read_uint8 read_uint16
      read_uint32 read_uint64 word network_to_host_float network_to_host_double
  read_signed h r = (refl, refl, refl, refl, refl, refl)

  -- Where a reader of a valid buffer has fewer bytes left than a load asks for, and the sum of
  -- position and size stays below 2 ^ 32, the load is an assertion failure.
  pub load_refused :
      {r : BufferReader S} (xs : List ℕ) (n : ℕ)
      → Holds r xs
      → length xs < n
      → r.pos + n < u32_mod
      → load buffer r n ≡ fault assertion
  unfolding load
  load_refused {r} xs n o h w =
      rw (buffer.read_outside r.buf r.pos n o.valid (omega (arith, o.count)) w)
