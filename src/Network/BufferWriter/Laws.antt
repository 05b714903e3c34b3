-- ===== src/Network/BufferWriter/Laws.antt =====
-- The stores of a BufferWriter at the end of its buffer.
use zlnet.Base.{
  ℕ, ◌+◌, ◌<◌, ◌≡◌, ap, ◌∙◌, sym, arith, List, ◌++◌, length, Result, ok, ◌>>=◌, u32_mod,
  length-append, add32,
}
use mathlib.Core.List.{append_assoc}
use zlnet.Network.IBuffer.{IBuffer}
use native.Mathlib.Nat.{mod-eq_of_lt}
use zlnet.Network.ByteOrder.{Host, be_bytes, host_to_network_float, host_to_network_double}
use zlnet.Network.ByteOrder.Laws.{host_to_network_lem, length-be_bytes, to_memory_one}
use zlnet.Network.BufferWriter.{
  BufferWriter, store, write_bytes, write_uint8, write_uint16, write_uint32, write_uint64,
  write_int8, write_int16, write_int32, write_int64, write_float, write_double, write_string,
}

module _ {S : Type 0} (buffer : IBuffer S) where
  -- The position of the writer is the end of the bytes in use.
  pub record AtEnd (w : BufferWriter S) : Type 0 where
    pub valid : buffer.IsValid w.buf
    pub at_end : w.pos ≡ buffer.size w.buf

  -- The call succeeds, and `bs` stand behind the bytes that were in use.
  abbrev pub Appends : BufferWriter S → List ℕ → Result (BufferWriter S) → Type 0
  Appends w bs m =
      (q : BufferWriter S) × (m ≡ ok q) × AtEnd q × (buffer.bytes q.buf ≡ buffer.bytes w.buf ++ bs)

  pub pos-bytes : {w : BufferWriter S} → AtEnd w → w.pos ≡ length (buffer.bytes w.buf)
  pos-bytes {w} a = a.at_end ∙ sym (buffer.length-bytes w.buf a.valid)

  -- The end after `bs` were appended.
  end_after :
      {w : BufferWriter S} (q : S) (bs : List ℕ)
      → AtEnd w
      → buffer.IsValid q
      → buffer.bytes q ≡ buffer.bytes w.buf ++ bs
      → buffer.size q ≡ w.pos + length bs
  end_after {w} q bs a v e =
      sym (buffer.length-bytes q v)
      ∙ ap length e
      ∙ length-append (buffer.bytes w.buf) bs
      ∙ ap (λ (k : ℕ). k + length bs) (sym (pos-bytes a))

  pub store_lem :
      {w : BufferWriter S} (n : ℕ) (bs : List ℕ)
      → AtEnd w
      → length bs ≡ n
      → w.pos + n < u32_mod
      → Appends w bs (store buffer w n bs)
  unfolding store
  store_lem {w} n bs a l fits =
      let (q, q', r, p, v, e) = buffer.reserve_end w.buf bs a.valid (omega (arith, a.at_end)) in
      (
        record { buf = q'; pos = add32 w.pos n },
        rw (← l, a.at_end, r, p),
        record { valid = v; at_end = omega (arith, end_after q' bs a v e) },
        e,
      )

  -- `writeBytes` appends the bytes as they are.
  pub write_bytes_lem :
      {w : BufferWriter S} (bs : List ℕ)
      → AtEnd w
      → w.pos + length bs < u32_mod
      → Appends w bs (write_bytes buffer w bs)
  unfolding write_bytes
  write_bytes_lem {w} bs a fits =
      let (q, r, v, e) = buffer.write_end w.buf bs a.valid (omega (arith, a.at_end)) in
      (
        record { buf = q; pos = add32 w.pos (length bs) },
        rw (a.at_end, r),
        record { valid = v; at_end = omega (arith, end_after q bs a v e) },
        e,
      )

  -- Two calls one after the other append both pieces.
  pub Appends-bind :
      (w : BufferWriter S) (bs cs : List ℕ) (m : Result (BufferWriter S))
      (f : BufferWriter S → Result (BufferWriter S))
      → AtEnd w
      → Appends w bs m
      → ((q : BufferWriter S) → AtEnd q → q.pos ≡ w.pos + length bs → Appends q cs (f q))
      → Appends w (bs ++ cs) (m >>= f)
  Appends-bind w bs cs m f z (q, e, a, b) k =
      let (q', e', a', b') = k q a (a.at_end ∙ end_after q.buf bs z a.valid b) in
      (q', rw e e', a', b' ∙ ap (λ xs. xs ++ cs) b ∙ append_assoc (buffer.bytes w.buf) bs cs)

  module _ (h : Host) {w : BufferWriter S} (v : ℕ) (a : AtEnd w) where
    abbrev Wire : ℕ → (BufferWriter S → ℕ → Result (BufferWriter S)) → Type 0
    Wire n write = Appends w (be_bytes n v) (write w v)

    store_wire :
        (n : ℕ) (bs : List ℕ)
        → bs ≡ be_bytes n v
        → w.pos + n < u32_mod
        → Appends w (be_bytes n v) (store buffer w n bs)
    store_wire n bs e fits = rw e (store_lem n (be_bytes n v) a (length-be_bytes n v) fits)

    -- A writer at the end of a valid buffer, with eight bytes of room in a uint32 position, writes
    -- an integer of each width and sign, a float and a double, as exactly its bytes, the highest
    -- first, behind those in the buffer, and is at the end of a valid buffer again.
    pub write_words_lem :
        w.pos + 8 < u32_mod
        → Wire 1 (write_uint8 buffer h)
          × Wire 2 (write_uint16 buffer h)
          × Wire 4 (write_uint32 buffer h)
          × Wire 8 (write_uint64 buffer h)
          × Wire 1 (write_int8 buffer h)
          × Wire 2 (write_int16 buffer h)
          × Wire 4 (write_int32 buffer h)
          × Wire 8 (write_int64 buffer h)
          × Wire 4 (write_float buffer h)
          × Wire 8 (write_double buffer h)
    unfolding write_uint8 write_uint16 write_uint32 write_uint64 write_int8 write_int16 write_int32
        write_int64 write_float write_double host_to_network_float host_to_network_double
    write_words_lem fits =
        let (l64, l32, l16) = host_to_network_lem h v in
        let w1 = store_wire 1 _ (to_memory_one h.endian v) (omega arith) in
        let w2 = store_wire 2 _ l16 (omega arith) in
        let w4 = store_wire 4 _ l32 (omega arith) in
        let w8 = store_wire 8 _ l64 (omega arith) in (w1, w2, w4, w8, w1, w2, w4, w8, w4, w8)

  -- A writer at the end of a valid buffer, with room in a uint32 position, writes a string as its
  -- length in four bytes followed by its bytes, and is at the end of a valid buffer again.
  pub write_string_lem :
      (h : Host) {w : BufferWriter S} (value : List ℕ)
      → AtEnd w
      → w.pos + length value + 8 < u32_mod
      → Appends w (be_bytes 4 (length value) ++ value) (write_string buffer h w value)
  unfolding write_string
  write_string_lem h {w} value a fits =
      rw (mod-eq_of_lt {n = length value} {m = u32_mod} (omega arith)) (
        Appends-bind w (be_bytes 4 (length value)) value _ _ a
          (write_words_lem h (length value) a (omega arith)).2
          λ q z e.
            unfold write_bytes in
            write_bytes_lem value z (omega (arith, length-be_bytes 4 (length value))))
