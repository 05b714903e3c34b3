-- ===== src/Engine/Serializes/RoundTrip.antt =====
-- Writing a value to an empty buffer, and reading it back.
use zlnet.Base.{ℕ, ◌+◌, ◌^◌, ◌<◌, ◌≡◌, arith, List, [], ◌++◌, length, Bool, ok, u32_mod, ◌∙◌, ap}
use mathlib.Core.List.{append-nil}
use zlnet.Network.IBuffer.{IBuffer}
use zlnet.Network.ByteOrder.{Host, be_bytes}
use zlnet.Network.BufferWriter.{BufferWriter}
use zlnet.Network.BufferWriter
use zlnet.Network.BufferWriter.Laws.{AtEnd}
use zlnet.Network.BufferReader.{BufferReader}
use zlnet.Network.BufferReader
use zlnet.Network.BufferReader.Laws.{Holds, create-Holds}
use zlnet.Engine.Serializes.{
  Serial, serialize_string, serialize_vector, serialize_set, serialize_map, serialize_uint8,
  serialize_uint16, serialize_uint32, serialize_uint64, serialize_int8, serialize_int16,
  serialize_int32, serialize_int64,
}
use zlnet.Engine.Serializes.Laws.{
  Codec, string_codec, string_encode, uint8_codec, uint16_codec, uint32_codec, uint64_codec,
  int8_codec, int16_codec, int32_codec, int64_codec,
}
use zlnet.Network.ByteOrder.Laws.{length-be_bytes}
use zlnet.Engine.Serializes.Containers.{vector_codec, set_codec, encode_sequence, AllFit, Sorted}
use zlnet.Engine.Serializes.Maps.{map_codec, encode_map, EntriesFit, KeysSorted}

module _ {S : Type 0} (buffer : IBuffer S) (h : Host) where
  -- Writing `v` to `b` leaves exactly `wire` there, and a new reader reads `v` and nothing is left.
  abbrev pub RoundTrip : {T : Type 0} → Serial S T → S → T → List ℕ → Type 0
  RoundTrip s b v wire =
      (w : BufferWriter S) × (r : BufferReader S) × (s.put (BufferWriter.create b) v ≡ ok w)
      × (buffer.bytes w.buf ≡ wire)
      × (s.get (BufferReader.create w.buf) ≡ ok (v, r))
      × Holds buffer r []

  round_trip :
      {T : Type 0} (c : Codec buffer h T) (b : S) (v : T)
      → buffer.IsValid b
      → buffer.bytes b ≡ []
      → c.Fits v
      → length (c.encode v) + 8 < u32_mod
      → RoundTrip c.serial b v (c.encode v)
  unfolding BufferWriter.create
  round_trip c b v z e f room =
      let at_end : AtEnd buffer (BufferWriter.create b) = record {
        valid = z;
        at_end = omega (arith, buffer.length-bytes b z, ap length e);
      } in
      let (w, p, a, t) = c.put_lem (BufferWriter.create b) v at_end f (omega arith) in
      let wire : buffer.bytes w.buf ≡ c.encode v = t ∙ ap (λ xs. xs ++ c.encode v) e in
      let o : Holds buffer (BufferReader.create w.buf) (c.encode v ++ []) =
        rw (append-nil, ← wire) (create-Holds buffer w.buf a.valid) in
      let (r, g, o', _) = c.get_lem (BufferReader.create w.buf) v [] f o in (w, r, p, wire, g, o')

  module _ (b : S) (valid : buffer.IsValid b) (empty : buffer.bytes b ≡ []) where
    -- An integer of each width and sign, a signed one as its bits, is serialized to an empty
    -- buffer as its bytes, the highest first, and a new reader reads it back and leaves nothing.
    pub integer-RoundTrip :
        (v1 v2 v4 v8 : ℕ)
        → v1 < 2 ^ 8
        → v2 < 2 ^ 16
        → v4 < 2 ^ 32
        → v8 < 2 ^ 64
        → RoundTrip (serialize_uint8 buffer h) b v1 (be_bytes 1 v1)
          × RoundTrip (serialize_uint16 buffer h) b v2 (be_bytes 2 v2)
          × RoundTrip (serialize_uint32 buffer h) b v4 (be_bytes 4 v4)
          × RoundTrip (serialize_uint64 buffer h) b v8 (be_bytes 8 v8)
          × RoundTrip (serialize_int8 buffer h) b v1 (be_bytes 1 v1)
          × RoundTrip (serialize_int16 buffer h) b v2 (be_bytes 2 v2)
          × RoundTrip (serialize_int32 buffer h) b v4 (be_bytes 4 v4)
          × RoundTrip (serialize_int64 buffer h) b v8 (be_bytes 8 v8)
    unfolding uint8_codec uint16_codec uint32_codec uint64_codec int8_codec int16_codec int32_codec
        int64_codec
    integer-RoundTrip v1 v2 v4 v8 h1 h2 h4 h8 =
        let small : (n v : ℕ) → n < 9 → length (be_bytes n v) + 8 < u32_mod =
          λ n v f. omega (arith, length-be_bytes n v) in
        (
          round_trip (uint8_codec buffer h) b v1 valid empty h1 (small 1 v1 (omega arith)),
          round_trip (uint16_codec buffer h) b v2 valid empty h2 (small 2 v2 (omega arith)),
          round_trip (uint32_codec buffer h) b v4 valid empty h4 (small 4 v4 (omega arith)),
          round_trip (uint64_codec buffer h) b v8 valid empty h8 (small 8 v8 (omega arith)),
          round_trip (int8_codec buffer h) b v1 valid empty h1 (small 1 v1 (omega arith)),
          round_trip (int16_codec buffer h) b v2 valid empty h2 (small 2 v2 (omega arith)),
          round_trip (int32_codec buffer h) b v4 valid empty h4 (small 4 v4 (omega arith)),
          round_trip (int64_codec buffer h) b v8 valid empty h8 (small 8 v8 (omega arith)),
        )

    -- A string of fewer than 2 ^ 31 bytes is serialized to an empty buffer as its length in four
    -- bytes and its bytes, and a new reader reads it back and leaves nothing.
    pub string-RoundTrip :
        (v : List ℕ)
        → length v < 2 ^ 31
        → length (string_encode buffer h v) + 8 < u32_mod
        → RoundTrip (serialize_string buffer h) b v (be_bytes 4 (length v) ++ v)
    unfolding string_codec
    string-RoundTrip v f room = round_trip (string_codec buffer h) b v valid empty f room

    -- A vector of fewer than 2 ^ 31 elements, each with a wire form that is read back, and with a
    -- wire form of its own below 2 ^ 32 - 8 bytes, is serialized to an empty buffer as its count
    -- and its elements, and a new reader reads back the same vector and leaves nothing.
    pub vector-RoundTrip :
        {T : Type 0} (c : Codec buffer h T) (vs : List T)
        → length vs < 2 ^ 31
        → AllFit buffer h c vs
        → length (encode_sequence buffer h c vs) + 8 < u32_mod
        → RoundTrip (serialize_vector buffer h c.serial) b vs (encode_sequence buffer h c vs)
    unfolding vector_codec
    vector-RoundTrip c vs f fs room =
        round_trip (vector_codec buffer h c) b vs valid empty (f, fs) room

    -- A set of fewer than 2 ^ 31 elements in strictly ascending order, each with a wire form that
    -- is read back, and with a wire form of its own below 2 ^ 32 - 8 bytes, is serialized to an
    -- empty buffer as its count and its elements, and a new reader, which inserts one element
    -- after the other, reads back the same set and leaves nothing.
    pub set-RoundTrip :
        {T : Type 0} (c : Codec buffer h T) (less : T → T → Bool) (vs : List T)
        → length vs < 2 ^ 31
        → AllFit buffer h c vs
        → Sorted buffer h c less [] vs
        → length (encode_sequence buffer h c vs) + 8 < u32_mod
        → RoundTrip (serialize_set buffer h c.serial less) b vs (encode_sequence buffer h c vs)
    unfolding set_codec
    set-RoundTrip c less vs f fs s room =
        round_trip (set_codec buffer h c less) b vs valid empty (f, fs, s) room

    -- A map of fewer than 2 ^ 31 entries, in the order of distinct keys, whose keys and values
    -- have a wire form that is read back and whose own wire form is below 2 ^ 32 - 8 bytes, is
    -- serialized to an empty buffer as its count and its entries, and a new reader reads back the
    -- same map and leaves nothing.
    pub map-RoundTrip :
        {K V : Type 0} (ck : Codec buffer h K) (cv : Codec buffer h V) (less : K → K → Bool)
        (m : List (K × V))
        → length m < 2 ^ 31
        → EntriesFit buffer h ck cv m
        → KeysSorted buffer h ck cv less [] m
        → length (encode_map buffer h ck cv m) + 8 < u32_mod
        → RoundTrip
            (serialize_map buffer h ck.serial cv.serial less)
            b
            m
            (encode_map buffer h ck cv m)
    unfolding map_codec
    map-RoundTrip ck cv less m f fs s room =
        round_trip (map_codec buffer h ck cv less) b m valid empty (f, fs, s) room
