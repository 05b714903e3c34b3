-- ===== src/Engine/Serializes/Laws.antt =====
-- The wire form of each type, and its two overloads of `Serialize`.
use zlnet.Base.{ℕ, ◌+◌, ◌^◌, ◌<◌, ◌∙◌, arith, List, ◌++◌, length, u32_mod, length-append, take_all}
use mathlib.Core.List.{append_assoc}
use native.Mathlib.Nat.{mod-eq_of_lt}
use zlnet.Network.IBuffer.{IBuffer}
use zlnet.Network.ByteOrder.{Host, be_bytes}
use zlnet.Network.ByteOrder.Laws.{length-be_bytes}
use zlnet.Network.BufferWriter.{BufferWriter}
use zlnet.Network.BufferWriter.Laws.{AtEnd, Appends, Appends-bind, write_words_lem, write_bytes_lem}
use zlnet.Network.BufferReader.{BufferReader, read_int32}
use zlnet.Network.BufferReader.Laws.{
  Holds, Takes, read_signed, read_uint8_lem, read_uint16_lem, read_uint32_lem, read_uint64_lem,
  read_space_lem,
}
use zlnet.Engine.Serializes.{
  Serial, put_string, get_string, append_from, serialize_string, serialize_uint8, serialize_uint16,
  serialize_uint32, serialize_uint64, serialize_int8, serialize_int16, serialize_int32,
  serialize_int64,
}

module _ {S : Type 0} (buffer : IBuffer S) (h : Host) where
  -- What a type's two overloads promise one another: `encode` is the wire form, of the values in
  -- `Fits`. Eight bytes of room are left in the count of a `uint32`.
  pub record Codec (T : Type 0) : Type 1 where
    pub serial : Serial S T
    pub encode : T → List ℕ
    pub Fits : T → Type 0
    pub put_lem :
        (w : BufferWriter S) (v : T)
        → AtEnd buffer w
        → Fits v
        → w.pos + length (encode v) + 8 < u32_mod
        → Appends buffer w (encode v) (serial.put w v)
    pub get_lem :
        (r : BufferReader S) (v : T) (rest : List ℕ)
        → Fits v
        → Holds buffer r (encode v ++ rest)
        → Takes buffer v r rest (serial.get r)

  pub read_int32_lem :
      (r : BufferReader S) (v : ℕ) (rest : List ℕ)
      → v < 2 ^ 32
      → Holds buffer r (be_bytes 4 v ++ rest)
      → Takes buffer v r rest (read_int32 buffer h r)
  read_int32_lem r v rest w o =
      rw ((read_signed buffer h r).2) (read_uint32_lem buffer h r v rest w o)

  unfoldable pub uint8_codec : Codec ℕ
  unfolding serialize_uint8
  uint8_codec = record {
    serial = serialize_uint8 buffer h;
    encode = be_bytes 1;
    Fits = λ v. v < 2 ^ 8;
    put_lem = λ w v a f room. (write_words_lem buffer h v a (omega arith)).0;
    get_lem = read_uint8_lem buffer h;
  }

  unfoldable pub uint16_codec : Codec ℕ
  unfolding serialize_uint16
  uint16_codec = record {
    serial = serialize_uint16 buffer h;
    encode = be_bytes 2;
    Fits = λ v. v < 2 ^ 16;
    put_lem = λ w v a f room. (write_words_lem buffer h v a (omega arith)).1;
    get_lem = read_uint16_lem buffer h;
  }

  unfoldable pub uint32_codec : Codec ℕ
  unfolding serialize_uint32
  uint32_codec = record {
    serial = serialize_uint32 buffer h;
    encode = be_bytes 4;
    Fits = λ v. v < 2 ^ 32;
    put_lem = λ w v a f room. (write_words_lem buffer h v a (omega arith)).2;
    get_lem = read_uint32_lem buffer h;
  }

  unfoldable pub uint64_codec : Codec ℕ
  unfolding serialize_uint64
  uint64_codec = record {
    serial = serialize_uint64 buffer h;
    encode = be_bytes 8;
    Fits = λ v. v < 2 ^ 64;
    put_lem = λ w v a f room. (write_words_lem buffer h v a (omega arith)).3;
    get_lem = read_uint64_lem buffer h;
  }

  unfoldable pub int8_codec : Codec ℕ
  unfolding serialize_int8
  int8_codec = record {
    serial = serialize_int8 buffer h;
    encode = be_bytes 1;
    Fits = λ v. v < 2 ^ 8;
    put_lem = λ w v a f room. (write_words_lem buffer h v a (omega arith)).4;
    get_lem =
        λ r v rest f o. rw ((read_signed buffer h r).0) (read_uint8_lem buffer h r v rest f o);
  }

  unfoldable pub int16_codec : Codec ℕ
  unfolding serialize_int16
  int16_codec = record {
    serial = serialize_int16 buffer h;
    encode = be_bytes 2;
    Fits = λ v. v < 2 ^ 16;
    put_lem = λ w v a f room. (write_words_lem buffer h v a (omega arith)).5;
    get_lem =
        λ r v rest f o. rw ((read_signed buffer h r).1) (read_uint16_lem buffer h r v rest f o);
  }

  unfoldable pub int32_codec : Codec ℕ
  unfolding serialize_int32
  int32_codec = record {
    serial = serialize_int32 buffer h;
    encode = be_bytes 4;
    Fits = λ v. v < 2 ^ 32;
    put_lem = λ w v a f room. (write_words_lem buffer h v a (omega arith)).6;
    get_lem =
        λ r v rest f o. rw ((read_signed buffer h r).2) (read_uint32_lem buffer h r v rest f o);
  }

  unfoldable pub int64_codec : Codec ℕ
  unfolding serialize_int64
  int64_codec = record {
    serial = serialize_int64 buffer h;
    encode = be_bytes 8;
    Fits = λ v. v < 2 ^ 64;
    put_lem = λ w v a f room. (write_words_lem buffer h v a (omega arith)).7;
    get_lem =
        λ r v rest f o. rw ((read_signed buffer h r).3) (read_uint64_lem buffer h r v rest f o);
  }

  -- A string: its length in four bytes, then its bytes.
  abbrev pub string_encode : List ℕ → List ℕ
  string_encode value = be_bytes 4 (length value) ++ value

  pub put_string_lem :
      (w : BufferWriter S) (v : List ℕ)
      → AtEnd buffer w
      → length v < 2 ^ 31
      → w.pos + length (string_encode v) + 8 < u32_mod
      → Appends buffer w (string_encode v) (put_string buffer h w v)
  unfolding put_string
  put_string_lem w v a f room =
      let l = length-append (be_bytes 4 (length v)) v in
      let l4 = length-be_bytes 4 (length v) in
      rw
        (
          mod-eq_of_lt {n = length v} {m = u32_mod} (omega arith),
          take_all (length v) v (omega arith),
        )
        (Appends-bind buffer w (be_bytes 4 (length v)) v _ _ a
          (write_words_lem buffer h (length v) a (omega arith)).6
          λ q z e. write_bytes_lem buffer v z (omega (arith, l, l4)))

  pub get_string_lem :
      (r : BufferReader S) (v rest : List ℕ)
      → length v < 2 ^ 31
      → Holds buffer r (string_encode v ++ rest)
      → Takes buffer v r rest (get_string buffer h r)
  unfolding get_string append_from
  get_string_lem r v rest f o =
      let o1 : Holds buffer r (be_bytes 4 (length v) ++ (v ++ rest)) = rw append_assoc at o in
      let (q, e, o2, b) = read_int32_lem r (length v) (v ++ rest) (omega arith) o1 in
      let (q', e', g, o3, b') = read_space_lem buffer v rest o2 in
      (q', rw (e, e') (ground (arith, g)), o3, b' ∙ b)

  unfoldable pub string_codec : Codec (List ℕ)
  unfolding serialize_string
  string_codec = record {
    serial = serialize_string buffer h;
    encode = string_encode;
    Fits = λ v. length v < 2 ^ 31;
    put_lem = put_string_lem;
    get_lem = get_string_lem;
  }
