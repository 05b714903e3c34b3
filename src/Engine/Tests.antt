-- ===== src/Engine/Tests.antt =====
-- Runs of the serialization on concrete values.
use zlnet.Base.{ℕ, refl, arith, List, [], ◌∷◌, ◌++◌, ltb}
use zlnet.Network.Buffer.{Buffer}
use zlnet.Network.Buffer.Laws.{buffer_IBuffer, IsValid}
use zlnet.Network.ByteOrder.{Host, little, be_bytes}
use zlnet.Engine.Serializes.{
  serialize_string, serialize_vector, serialize_set, serialize_map, serialize_uint32,
  serialize_int64, serialize_uint8, serialize_uint16, serialize_uint64, serialize_int8,
  serialize_int16, serialize_int32,
}
use zlnet.Engine.Serializes.Laws.{string_codec, int32_codec, int64_codec}
use zlnet.Engine.Serializes.Containers.{encode_sequence}
use zlnet.Engine.Serializes.Maps.{encode_map}
use zlnet.Engine.Serializes.RoundTrip.{
  RoundTrip, integer-RoundTrip, string-RoundTrip, vector-RoundTrip, set-RoundTrip, map-RoundTrip,
}

abbrev host : Host
host = record { endian = little; long_size = 8 }

abbrev new_buffer : Buffer
new_buffer = record { size = 0; capacity = 4; buff = 0 ∷ 0 ∷ 0 ∷ 0 ∷ [] }

new_buffer-IsValid : IsValid new_buffer
new_buffer-IsValid = omega arith

integer-RoundTrip_example :
    RoundTrip buffer_IBuffer host
      (serialize_uint8 buffer_IBuffer host)
      new_buffer
      200
      (be_bytes 1 200)
    × RoundTrip buffer_IBuffer host
        (serialize_uint16 buffer_IBuffer host)
        new_buffer
        300
        (be_bytes 2 300)
    × RoundTrip buffer_IBuffer host
        (serialize_uint32 buffer_IBuffer host)
        new_buffer
        70000
        (be_bytes 4 70000)
    × RoundTrip buffer_IBuffer host
        (serialize_uint64 buffer_IBuffer host)
        new_buffer
        5
        (be_bytes 8 5)
    × RoundTrip buffer_IBuffer host
        (serialize_int8 buffer_IBuffer host)
        new_buffer
        200
        (be_bytes 1 200)
    × RoundTrip buffer_IBuffer host
        (serialize_int16 buffer_IBuffer host)
        new_buffer
        300
        (be_bytes 2 300)
    × RoundTrip buffer_IBuffer host
        (serialize_int32 buffer_IBuffer host)
        new_buffer
        70000
        (be_bytes 4 70000)
    × RoundTrip buffer_IBuffer host
        (serialize_int64 buffer_IBuffer host)
        new_buffer
        5
        (be_bytes 8 5)
integer-RoundTrip_example =
    integer-RoundTrip buffer_IBuffer host new_buffer new_buffer-IsValid refl 200 300 70000 5
      (omega arith) (omega arith) (omega arith) (omega arith)

abbrev hi : List ℕ
hi = 104 ∷ 105 ∷ []

string-RoundTrip_example :
    RoundTrip buffer_IBuffer host
      (serialize_string buffer_IBuffer host)
      new_buffer
      hi
      (be_bytes 4 2 ++ hi)
unfolding be_bytes zlnet.Network.ByteOrder.le_bytes
string-RoundTrip_example =
    string-RoundTrip buffer_IBuffer host new_buffer new_buffer-IsValid refl hi (omega arith)
      (omega arith)

abbrev strings : List (List ℕ)
strings = hi ∷ [] ∷ (7 ∷ []) ∷ []

vector-RoundTrip_example :
    RoundTrip buffer_IBuffer host
      (serialize_vector buffer_IBuffer host (serialize_string buffer_IBuffer host))
      new_buffer
      strings
      (encode_sequence buffer_IBuffer host (string_codec buffer_IBuffer host) strings)
unfolding string_codec be_bytes zlnet.Network.ByteOrder.le_bytes
vector-RoundTrip_example =
    vector-RoundTrip buffer_IBuffer host new_buffer new_buffer-IsValid refl
      (string_codec buffer_IBuffer host) strings (omega arith)
      (omega arith, (omega arith, (omega arith, tt))) (omega arith)

abbrev numbers : List ℕ
numbers = 3 ∷ 70000 ∷ 4000000000 ∷ []

set-RoundTrip_example :
    RoundTrip buffer_IBuffer host
      (serialize_set buffer_IBuffer host (serialize_int32 buffer_IBuffer host) ltb)
      new_buffer
      numbers
      (encode_sequence buffer_IBuffer host (int32_codec buffer_IBuffer host) numbers)
unfolding int32_codec be_bytes zlnet.Network.ByteOrder.le_bytes
set-RoundTrip_example =
    set-RoundTrip buffer_IBuffer host new_buffer new_buffer-IsValid refl
      (int32_codec buffer_IBuffer host) ltb numbers (omega arith)
      (omega arith, (omega arith, (omega arith, tt))) (tt, ((refl, tt), ((refl, (refl, tt)), tt)))
      (omega arith)

abbrev entries : List (ℕ × ℕ)
entries = (3, 9) ∷ (70000, 1) ∷ []

map-RoundTrip_example :
    RoundTrip buffer_IBuffer host
      (serialize_map buffer_IBuffer host
        (serialize_int32 buffer_IBuffer host)
        (serialize_int64 buffer_IBuffer host)
        ltb)
      new_buffer
      entries
      (encode_map buffer_IBuffer host
        (int32_codec buffer_IBuffer host)
        (int64_codec buffer_IBuffer host)
        entries)
unfolding int32_codec int64_codec be_bytes zlnet.Network.ByteOrder.le_bytes
map-RoundTrip_example =
    map-RoundTrip buffer_IBuffer host new_buffer new_buffer-IsValid refl
      (int32_codec buffer_IBuffer host) (int64_codec buffer_IBuffer host) ltb entries (omega arith)
      (omega arith, omega arith, (omega arith, omega arith, tt)) (tt, ((refl, tt), tt))
      (omega arith)
