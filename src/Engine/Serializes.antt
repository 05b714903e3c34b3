-- ===== src/Engine/Serializes.antt =====
-- engine/Serializes.h and engine/Serializes.cpp: the wire form of values, by the overloads of
-- `Serialize`. A std::string is its bytes, a std::map the list of its entries and a std::set that of
-- its elements, both in the order of the keys. A signed integer is its bits.
pub mod Laws
pub mod Containers
pub mod Maps
pub mod RoundTrip
use zlnet.Base.{
  ℕ, zero, suc, ◌+◌, ◌%◌, ◌^◌, List, [], ◌∷◌, length, take, Option, Bool, leb, if◌then◌else◌,
  Result, ok, fault, thrown, ◌>>=◌, deref, u32_mod,
}
use zlnet.Network.IBuffer.{IBuffer}
use zlnet.Network.ByteOrder.{Host}
use zlnet.Network.BufferWriter.{
  BufferWriter, write_bytes, write_uint8, write_uint16, write_uint32, write_uint64, write_int8,
  write_int16, write_int32, write_int64,
}
use zlnet.Network.BufferReader.{
  BufferReader, read_space, read_uint8, read_uint16, read_uint32, read_uint64, read_int8,
  read_int16, read_int32, read_int64,
}

-- The two overloads of `Serialize` for a type.
pub record Serial (S : Type 0) (T : Type 0) : Type 0 where
  pub put : BufferWriter S → T → Result (BufferWriter S)
  pub get : BufferReader S → Result (T × BufferReader S)

-- `std::map::operator[]` followed by an assignment, and `std::set::insert`; `less` is the order of the
-- keys.
pub assign : {K V : Type 0} → (K → K → Bool) → K → V → List (K × V) → List (K × V)
assign less k v [] = (k, v) ∷ []
assign less k v ((j, w) ∷ m) =
    let later = assign less k v m in
    if less j k then (j, w) ∷ later else if less k j then (k, v) ∷ (j, w) ∷ m else (j, v) ∷ m

pub insert : {K : Type 0} → (K → K → Bool) → K → List K → List K
insert less k [] = k ∷ []
insert less k (j ∷ m) =
    let later = insert less k m in
    if less j k then j ∷ later else if less k j then k ∷ j ∷ m else j ∷ m

module _ {S : Type 0} (buffer : IBuffer S) (h : Host) where
  pub serialize_uint8 : Serial S ℕ
  serialize_uint8 = record { put = write_uint8 buffer h; get = read_uint8 buffer h }

  pub serialize_uint16 : Serial S ℕ
  serialize_uint16 = record { put = write_uint16 buffer h; get = read_uint16 buffer h }

  pub serialize_uint32 : Serial S ℕ
  serialize_uint32 = record { put = write_uint32 buffer h; get = read_uint32 buffer h }

  pub serialize_uint64 : Serial S ℕ
  serialize_uint64 = record { put = write_uint64 buffer h; get = read_uint64 buffer h }

  pub serialize_int8 : Serial S ℕ
  serialize_int8 = record { put = write_int8 buffer h; get = read_int8 buffer h }

  pub serialize_int16 : Serial S ℕ
  serialize_int16 = record { put = write_int16 buffer h; get = read_int16 buffer h }

  pub serialize_int32 : Serial S ℕ
  serialize_int32 = record { put = write_int32 buffer h; get = read_int32 buffer h }

  pub serialize_int64 : Serial S ℕ
  serialize_int64 = record { put = write_int64 buffer h; get = read_int64 buffer h }

  pub put_string : BufferWriter S → List ℕ → Result (BufferWriter S)
  put_string w value = do
    let len = length value % u32_mod
    w' ← write_int32 buffer h w len
    write_bytes buffer w' (take len value)

  -- `value.append(buff, len)`, where a negative `len` is a length that no string has.
  append_from : S → Option ℕ → ℕ → Result (List ℕ)
  append_from b p len =
      let copied = (do off ← deref p; buffer.peek b off len) in
      if leb (2 ^ 31) len then fault thrown else copied

  pub get_string : BufferReader S → Result (List ℕ × BufferReader S)
  unfolding append_from
  get_string r = do
    (len, r') ← read_int32 buffer h r
    let (buff, r'') = read_space buffer r' len
    value ← append_from r''.buf buff len
    ok (value, r'')

  pub serialize_string : Serial S (List ℕ)
  unfolding put_string get_string
  serialize_string = record { put = put_string; get = get_string }

  module _ {T : Type 0} (element : Serial S T) where
    put_all : BufferWriter S → List T → Result (BufferWriter S)
    put_all w [] = ok w
    put_all w (v ∷ vs) = do w' ← element.put w v; put_all w' vs

    pub put_sequence : BufferWriter S → List T → Result (BufferWriter S)
    unfolding put_all
    put_sequence w vs = do w' ← write_int32 buffer h w (length vs % u32_mod); put_all w' vs

    get_all : ℕ → BufferReader S → Result (List T × BufferReader S)
    get_all zero r = ok ([], r)
    get_all (suc n) r = do (v, r') ← element.get r; (vs, r'') ← get_all n r'; ok (v ∷ vs, r'')

    -- `vec.resize(len)` throws for a negative `len`.
    pub get_vector : BufferReader S → Result (List T × BufferReader S)
    unfolding get_all
    get_vector r = do
      (len, r') ← read_int32 buffer h r
      if leb (2 ^ 31) len then fault thrown else get_all len r'

    pub serialize_vector : Serial S (List T)
    unfolding put_sequence get_vector
    serialize_vector = record { put = put_sequence; get = get_vector }

    -- `for (; len; len--)`: the loop runs as often as the bits of `len` count.
    insert_all : (T → T → Bool) → ℕ → List T → BufferReader S → Result (List T × BufferReader S)
    insert_all less zero set r = ok (set, r)
    insert_all less (suc n) set r = do
      (v, r') ← element.get r
      insert_all less n (insert less v set) r'

    pub get_set : (T → T → Bool) → BufferReader S → Result (List T × BufferReader S)
    unfolding insert_all
    get_set less r = do (len, r') ← read_int32 buffer h r; insert_all less len [] r'

    pub serialize_set : (T → T → Bool) → Serial S (List T)
    unfolding put_sequence get_set
    serialize_set less = record { put = put_sequence; get = get_set less }

  module _ {K V : Type 0} (key : Serial S K) (value : Serial S V) where
    put_entries : BufferWriter S → List (K × V) → Result (BufferWriter S)
    put_entries w [] = ok w
    put_entries w ((k, v) ∷ m) = do w' ← key.put w k; w'' ← value.put w' v; put_entries w'' m

    pub put_map : BufferWriter S → List (K × V) → Result (BufferWriter S)
    unfolding put_entries
    put_map w m = do w' ← write_int32 buffer h w (length m % u32_mod); put_entries w' m

    assign_all :
        (K → K → Bool) → ℕ → List (K × V) → BufferReader S → Result (List (K × V) × BufferReader S)
    assign_all less zero m r = ok (m, r)
    assign_all less (suc n) m r = do
      (k, r') ← key.get r
      (v, r'') ← value.get r'
      assign_all less n (assign less k v m) r''

    pub get_map : (K → K → Bool) → BufferReader S → Result (List (K × V) × BufferReader S)
    unfolding assign_all
    get_map less r = do (len, r') ← read_int32 buffer h r; assign_all less len [] r'

    pub serialize_map : (K → K → Bool) → Serial S (List (K × V))
    unfolding put_map get_map
    serialize_map less = record { put = put_map; get = get_map less }
