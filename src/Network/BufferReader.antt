-- ===== src/Network/BufferReader.antt =====
-- network/BufferReader.h: the counterpart of BufferWriter.
pub mod Laws
use zlnet.Base.{ℕ, List, Option, none, some, Result, ok, fault, assertion, ◌>>=◌, add32}
use zlnet.Network.IBuffer.{IBuffer}
use zlnet.Network.ByteOrder.{
  Host, of_memory, network_to_host64, network_to_host32, network_to_host16, network_to_host_float,
  network_to_host_double,
}

pub record BufferReader (S : Type 0) : Type 0 where
  pub buf : S
  pub pos : ℕ

module _ {S : Type 0} where
  unfoldable pub create : S → BufferReader S
  create buf = record { buf = buf; pos = 0 }

  -- The source returns `_pos`: the bytes that were read, not those that are left.
  unfoldable pub bytes_left : BufferReader S → ℕ
  bytes_left r = r.pos

  pub clear : BufferReader S → BufferReader S
  clear r = record r { pos = 0 }

-- `if (value != NULL) … else assert(false);`
abbrev checked : Option ℕ → Result ℕ
checked none = fault assertion
checked (some p) = ok p

module _ {S : Type 0} (buffer : IBuffer S) where
  -- The `n` bytes at the position, which moves past them.
  pub load : BufferReader S → ℕ → Result (List ℕ × BufferReader S)
  load r n = do
    off ← checked (buffer.read_pointer r.buf r.pos n)
    bs ← buffer.peek r.buf off n
    ok (bs, record r { pos = add32 r.pos n })

  pub read_bytes : BufferReader S → ℕ → Result (List ℕ × BufferReader S)
  unfolding load
  read_bytes r n = load r n

  -- `const char* read(int32 len)`: the position moves also where the pointer is null.
  pub read_space : BufferReader S → ℕ → Option ℕ × BufferReader S
  read_space r len = (buffer.read_pointer r.buf r.pos len, record r { pos = add32 r.pos len })

  -- `const char* read()`
  pub read_end : BufferReader S → Option ℕ
  read_end r = buffer.read_pointer r.buf r.pos 0

module _ {S : Type 0} (buffer : IBuffer S) (h : Host) where
  -- A load of `n` bytes as an integer, and its conversion.
  word : ℕ → (ℕ → ℕ) → BufferReader S → Result (ℕ × BufferReader S)
  word n convert r = do (bs, r') ← load buffer r n; ok (convert (of_memory h.endian bs), r')

  pub read_uint8 : BufferReader S → Result (ℕ × BufferReader S)
  unfolding word
  read_uint8 r = word 1 (λ v. v) r

  pub read_uint16 : BufferReader S → Result (ℕ × BufferReader S)
  unfolding word
  read_uint16 r = word 2 (network_to_host16 h) r

  pub read_uint32 : BufferReader S → Result (ℕ × BufferReader S)
  unfolding word
  read_uint32 r = word 4 (network_to_host32 h) r

  pub read_uint64 : BufferReader S → Result (ℕ × BufferReader S)
  unfolding word
  read_uint64 r = word 8 (network_to_host64 h) r

  pub read_int8 : BufferReader S → Result (ℕ × BufferReader S)
  unfolding word
  read_int8 r = word 1 (λ v. v) r

  pub read_int16 : BufferReader S → Result (ℕ × BufferReader S)
  unfolding word
  read_int16 r = word 2 (network_to_host16 h) r

  pub read_int32 : BufferReader S → Result (ℕ × BufferReader S)
  unfolding word
  read_int32 r = word 4 (network_to_host32 h) r

  pub read_int64 : BufferReader S → Result (ℕ × BufferReader S)
  unfolding word
  read_int64 r = word 8 (network_to_host64 h) r

  pub read_float : BufferReader S → Result (ℕ × BufferReader S)
  unfolding word
  read_float r = word 4 (network_to_host_float h) r

  pub read_double : BufferReader S → Result (ℕ × BufferReader S)
  unfolding word
  read_double r = word 8 (network_to_host_double h) r

  -- `peekInt32`: 0 where four bytes are not left.
  pub peek_int32 : BufferReader S → Result ℕ
  peek_int32 r = elim (buffer.read_pointer r.buf r.pos 4) [
    | none ↦ ok 0
    | some off ↦ do bs ← buffer.peek r.buf off 4; ok (network_to_host32 h (of_memory h.endian bs))
  ]
