-- ===== src/Network/BufferWriter.antt =====
-- network/BufferWriter.h: integers, strings and bytes, appended to a buffer in wire order.
pub mod Laws
use zlnet.Base.{
  ℕ, ◌-◌, ◌%◌, List, length, Option, Result, ok, ◌>>=◌, ◌>>◌, require, deref, leb, add32, u32_mod,
}
use zlnet.Network.IBuffer.{IBuffer}
use zlnet.Network.ByteOrder.{
  Host, to_memory, host_to_network64, host_to_network32, host_to_network16, host_to_network_float,
  host_to_network_double,
}

pub record BufferWriter (S : Type 0) : Type 0 where
  pub buf : S
  pub pos : ℕ

module _ {S : Type 0} where
  unfoldable pub create : S → BufferWriter S
  create buf = record { buf = buf; pos = 0 }

  unfoldable pub bytes_written : BufferWriter S → ℕ
  bytes_written w = w.pos

  pub shrink : BufferWriter S → ℕ → Result (BufferWriter S)
  shrink w n = do require (leb n w.pos); ok (record w { pos = w.pos - n })

module _ {S : Type 0} (buffer : IBuffer S) where
  -- `*(T*)_buf->write(_pos, sizeof(T)) = …; _pos += sizeof(T);` for a value that stands in memory as
  -- the `n` bytes `bs`. The pointer is not tested.
  pub store : BufferWriter S → ℕ → List ℕ → Result (BufferWriter S)
  store w n bs = do
    (p, b) ← buffer.reserve w.buf w.pos n
    off ← deref p
    b' ← buffer.poke b off bs
    ok (record w { buf = b'; pos = add32 w.pos n })

  pub write_bytes : BufferWriter S → List ℕ → Result (BufferWriter S)
  write_bytes w bs = do
    b ← buffer.write w.buf w.pos bs
    ok (record w { buf = b; pos = add32 w.pos (length bs) })

  -- `char* write(uint32 size)`
  pub write_space : BufferWriter S → ℕ → Result (Option ℕ × BufferWriter S)
  write_space w n = do
    (p, b) ← buffer.reserve w.buf w.pos n
    ok (p, record w { buf = b; pos = add32 w.pos n })

  -- `char* write()`
  pub write_end : BufferWriter S → Result (Option ℕ × BufferWriter S)
  write_end w = do (p, b) ← buffer.reserve w.buf w.pos 0; ok (p, record w { buf = b })

module _ {S : Type 0} (buffer : IBuffer S) (h : Host) where
  pub write_uint8 : BufferWriter S → ℕ → Result (BufferWriter S)
  write_uint8 w v = store buffer w 1 (to_memory h.endian 1 v)

  pub write_uint16 : BufferWriter S → ℕ → Result (BufferWriter S)
  write_uint16 w v = store buffer w 2 (to_memory h.endian 2 (host_to_network16 h v))

  pub write_uint32 : BufferWriter S → ℕ → Result (BufferWriter S)
  write_uint32 w v = store buffer w 4 (to_memory h.endian 4 (host_to_network32 h v))

  pub write_uint64 : BufferWriter S → ℕ → Result (BufferWriter S)
  write_uint64 w v = store buffer w 8 (to_memory h.endian 8 (host_to_network64 h v))

  pub write_int8 : BufferWriter S → ℕ → Result (BufferWriter S)
  write_int8 w v = store buffer w 1 (to_memory h.endian 1 v)

  pub write_int16 : BufferWriter S → ℕ → Result (BufferWriter S)
  write_int16 w v = store buffer w 2 (to_memory h.endian 2 (host_to_network16 h v))

  pub write_int32 : BufferWriter S → ℕ → Result (BufferWriter S)
  write_int32 w v = store buffer w 4 (to_memory h.endian 4 (host_to_network32 h v))

  pub write_int64 : BufferWriter S → ℕ → Result (BufferWriter S)
  write_int64 w v = store buffer w 8 (to_memory h.endian 8 (host_to_network64 h v))

  pub write_float : BufferWriter S → ℕ → Result (BufferWriter S)
  write_float w v = store buffer w 4 (to_memory h.endian 4 (host_to_network_float h v))

  pub write_double : BufferWriter S → ℕ → Result (BufferWriter S)
  write_double w v = store buffer w 8 (to_memory h.endian 8 (host_to_network_double h v))

  -- The length in four bytes, then the bytes.
  pub write_string : BufferWriter S → List ℕ → Result (BufferWriter S)
  write_string w value = do
    w' ← write_uint32 w (length value % u32_mod)
    b ← buffer.write w'.buf w'.pos value
    ok (record w' { buf = b; pos = add32 w'.pos (length value % u32_mod) })
