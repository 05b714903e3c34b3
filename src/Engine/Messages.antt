-- ===== src/Engine/Messages.antt =====
-- engine/IMessage.h, engine/IOPacket.h and SerializeMessage of engine/Messages.h and Messages.cpp: a
-- packet, and the message in it as an object that writes itself or as the bytes that came in.
pub mod Laws
mod Tests
use zlnet.Base.{ℕ, List, length, Option, Result, ok, ◌>>=◌, deref}
use zlnet.Network.Buffer.{Buffer, create, clear, write, reserve, read_pointer, poke, peek}
use zlnet.Network.IBuffer.{IBuffer}
use zlnet.Network.BufferWriter.{BufferWriter, write_bytes}
use zlnet.Network.BufferReader.{BufferReader, bytes_left, read_bytes}
use zlnet.Network.BufferWriter
use zlnet.Network.Buffer.Laws.{buffer_IBuffer}

-- `identity` and `serialize(BufferWriter&)` of a message, for a writer over `S`.
pub record IMessage (S : Type 0) : Type 0 where
  pub identity : ℕ
  pub serialize : BufferWriter S → Result (BufferWriter S)

pub record IoPacket (M : Type 0) : Type 0 where
  pub uid : ℕ
  pub cmd : ℕ
  pub callback_id : ℕ
  pub error : ℕ
  pub message : Option M

pub record SerializeMessage : Type 0 where
  pub id : ℕ
  pub buffer : Buffer

-- `serialize(BufferWriter&) const`: the bytes in use, as they are.
pub serialize_write :
    {S : Type 0} → IBuffer S → SerializeMessage → BufferWriter S → Result (BufferWriter S)
serialize_write out m w = do
  p ← deref (read_pointer m.buffer 0 m.buffer.size)
  bs ← peek m.buffer p m.buffer.size
  write_bytes out w bs

-- The SerializeMessage as an IMessage.
pub as_message : {S : Type 0} → IBuffer S → SerializeMessage → IMessage S
as_message out m = record { identity = m.id; serialize = serialize_write out m }

-- `serialize(BufferReader&)`: as many bytes as `bytesLeft` says.
pub serialize_read :
    {S : Type 0}
    → IBuffer S
    → SerializeMessage
    → BufferReader S
    → Result (SerializeMessage × BufferReader S)
serialize_read source m r = do
  (p, b) ← reserve (clear m.buffer) 0 (bytes_left r)
  (bs, r') ← read_bytes source r (bytes_left r)
  off ← deref p
  b' ← poke b off bs
  ok (record m { buffer = b' }, r')

module _ (junk : ℕ → ℕ) where
  -- `SerializeMessage(int32 id, const char* ptr, uint32 len)`, on the bytes at `ptr`.
  pub of_bytes : ℕ → List ℕ → Result SerializeMessage
  of_bytes id bs = do b ← write (create junk (length bs)) 0 bs; ok (record { id = id; buffer = b })

  -- `SerializeMessage(const IMessagePtr& message)`
  pub of_message : IMessage Buffer → Result SerializeMessage
  of_message message = do
    w ← message.serialize (BufferWriter.create (create junk 128))
    ok (record { id = message.identity; buffer = w.buf })
