-- ===== src/Engine/Messages/Laws.antt =====
-- SerializeMessage: the bytes that it keeps, writes and reads.
use zlnet.Base.{
  ℕ, some, ◌+◌, ◌<◌, ◌≡◌, refl, sym, ap, ◌∙◌, arith, List, ◌++◌, length, ok, slice, slice_lem,
  u32_mod, take_all,
}
use zlnet.Network.IBuffer.{IBuffer}
use zlnet.Network.Buffer.{Buffer}
use zlnet.Network.Buffer
use zlnet.Network.Buffer.Laws.{bytes, IsValid, buffer_IBuffer}
use zlnet.Network.Buffer.Laws
use zlnet.Network.BufferWriter.{BufferWriter}
use zlnet.Network.BufferWriter
use zlnet.Network.BufferWriter.Laws.{AtEnd, Appends, write_bytes_lem}
use zlnet.Network.BufferReader.{BufferReader, bytes_left, read_bytes}
use zlnet.Network.BufferReader.Laws.{Holds, read_bytes_lem}
use zlnet.Engine.Messages.{
  serialize_read, IMessage, SerializeMessage, of_bytes, of_message, serialize_write, as_message,
}

pub of_bytes_lem :
    (junk : ℕ → ℕ) (id : ℕ) (bs : List ℕ)
    → length bs < u32_mod
    → (m : SerializeMessage) × (of_bytes junk id bs ≡ ok m)
      × (m.id ≡ id)
      × IsValid m.buffer
      × (bytes m.buffer ≡ bs)
unfolding of_bytes
of_bytes_lem junk id bs w =
    let (v, empty) = Buffer.Laws.create-IsValid junk (length bs) w in
    let (q, e, z, c) = Buffer.Laws.write_truncates 0 bs v (omega arith) (omega arith) in
    (record { id = id; buffer = q }, rw e refl, refl, z, c)

-- A message writes `body` at the end of every buffer that has room for it.
abbrev pub Writes : {S : Type 0} → IBuffer S → IMessage S → List ℕ → Type 0
Writes {S} buffer m body =
    (w : BufferWriter S)
    → AtEnd buffer w
    → w.pos + length body + 8 < u32_mod
    → Appends buffer w body (m.serialize w)

pub of_message_lem :
    (junk : ℕ → ℕ) (message : IMessage Buffer) (body : List ℕ)
    → length body + 8 < u32_mod
    → Writes buffer_IBuffer message body
    → (m : SerializeMessage) × (of_message junk message ≡ ok m)
      × (m.id ≡ message.identity)
      × IsValid m.buffer
      × (bytes m.buffer ≡ body)
unfolding of_message BufferWriter.create
of_message_lem junk message body w writes =
    let (v, empty) = Buffer.Laws.create-IsValid junk 128 (omega arith) in
    let at_end : AtEnd buffer_IBuffer (BufferWriter.create (Buffer.create junk 128)) = record {
      valid = v;
      at_end = omega (arith, Buffer.Laws.length-bytes _ v, ap length empty);
    } in
    let (q, e, a, c) = writes (BufferWriter.create (Buffer.create junk 128)) at_end (omega arith) in
    (
      record { id = message.identity; buffer = q.buf },
      rw e refl,
      refl,
      a.valid,
      c ∙ ap (λ xs. xs ++ body) empty,
    )

pub serialize_write_lem :
    {S : Type 0} (out : IBuffer S) (m : SerializeMessage)
    → IsValid m.buffer
    → Writes out (as_message out m) (bytes m.buffer)
unfolding serialize_write as_message
serialize_write_lem out m v w a fits =
    let b = m.buffer in
    let l = Buffer.Laws.length-bytes b v in
    let (_, p, g) = Buffer.Laws.read_lem b 0 b.size v (omega arith) in
    let whole : slice (bytes b) 0 b.size ≡ bytes b =
      slice_lem (bytes b) 0 b.size ∙ take_all b.size (bytes b) (omega (arith, l)) in
    rw (p, g, whole) (write_bytes_lem out (bytes b) a (omega arith))

-- For a message that writes its bytes at the end of every buffer with room, fewer than 2 ^ 32 - 8
-- of them, SerializeMessage keeps its id, and as a message it appends the same bytes where a
-- writer is at the end of a valid buffer of any class that has room for them.
pub message_forwarded :
    {S : Type 0} (out : IBuffer S) (junk : ℕ → ℕ) (message : IMessage Buffer) (body : List ℕ)
    (w : BufferWriter S)
    → length body + 8 < u32_mod
    → Writes buffer_IBuffer message body
    → AtEnd out w
    → w.pos + length body + 8 < u32_mod
    → (m : SerializeMessage) × (of_message junk message ≡ ok m)
      × (m.id ≡ message.identity)
      × Appends out w body ((as_message out m).serialize w)
message_forwarded out junk message body w room writes at_end fits =
    let (m, e, i, v, c) = of_message_lem junk message body room writes in
    let forwards : Writes out (as_message out m) body = rw c at (serialize_write_lem out m v) in
    (m, e, i, forwards w at_end fits)

-- A valid SerializeMessage read from a reader takes as many of the bytes that the reader holds as
-- the reader has passed before, which must be there, and keeps its id.
pub message_reread :
    {S : Type 0} (source : IBuffer S) (m : SerializeMessage) {r : BufferReader S} (bs rest : List ℕ)
    → IsValid m.buffer
    → Holds source r (bs ++ rest)
    → length bs ≡ r.pos
    → (m' : SerializeMessage) × (r' : BufferReader S) × (serialize_read source m r ≡ ok (m', r'))
      × (m'.id ≡ m.id)
      × (bytes m'.buffer ≡ bs)
      × Holds source r' rest
unfolding serialize_read bytes_left Buffer.clear
message_reread source m {r} bs rest v o k =
    let (cv, empty) = Buffer.Laws.clear-IsValid v in
    let (q, q', res, pk, qv, c) = Buffer.Laws.reserve_poke bs cv (omega arith) in
    let (r', ld, o', _) = read_bytes_lem source bs rest o in
    let ld' : read_bytes source r r.pos ≡ ok (bs, r') = ap (read_bytes source r) (sym k) ∙ ld in
    let res' : Buffer.reserve (Buffer.clear m.buffer) 0 r.pos ≡ ok (some 0, q) =
      ap (Buffer.reserve (Buffer.clear m.buffer) 0) (sym k) ∙ res in
    (record m { buffer = q' }, r', rw (res', ld', pk) refl, refl, c ∙ ap (λ xs. xs ++ bs) empty, o')
