-- ===== src/Engine/InnerProtocol/Send.antt =====
-- `onSerialize` on an empty buffer.
use zlnet.Base.{
  ℕ, ◌+◌, ◌<◌, ◌≡◌, refl, sym, ap, ◌∙◌, arith, List, [], ◌∷◌, ◌++◌, length, Option, none, some,
  if◌then◌else◌, ◌==◌, Bool-cases, inl, inr, Result, ok, u32_mod, length-append,
}
use mathlib.Core.List.{append-nil}
use zlnet.Network.ByteOrder.{Host, be_bytes}
use zlnet.Network.ByteOrder.Laws.{length-be_bytes}
use zlnet.Network.BufferWriter.{bytes_written, write_int32}
use zlnet.Network.BufferWriter
use zlnet.Network.BufferWriter.Laws.{AtEnd, write_words_lem, pos-bytes}
use zlnet.Network.StackBuffer.{StackBuffer, create}
use zlnet.Network.StackBuffer.Laws.{IsValid, bytes, length-bytes, read_lem, stack_IBuffer}
use zlnet.Network.StackBuffer.Laws
use zlnet.Engine.Messages.{IMessage, IoPacket}
use zlnet.Engine.Messages.Laws.{Writes}
use zlnet.Engine.InnerProtocol.{init_buffer_size, write_message, on_serialize}
use zlnet.Engine.InnerProtocol.Frames.{Body, body_bytes}
use zlnet.Engine.InnerProtocol.Receive.{Frame, call_frame, answer_frame, plain_frame}
use zlnet.Engine.InnerProtocol.Stream.{wires}
use zlnet.Engine.InnerProtocol.Headers.{write_call_lem, write_callback_lem, write_plain_lem}

alone :
    {m : Result StackBuffer} {out : List ℕ}
    → (q : StackBuffer) × (m ≡ ok q) × IsValid q × (bytes q ≡ out)
    → (q : StackBuffer) × (m ≡ ok q) × IsValid q × (bytes q ≡ out ++ [])
alone {m} {out} (q, r, v, e) = (q, r, v, e ∙ sym (append-nil out))

-- The frames that `onSerialize` makes of a packet: one, or none where there is neither a command nor
-- a callback.
abbrev pub sent : IoPacket (IMessage StackBuffer) → Body → List Frame
sent packet body =
    let without_cmd = answer_frame packet.callback_id packet.error body ∷ [] in
    let plain = plain_frame packet.cmd body ∷ [] in
    let call = call_frame packet.cmd packet.callback_id body ∷ [] in
    if packet.cmd == 0
    then (if packet.callback_id == 0 then [] else without_cmd)
    else (if packet.callback_id == 0 then plain else call)

module _ (junk : ℕ → ℕ) where
  -- What the message of a packet is and writes.
  pub data Describes : Option (IMessage StackBuffer) → Body → Type 0 where
    no_message : Describes none none
    a_message :
        (m : IMessage StackBuffer) (bs : List ℕ)
        → Writes (stack_IBuffer junk) m bs
        → Describes (some m) (some (m.identity, bs))

module _ (junk : ℕ → ℕ) (h : Host) where
  write_message_lem :
      {message : Option (IMessage StackBuffer)} {body : Body}
      → Describes junk message body
      → length (body_bytes body) + 8 < u32_mod
      → (inner : StackBuffer) × (write_message junk h message (create junk init_buffer_size)
          ≡ ok (inner, length (body_bytes body)))
        × IsValid inner
        × (bytes inner ≡ body_bytes body)
  unfolding write_message bytes_written BufferWriter.create
  write_message_lem no_message w =
      let (v, e) = Laws.create-IsValid junk init_buffer_size (omega arith) in
      (create junk init_buffer_size, refl, v, e)
  write_message_lem (a_message m bs writes) w =
      let (v, e) = Laws.create-IsValid junk init_buffer_size (omega arith) in
      let l = length-bytes (create junk init_buffer_size) v in
      let l4 = length-be_bytes 4 m.identity in
      let la = length-append (be_bytes 4 m.identity) bs in
      let w0 = BufferWriter.create (create junk init_buffer_size) in
      let start : AtEnd (stack_IBuffer junk) w0 = record {
        valid = v;
        at_end = omega (arith, l, ap length e);
      } in
      let (w1, r1, a1, c1) =
        (write_words_lem (stack_IBuffer junk) h m.identity start (omega arith)).6 in
      let c1' : bytes w1.buf ≡ be_bytes 4 m.identity =
        c1 ∙ ap (λ xs. xs ++ be_bytes 4 m.identity) e in
      let p1 = pos-bytes (stack_IBuffer junk) a1 in
      let (w2, r2, a2, c2) = writes w1 a1 (omega (arith, l4, la, p1, ap length c1')) in
      let c2' : bytes w2.buf ≡ be_bytes 4 m.identity ++ bs = c2 ∙ ap (λ xs. xs ++ bs) c1' in
      let p2 : w2.pos ≡ length (be_bytes 4 m.identity ++ bs) =
        pos-bytes (stack_IBuffer junk) a2 ∙ ap length c2' in
      (w2.buf, rw (r1, r2, p2) refl, a2.valid, c2')

  -- For a packet whose message writes its bytes at the end of every buffer with room and whose
  -- frame is below 2 ^ 32 bytes, onSerialize on an empty valid StackBuffer succeeds and leaves
  -- there exactly the one frame for its command and callback id, or nothing where both are zero.
  pub serialize_packet :
      (packet : IoPacket (IMessage StackBuffer)) (body : Body) {buffer : StackBuffer}
      → Describes junk packet.message body
      → 13 + length (body_bytes body) < u32_mod
      → IsValid buffer
      → bytes buffer ≡ []
      → (q : StackBuffer) × (on_serialize junk h packet buffer ≡ ok q)
        × IsValid q
        × (bytes q ≡ wires (sent packet body))
  unfolding on_serialize
  serialize_packet packet body {buffer} d w v e =
      let (inner, r, iv, ib) = write_message_lem d (omega arith) in
      let bs = body_bytes body in
      let answer =
        write_callback_lem junk h buffer inner bs v e iv ib packet.callback_id packet.error w in
      let call = write_call_lem junk h buffer inner bs v e iv ib packet.cmd packet.callback_id w in
      let plain = write_plain_lem junk h buffer inner bs v e iv ib packet.cmd (omega arith) in
      rw r (elim (Bool-cases (packet.cmd == 0)) [
        | inl c ↦ elim (Bool-cases (packet.callback_id == 0)) [
          | inl z ↦ rw (c, z) (buffer, refl, v, e)
          | inr z ↦ rw (c, z) (alone answer)
        ]
        | inr c ↦ elim (Bool-cases (packet.callback_id == 0)) [
          | inl z ↦ rw (c, z) (alone plain)
          | inr z ↦ rw (c, z) (alone call)
        ]
      ])
