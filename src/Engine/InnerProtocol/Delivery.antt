-- ===== src/Engine/InnerProtocol/Delivery.antt =====
-- `onSerialize` on one machine, and `onUnserialize` on another.
use zlnet.Base.{
  ℕ, suc, ◌+◌, ◌^◌, ◌<◌, ◌≡◌, refl, sym, ap, ◌∙◌, arith, [], ◌++◌, length, none, true, ◌==◌,
  Bool-cases, inl, inr, ok, ok-injective, u32_mod,
}
use mathlib.Core.List.{append-nil}
use zlnet.Network.ByteOrder.{Host}
use zlnet.Network.IIoBuffer.{IIoBuffer}
use zlnet.Network.StackBuffer.{StackBuffer}
use zlnet.Network.StackBuffer.Laws.{IsValid, bytes}
use zlnet.Engine.Messages.{IMessage, IoPacket}
use zlnet.Engine.InnerProtocol.{Protocol, on_serialize, on_unserialize}
use zlnet.Engine.InnerProtocol.Frames.{Body, body_bytes, BodyFits}
use zlnet.Engine.InnerProtocol.Receive.{
  call_frame, answer_frame, plain_frame, wire, FrameFits, After,
}
use zlnet.Engine.InnerProtocol.Stream.{
  wires, AllFit, packets_of, beats, Incomplete, unserialize_frames,
}
use zlnet.Engine.InnerProtocol.Send.{Describes, sent, serialize_packet}

nothing-Incomplete : Incomplete []
nothing-Incomplete =
    let f = plain_frame 0 none in
    let s : FrameFits f = record {
      size_fits = omega arith;
      fields_fit = (omega arith, omega arith);
      body_fits = tt;
    } in
    (f, wire f, s, omega arith, refl)

-- The fields of a packet are `uint32`, and its frame is below 2 ^ 32 bytes.
pub record PacketFits (junk : ℕ → ℕ) (packet : IoPacket (IMessage StackBuffer)) (body : Body)
    : Type 0 where
  pub described : Describes junk packet.message body
  pub room : 13 + length (body_bytes body) < u32_mod
  pub cmd_fits : packet.cmd < 2 ^ 32
  pub callback_fits : packet.callback_id < 2 ^ 32
  pub error_fits : packet.error < 2 ^ 32
  pub body_fits : BodyFits body

module _ (junk : ℕ → ℕ) (packet : IoPacket (IMessage StackBuffer)) (body : Body)
    (s : PacketFits junk packet body) where
  sent-AllFit : AllFit (sent packet body)
  sent-AllFit =
      let size : 9 + length (body_bytes body) < u32_mod = omega (arith, s.room) in
      let some_field : 0 < 2 ^ 32 = omega arith in
      let answer : FrameFits (answer_frame packet.callback_id packet.error body) = record {
        size_fits = s.room;
        fields_fit = (s.callback_fits, s.error_fits);
        body_fits = s.body_fits;
      } in
      let call : FrameFits (call_frame packet.cmd packet.callback_id body) = record {
        size_fits = s.room;
        fields_fit = (s.cmd_fits, s.callback_fits);
        body_fits = s.body_fits;
      } in
      let plain : FrameFits (plain_frame packet.cmd body) = record {
        size_fits = size;
        fields_fit = (s.cmd_fits, some_field);
        body_fits = s.body_fits;
      } in
      elim (Bool-cases (packet.cmd == 0)) [
        | inl c ↦ elim (Bool-cases (packet.callback_id == 0)) [
          | inl z ↦ rw (c, z) tt
          | inr z ↦ rw (c, z) (answer, tt)
        ]
        | inr c ↦ elim (Bool-cases (packet.callback_id == 0)) [
          | inl z ↦ rw (c, z) (plain, tt)
          | inr z ↦ rw (c, z) (call, tt)
        ]
      ]

  -- For a packet whose message writes its bytes at the end of every buffer with room, whose fields
  -- fit a uint32 and whose frame is below 2 ^ 32 bytes: the bytes that onSerialize leaves in an
  -- empty StackBuffer, in the input buffer of a receiver with any byte order, make onUnserialize
  -- return true within one round more than there are frames, push the packet once and leave the
  -- input buffer empty. A packet with a command arrives with its command, its callback id and
  -- message and with the error 0, since its frame has no error; one without a command arrives with
  -- its callback id, error and message. A message of no bytes arrives as none, a heart beat only
  -- resets the count, and a packet with neither command nor callback id is not sent.
  pub packet_delivered :
      {S : Type 0} (io : IIoBuffer S) (sender receiver : Host) {buffer q : StackBuffer} {b : S}
      (p : Protocol)
      → IsValid buffer
      → bytes buffer ≡ []
      → on_serialize junk sender packet buffer ≡ ok q
      → io.IsValid b
      → io.contents b ≡ bytes q
      → let fs = sent packet body in
        (p' : Protocol) × (b' : S) × (on_unserialize junk receiver io (suc (length fs)) p b
          ≡ ok (true, p', b'))
        × After p (packets_of p.key fs) (beats fs p.heartbeat) p'
        × io.IsValid b'
        × (io.contents b' ≡ [])
  packet_delivered io sender receiver {buffer} {q} {b} p v e r bv c =
      let (q0, r0, _, out) = serialize_packet junk sender packet body s.described s.room v e in
      let fs = sent packet body in
      let c' : io.contents b ≡ wires fs ++ [] =
        c ∙ ap bytes (ok-injective (sym r ∙ r0)) ∙ out ∙ sym (append-nil (wires fs)) in
      unserialize_frames junk receiver io fs [] p bv sent-AllFit nothing-Incomplete c'
