-- ===== src/Engine/InnerProtocol/Tests.antt =====
-- Runs of the frames on concrete packets.
use zlnet.Base.{
  ℕ, ◌+◌, ◌≡◌, refl, sym, ◌<◌, u32_mod, arith, [], ◌∷◌, length, drop, none, some, true, false, ok,
  fault, null, inl, inr,
}
use zlnet.Network.ByteOrder.{Host, little, big, be_bytes, le_bytes}
use zlnet.Network.RingBuffer.{Ring, null_vec}
use zlnet.Network.RingBuffer.Valid.{IsValid, contents}
use zlnet.Network.RingBuffer.Interface.{ring_IIoBuffer}
use zlnet.Network.StackBuffer.{StackBuffer, create}
use zlnet.Network.StackBuffer.Laws.{bytes, create-IsValid, stack_IBuffer}
use zlnet.Network.StackBuffer.Laws
use zlnet.Network.BufferWriter.{write_bytes}
use zlnet.Network.BufferWriter.Laws.{write_bytes_lem}
use zlnet.Engine.Messages.{IMessage, IoPacket}
use zlnet.Engine.InnerProtocol.{Protocol, on_serialize, on_unserialize}
use zlnet.Engine.InnerProtocol.Frames.{Body, body_bytes}
use zlnet.Engine.InnerProtocol.Receive.{Frame, call_frame, plain_frame, FrameFits, After, wire}
use zlnet.Engine.InnerProtocol.Stream.{wires, packets_of, unserialize_frames}
use zlnet.Engine.InnerProtocol.Send.{Describes, a_message, serialize_packet}
use zlnet.Engine.InnerProtocol.Malformed.{unserialize_broken, unserialize_unknown}
use zlnet.Engine.InnerProtocol.Delivery.{PacketFits, packet_delivered}

abbrev zeros : ℕ → ℕ
zeros _ = 0

abbrev host : Host
host = record { endian = little; long_size = 8 }

abbrev other_host : Host
other_host = record { endian = big; long_size = 4 }

abbrev protocol : Protocol
protocol = record { key = 5; heartbeat = 12; queue = [] }

abbrev call : Frame
call = call_frame 7 9 (some (3, 1 ∷ 2 ∷ []))

abbrev heart_beat : Frame
heart_beat = plain_frame 1 none

call-FrameFits : FrameFits call
unfolding be_bytes le_bytes
call-FrameFits = record {
  size_fits = omega arith;
  fields_fit = (omega arith, omega arith);
  body_fits = omega arith;
}

heart_beat-FrameFits : FrameFits heart_beat
heart_beat-FrameFits = record {
  size_fits = omega arith;
  fields_fit = (omega arith, omega arith);
  body_fits = tt;
}

-- A call, a heart beat and the first byte of another frame, round the end of the array.
abbrev filled : Ring
filled = record {
  capacity = 32;
  front = 20;
  end = 17;
  size = 29;
  buff =
      9 ∷ 0 ∷ 0 ∷ 0 ∷ 3 ∷ 1 ∷ 2 ∷ 131 ∷ 0 ∷ 0 ∷ 0 ∷ 9 ∷ 0 ∷ 0 ∷ 0 ∷ 1 ∷ 131 ∷ 0 ∷ 0 ∷ 0 ∷ 129 ∷ 0
      ∷ 0 ∷ 0 ∷ 19 ∷ 0 ∷ 0 ∷ 0 ∷ 7 ∷ 0 ∷ 0 ∷ 0 ∷ [];
  writerv0 = null_vec;
  writerv1 = null_vec;
  readerv0 = null_vec;
  readerv1 = null_vec;
}

filled-IsValid : IsValid filled
filled-IsValid = omega arith

unserialize_frames_example :
    (q : Protocol) × (b : Ring) × (on_unserialize zeros host
        (ring_IIoBuffer zeros)
        3
        protocol
        filled
      ≡ ok (true, q, b))
    × After protocol (packets_of 5 (call ∷ heart_beat ∷ [])) 0 q
    × IsValid b
    × (contents b ≡ 0x83 ∷ [])
unfolding be_bytes le_bytes
unserialize_frames_example =
    unserialize_frames zeros host (ring_IIoBuffer zeros) (call ∷ heart_beat ∷ []) (0x83 ∷ [])
      protocol filled-IsValid (call-FrameFits, (heart_beat-FrameFits, tt))
      (heart_beat, drop 1 (wire heart_beat), heart_beat-FrameFits, omega arith, refl) refl

-- The message 3, of two bytes.
abbrev message : IMessage StackBuffer
message = record { identity = 3; serialize = λ w. write_bytes (stack_IBuffer zeros) w (1 ∷ 2 ∷ []) }

abbrev packet : IoPacket (IMessage StackBuffer)
packet = record { uid = 0; cmd = 7; callback_id = 9; error = 0; message = some message }

abbrev body : Body
body = some (3, 1 ∷ 2 ∷ [])

packet-Describes : Describes zeros (some message) body
packet-Describes =
    a_message message (1 ∷ 2 ∷ [])
      λ w a fits. write_bytes_lem (stack_IBuffer zeros) (1 ∷ 2 ∷ []) a (omega arith)

abbrev new_buffer : StackBuffer
new_buffer = create zeros 16

new_buffer-IsValid : Laws.IsValid new_buffer
new_buffer-IsValid = (create-IsValid zeros 16 (omega arith)).0

new_buffer-empty : bytes new_buffer ≡ []
new_buffer-empty = (create-IsValid zeros 16 (omega arith)).1

body-room : 13 + length (body_bytes body) < u32_mod
unfolding be_bytes le_bytes
body-room = omega arith

serialize_packet_example :
    (q : StackBuffer) × (on_serialize zeros host packet new_buffer ≡ ok q)
    × Laws.IsValid q
    × (bytes q ≡ wires (call ∷ []))
serialize_packet_example =
    serialize_packet zeros host packet body packet-Describes body-room new_buffer-IsValid
      new_buffer-empty

packet-PacketFits : PacketFits zeros packet body
packet-PacketFits = record {
  described = packet-Describes;
  room = body-room;
  cmd_fits = omega arith;
  callback_fits = omega arith;
  error_fits = omega arith;
  body_fits = omega arith;
}

-- What the sender wrote, and the ring of the receiver with those bytes in it.
sent_packet :
    (q : StackBuffer) × (on_serialize zeros host packet new_buffer ≡ ok q)
    × Laws.IsValid q
    × (bytes q ≡ wires (call ∷ []))
sent_packet =
    serialize_packet zeros host packet body packet-Describes body-room new_buffer-IsValid
      new_buffer-empty

abbrev received : Ring
received = record filled {
  front = 0;
  end = 19;
  size = 19;
  buff =
      129 ∷ 0 ∷ 0 ∷ 0 ∷ 19 ∷ 0 ∷ 0 ∷ 0 ∷ 7 ∷ 0 ∷ 0 ∷ 0 ∷ 9 ∷ 0 ∷ 0 ∷ 0 ∷ 3 ∷ 1 ∷ 2 ∷ 0 ∷ 0 ∷ 0 ∷ 0
      ∷ 0 ∷ 0 ∷ 0 ∷ 0 ∷ 0 ∷ 0 ∷ 0 ∷ 0 ∷ 0 ∷ [];
}

received-IsValid : IsValid received
received-IsValid = omega arith

contents-received : contents received ≡ bytes sent_packet.0
unfolding be_bytes le_bytes
contents-received = sym sent_packet.3

packet_delivered_example :
    (q : Protocol) × (b : Ring) × (on_unserialize zeros other_host
        (ring_IIoBuffer zeros)
        2
        protocol
        received
      ≡ ok (true, q, b))
    × After protocol (packets_of 5 (call ∷ [])) 12 q
    × IsValid b
    × (contents b ≡ [])
packet_delivered_example =
    packet_delivered zeros packet body packet-PacketFits (ring_IIoBuffer zeros) host other_host
      protocol new_buffer-IsValid new_buffer-empty sent_packet.1 received-IsValid contents-received

-- A call of nine bytes, and a frame of an unknown type.
abbrev short_frame : Ring
short_frame = record filled {
  front = 0;
  end = 9;
  size = 9;
  buff =
      129 ∷ 0 ∷ 0 ∷ 0 ∷ 9 ∷ 1 ∷ 2 ∷ 3 ∷ 4 ∷ 0 ∷ 0 ∷ 0 ∷ 0 ∷ 0 ∷ 0 ∷ 0 ∷ 0 ∷ 0 ∷ 0 ∷ 0 ∷ 0 ∷ 0 ∷ 0
      ∷ 0 ∷ 0 ∷ 0 ∷ 0 ∷ 0 ∷ 0 ∷ 0 ∷ 0 ∷ 0 ∷ [];
}

abbrev strange_frame : Ring
strange_frame = record filled {
  front = 0;
  end = 6;
  size = 6;
  buff =
      144 ∷ 0 ∷ 0 ∷ 0 ∷ 6 ∷ 1 ∷ 0 ∷ 0 ∷ 0 ∷ 0 ∷ 0 ∷ 0 ∷ 0 ∷ 0 ∷ 0 ∷ 0 ∷ 0 ∷ 0 ∷ 0 ∷ 0 ∷ 0 ∷ 0 ∷ 0
      ∷ 0 ∷ 0 ∷ 0 ∷ 0 ∷ 0 ∷ 0 ∷ 0 ∷ 0 ∷ 0 ∷ [];
}

short_frame-IsValid : IsValid short_frame
short_frame-IsValid = omega arith

strange_frame-IsValid : IsValid strange_frame
strange_frame-IsValid = omega arith

unserialize_broken_example :
    on_unserialize zeros host (ring_IIoBuffer zeros) 1 protocol short_frame ≡ fault null
unfolding be_bytes le_bytes
unserialize_broken_example =
    unserialize_broken zeros host (ring_IIoBuffer zeros) protocol 0x81 9 0 (1 ∷ 2 ∷ 3 ∷ 4 ∷ [])
      short_frame-IsValid (omega arith) (omega arith) refl (omega arith)
      (inr (inl (refl, omega arith)))

unserialize_unknown_example :
    (b : Ring) × (on_unserialize zeros host (ring_IIoBuffer zeros) 1 protocol strange_frame
      ≡ ok (false, protocol, b))
    × IsValid b
    × (contents b ≡ [])
unfolding be_bytes le_bytes
unserialize_unknown_example =
    unserialize_unknown zeros host (ring_IIoBuffer zeros) protocol 0x90 6 0 (1 ∷ [])
      strange_frame-IsValid (omega arith) (omega arith) refl (omega arith) (omega arith)
      (omega arith, omega arith, omega arith)
