-- ===== src/Engine/InnerProtocol.antt =====
-- engine/InnerProtocol.cpp, engine/Headers.h and `dispatchPacket`, `handlerHeart` of Protocol.cpp: the
-- frames by which packets cross a connection.
pub mod Frames
pub mod Receive
pub mod Stream
pub mod Headers
pub mod Send
pub mod Malformed
pub mod Delivery
mod Tests
use zlnet.Base.{
  ℕ, zero, suc, ◌+◌, ◌*◌, List, [], ◌∷◌, ◌++◌, length, Option, none, some, Bool, true, false, ltb,
  leb, ◌==◌, if◌then◌else◌, Result, ok, fault, fuel, ◌>>=◌, ◌>>◌, deref, add32, sub32, take, drop,
}
use zlnet.Network.ByteOrder.{Host, to_memory, of_memory, host_to_network32, network_to_host32}
use zlnet.Network.IIoBuffer.{IIoBuffer}
use zlnet.Network.StackBuffer.{StackBuffer, create, ensure, reserve, read, read_pointer, poke, peek}
use zlnet.Network.StackBuffer.Laws.{stack_IBuffer}
use zlnet.Network.BufferWriter.{write_int32, bytes_written}
use zlnet.Network.BufferWriter
use zlnet.Engine.Messages.{IMessage, IoPacket, SerializeMessage, of_bytes}

abbrev pub init_buffer_size : ℕ
init_buffer_size = 2 * 1024

abbrev pub header_type_call : ℕ
header_type_call = 0x81

abbrev pub header_type_callback : ℕ
header_type_callback = 0x82

abbrev pub header_type_message : ℕ
header_type_message = 0x83

-- `sizeof` of the packed structs: the type is at 0, the size at 1, the other fields at 5 and 9.
abbrev pub sizeof_block : ℕ
sizeof_block = 5

abbrev pub sizeof_header_call : ℕ
sizeof_header_call = 13

abbrev pub sizeof_header_callback : ℕ
sizeof_header_callback = 13

abbrev pub sizeof_header_message : ℕ
sizeof_header_message = 9

-- MsgCmd::Heart
abbrev pub heart : ℕ
heart = 1

-- What the protocol keeps: its key, the heart count, and the packets that it pushed to the engine's
-- queue, oldest first.
pub record Protocol : Type 0 where
  pub key : ℕ
  pub heartbeat : ℕ
  pub queue : List (IoPacket SerializeMessage)

pub dispatch_packet : Protocol → IoPacket SerializeMessage → Protocol
dispatch_packet p packet = record p { queue = p.queue ++ packet ∷ [] }

pub handler_heart : Protocol → Protocol
handler_heart p = record p { heartbeat = 0 }

module _ (junk : ℕ → ℕ) (h : Host) where
  -- `head->field = hostToNetwork32(v)` for the field at `off`.
  put_field : StackBuffer → ℕ → ℕ → Result StackBuffer
  put_field b off v = poke b off (to_memory h.endian 4 (host_to_network32 h v))

  -- `head->field` of the field at `off`, in host order.
  pub get_field : StackBuffer → ℕ → Result ℕ
  get_field b off = do bs ← peek b off 4; ok (network_to_host32 h (of_memory h.endian bs))

  -- The message, as `identity` and what it writes of itself, and the bytes written.
  write_message : Option (IMessage StackBuffer) → StackBuffer → Result (StackBuffer × ℕ)
  write_message none inner = ok (inner, 0)
  write_message (some m) inner = do
    w ← write_int32 (stack_IBuffer junk) h (BufferWriter.create inner) m.identity
    w' ← m.serialize w
    ok (w'.buf, bytes_written w')

  -- `head->type`, the fields in the order of the source, and the message behind them.
  pub write_call : StackBuffer → StackBuffer → ℕ → ℕ → ℕ → Result StackBuffer
  unfolding put_field
  write_call buffer inner datasize cmd callback = do
    let totalsize = add32 datasize sizeof_header_call
    (p, b) ← reserve junk buffer 0 totalsize
    head ← deref p
    b1 ← poke b head (header_type_call ∷ [])
    b2 ← put_field b1 (head + 5) cmd
    b3 ← put_field b2 (head + 9) callback
    b4 ← put_field b3 (head + 1) totalsize
    body ← read inner 0 datasize
    poke b4 (head + sizeof_header_call) body

  pub write_plain : StackBuffer → StackBuffer → ℕ → ℕ → Result StackBuffer
  unfolding put_field
  write_plain buffer inner datasize cmd = do
    let totalsize = add32 datasize sizeof_header_message
    (p, b) ← reserve junk buffer 0 totalsize
    head ← deref p
    b1 ← poke b head (header_type_message ∷ [])
    b2 ← put_field b1 (head + 5) cmd
    b3 ← put_field b2 (head + 1) totalsize
    body ← read inner 0 datasize
    poke b3 (head + sizeof_header_message) body

  pub write_callback : StackBuffer → StackBuffer → ℕ → ℕ → ℕ → Result StackBuffer
  unfolding put_field
  write_callback buffer inner datasize callback error = do
    let totalsize = add32 datasize sizeof_header_callback
    (p, b) ← reserve junk buffer 0 totalsize
    head ← deref p
    b1 ← poke b head (header_type_callback ∷ [])
    b2 ← put_field b1 (head + 5) callback
    b3 ← put_field b2 (head + 9) error
    b4 ← put_field b3 (head + 1) totalsize
    body ← read inner 0 datasize
    poke b4 (head + sizeof_header_callback) body

  -- `onSerialize`, which always returns true. A packet with neither a command nor a callback leaves
  -- the buffer as it is.
  pub on_serialize : IoPacket (IMessage StackBuffer) → StackBuffer → Result StackBuffer
  unfolding write_message write_call write_plain write_callback
  on_serialize packet buffer = do
    (inner, datasize) ← write_message packet.message (create junk init_buffer_size)
    let answer = write_callback buffer inner datasize packet.callback_id packet.error
    let plain = write_plain buffer inner datasize packet.cmd
    let call = write_call buffer inner datasize packet.cmd packet.callback_id
    let without_cmd = if packet.callback_id == 0 then ok buffer else answer
    let with_cmd = if packet.callback_id == 0 then plain else call
    if packet.cmd == 0 then without_cmd else with_cmd

  -- The message behind a header of `header` bytes in a frame of `size` bytes.
  pub read_message : StackBuffer → ℕ → ℕ → Result (Option SerializeMessage)
  read_message inner header size =
      let msglen = sub32 size (header + 4) in
      let with_id = (do
        msg_id ← deref (read_pointer inner header 4)
        id ← get_field inner msg_id
        (if msglen == 0 then ok none else (do
          p ← deref (read_pointer inner (header + 4) msglen)
          bs ← peek inner p msglen
          m ← of_bytes junk id bs
          ok (some m)))) in
      if ltb header size then with_id else ok none

  -- The frame `inner` of type `kind`: the packet or the heart beat in it. `false` is an unknown type.
  unfoldable pub receive : Protocol → ℕ → StackBuffer → Result (Bool × Protocol)
  unfolding get_field read_message
  receive protocol kind inner =
      let call = (do
        head ← deref (read_pointer inner 0 sizeof_header_call)
        size ← get_field inner (head + 1)
        cmd ← get_field inner (head + 5)
        callback ← get_field inner (head + 9)
        message ← read_message inner sizeof_header_call size
        ok (
          true,
          dispatch_packet protocol (record {
            uid = protocol.key;
            cmd = cmd;
            callback_id = callback;
            error = 0;
            message = message;
          }),
        )) in
      let callback = (do
        head ← deref (read_pointer inner 0 sizeof_header_callback)
        size ← get_field inner (head + 1)
        callback ← get_field inner (head + 5)
        error ← get_field inner (head + 9)
        message ← read_message inner sizeof_header_callback size
        ok (
          true,
          dispatch_packet protocol (record {
            uid = protocol.key;
            cmd = 0;
            callback_id = callback;
            error = error;
            message = message;
          }),
        )) in
      let plain = (do
        head ← deref (read_pointer inner 0 sizeof_header_message)
        size ← get_field inner (head + 1)
        cmd ← get_field inner (head + 5)
        message ← read_message inner sizeof_header_message size
        ok (
          true,
          (if cmd == heart
              then handler_heart protocol
              else dispatch_packet protocol (record {
                uid = protocol.key;
                cmd = cmd;
                callback_id = 0;
                error = 0;
                message = message;
              })),
        )) in
      if kind == header_type_call
      then call
      else if kind == header_type_callback
      then callback
      else if kind == header_type_message
      then plain
      else ok (false, protocol)

  module _ {S : Type 0} (io : IIoBuffer S) where
    -- The `size` bytes of the next frame, moved from the input buffer to an array of their own.
    pub next_frame : S → ℕ → Result (StackBuffer × S)
    next_frame b size = do
      inner ← ensure junk (create junk init_buffer_size) size
      (p, inner') ← reserve junk inner 0 size
      (bs, b') ← io.read b size
      off ← deref p
      inner'' ← poke inner' off bs
      ok (inner'', b')

    -- `onUnserialize`, by the rounds left to its loop.
    pub on_unserialize : ℕ → Protocol → S → Result (Bool × Protocol × S)
    unfolding next_frame
    on_unserialize zero protocol b = fault fuel
    on_unserialize (suc f) protocol b =
        let round = (do
          block ← io.look b sizeof_block
          let kind = of_memory h.endian (take 1 block)
          let size = network_to_host32 h (of_memory h.endian (drop 1 block))
          let body = (do
            (inner, b') ← next_frame b size
            (known, protocol') ← receive protocol kind inner
            let again = on_unserialize f protocol' b'
            if known then again else ok (false, protocol', b'))
          if ltb (io.size b) size then ok (true, protocol, b) else body) in
        if leb sizeof_block (io.size b) then round else ok (true, protocol, b)
