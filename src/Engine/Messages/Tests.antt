-- ===== src/Engine/Messages/Tests.antt =====
-- Runs of SerializeMessage on concrete messages.
use zlnet.Base.{ap, length, ℕ, ◌≡◌, refl, arith, [], ◌∷◌, ◌++◌, ok}
use zlnet.Network.Buffer.{Buffer}
use zlnet.Network.Buffer.Laws.{bytes, IsValid, buffer_IBuffer}
use zlnet.Network.StackBuffer.{StackBuffer}
use zlnet.Network.StackBuffer
use zlnet.Network.StackBuffer.Laws.{stack_IBuffer, create-IsValid, length-bytes}
use zlnet.Network.BufferWriter.{BufferWriter, write_bytes}
use zlnet.Network.BufferWriter
use zlnet.Network.BufferWriter.Laws.{AtEnd, Appends, write_bytes_lem}
use zlnet.Network.BufferReader.{BufferReader}
use zlnet.Network.BufferReader.Laws.{Holds}
use zlnet.Engine.Messages.{IMessage, SerializeMessage, of_message, as_message, serialize_read}
use zlnet.Engine.Messages.Laws.{Writes, message_forwarded, message_reread}

abbrev zeros : ℕ → ℕ
zeros _ = 0

abbrev message : IMessage Buffer
message = record { identity = 3; serialize = λ w. write_bytes buffer_IBuffer w (1 ∷ 2 ∷ []) }

message-Writes : Writes buffer_IBuffer message (1 ∷ 2 ∷ [])
message-Writes w a fits = write_bytes_lem buffer_IBuffer (1 ∷ 2 ∷ []) a (omega arith)

abbrev writer : BufferWriter StackBuffer
writer = BufferWriter.create (StackBuffer.create zeros 16)

writer-AtEnd : AtEnd (stack_IBuffer zeros) writer
unfolding BufferWriter.create
writer-AtEnd =
    let (v, e) = create-IsValid zeros 16 (omega arith) in
    let l = length-bytes (StackBuffer.create zeros 16) v in
    record { valid = v; at_end = omega (arith, l, ap length e) }

message_forwarded_example :
    (m : SerializeMessage) × (of_message zeros message ≡ ok m)
    × (m.id ≡ 3)
    × Appends
        (stack_IBuffer zeros)
        writer
        (1 ∷ 2 ∷ [])
        ((as_message (stack_IBuffer zeros) m).serialize writer)
unfolding BufferWriter.create
message_forwarded_example =
    message_forwarded (stack_IBuffer zeros) zeros message (1 ∷ 2 ∷ []) writer (omega arith)
      message-Writes writer-AtEnd (omega arith)

abbrev four_bytes : Buffer
four_bytes = record { size = 4; capacity = 4; buff = 1 ∷ 2 ∷ 3 ∷ 4 ∷ [] }

-- A reader that has read one of the four bytes.
abbrev one_read : BufferReader Buffer
one_read = record { buf = four_bytes; pos = 1 }

four_bytes-IsValid : IsValid four_bytes
four_bytes-IsValid = omega arith

one_read-Holds : Holds buffer_IBuffer one_read ((2 ∷ []) ++ (3 ∷ 4 ∷ []))
one_read-Holds = record { valid = four_bytes-IsValid; count = refl; left = refl }

abbrev old : SerializeMessage
old = record { id = 3; buffer = four_bytes }

message_reread_example :
    (m : SerializeMessage) × (r : BufferReader Buffer) × (serialize_read buffer_IBuffer old one_read
      ≡ ok (m, r))
    × (m.id ≡ 3)
    × (bytes m.buffer ≡ 2 ∷ [])
    × Holds buffer_IBuffer r (3 ∷ 4 ∷ [])
message_reread_example =
    message_reread buffer_IBuffer old (2 ∷ []) (3 ∷ 4 ∷ []) four_bytes-IsValid one_read-Holds refl
