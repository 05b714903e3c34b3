-- ===== src/Network/Tests.antt =====
-- Runs of the byte buffers, their readers and writers, and the byte order on concrete data.
use zlnet.Base.{ℕ, ◌-◌, ◌≡◌, refl, arith, [], ◌∷◌, ◌++◌, take, drop, ok, ◌*◌, ◌^◌}
use zlnet.Network.Growth.{grow, rounds, grow_total, Grown}
use zlnet.Network.Buffer.{Buffer}
use zlnet.Network.Buffer
use zlnet.Network.Buffer.Laws.{buffer_IBuffer, write_truncates}
use zlnet.Network.Buffer.Laws
use zlnet.Network.StackBuffer.{StackBuffer, inline, heap}
use zlnet.Network.StackBuffer
use zlnet.Network.StackBuffer.Laws.{write_overlays}
use zlnet.Network.StackBuffer.Laws as StackLaws
use zlnet.Network.ByteOrder.{
  Host, little, be_bytes, to_memory, of_memory, host_to_network64, host_to_network32,
  host_to_network16, network_to_host64, network_to_host32, network_to_host16,
}
use zlnet.Network.ByteOrder.Laws.{host_to_network_lem, network_to_host_lem}
use zlnet.Network.StackBuffer.Copies.{Copied, copies_lem}
use zlnet.Network.BufferWriter.{BufferWriter, write_string, write_uint32}
use zlnet.Network.BufferWriter.Laws.{AtEnd, Appends, write_words_lem, write_string_lem}
use zlnet.Network.BufferReader.{BufferReader}
use zlnet.Network.BufferReader.Laws.{Holds}

abbrev zeros : ℕ → ℕ
zeros _ = 0

abbrev host : Host
host = record { endian = little; long_size = 8 }

-- Three bytes in use.
abbrev three : Buffer
three = record { size = 3; capacity = 4; buff = 1 ∷ 2 ∷ 3 ∷ 0 ∷ [] }

three-IsValid : Laws.IsValid three
three-IsValid = omega arith

abbrev inlined : StackBuffer
inlined = record { buf = 1 ∷ 2 ∷ 3 ∷ 0 ∷ []; target = inline; size = 3; capacity = 4 }

inlined-IsValid : StackLaws.IsValid inlined
inlined-IsValid = record { storage = refl; word = omega arith; size_in = omega arith }

grow_total_example : Grown (3 * 2 ^ 30) (2 ^ 32 - 1) (grow rounds (3 * 2 ^ 30) (2 ^ 32 - 1))
grow_total_example = grow_total (3 * 2 ^ 30) (2 ^ 32 - 1) (omega arith) (omega arith)

write_truncates_example :
    (q : Buffer) × (Buffer.write three 1 (9 ∷ []) ≡ ok q)
    × Laws.IsValid q
    × (Laws.bytes q ≡ take 1 (Laws.bytes three) ++ (9 ∷ []))
write_truncates_example = write_truncates 1 (9 ∷ []) three-IsValid (omega arith) (omega arith)

write_overlays_example :
    (q : StackBuffer) × (StackBuffer.write zeros inlined 1 (9 ∷ []) ≡ ok q)
    × StackLaws.IsValid q
    × (StackLaws.bytes q
        ≡ take 1 (StackLaws.bytes inlined) ++ ((9 ∷ []) ++ drop 2 (StackLaws.bytes inlined)))
write_overlays_example = write_overlays zeros 1 (9 ∷ []) inlined-IsValid (omega arith) (omega arith)

-- On the heap.
abbrev outgrown : StackBuffer
outgrown = record inlined { target = heap (1 ∷ 2 ∷ 3 ∷ 4 ∷ 5 ∷ 0 ∷ []); size = 5; capacity = 6 }

outgrown-IsValid : StackLaws.IsValid outgrown
outgrown-IsValid = record { storage = refl; word = omega arith; size_in = omega arith }

copies_lem_example :
    Copied zeros outgrown-IsValid (StackBuffer.copy zeros outgrown)
    × Copied zeros outgrown-IsValid (StackBuffer.assign zeros inlined outgrown)
copies_lem_example = copies_lem zeros outgrown-IsValid inlined (omega arith) refl

host_to_network_lem_example :
    (to_memory little 8 (host_to_network64 host 258) ≡ be_bytes 8 258)
    × (to_memory little 4 (host_to_network32 host 258) ≡ be_bytes 4 258)
    × (to_memory little 2 (host_to_network16 host 258) ≡ be_bytes 2 258)
host_to_network_lem_example = host_to_network_lem host 258

network_to_host_lem_example :
    (network_to_host64 host (of_memory little (be_bytes 8 258)) ≡ 258)
    × (network_to_host32 host (of_memory little (be_bytes 4 259)) ≡ 259)
    × (network_to_host16 host (of_memory little (be_bytes 2 260)) ≡ 260)
network_to_host_lem_example =
    network_to_host_lem host 258 259 260 (omega arith) (omega arith) (omega arith)

abbrev writer : BufferWriter Buffer
writer = record { buf = three; pos = 3 }

writer-AtEnd : AtEnd buffer_IBuffer writer
writer-AtEnd = record { valid = three-IsValid; at_end = refl }

write_words_lem_example :
    Appends buffer_IBuffer writer (be_bytes 4 258) (write_uint32 buffer_IBuffer host writer 258)
write_words_lem_example = (write_words_lem buffer_IBuffer host 258 writer-AtEnd (omega arith)).2

write_string_lem_example :
    Appends buffer_IBuffer writer
      (be_bytes 4 2 ++ (104 ∷ 105 ∷ []))
      (write_string buffer_IBuffer host writer (104 ∷ 105 ∷ []))
write_string_lem_example =
    write_string_lem buffer_IBuffer host (104 ∷ 105 ∷ []) writer-AtEnd (omega arith)

abbrev reader : BufferReader Buffer
reader = record { buf = three; pos = 1 }

reader-Holds : Holds buffer_IBuffer reader (2 ∷ 3 ∷ [])
reader-Holds = record { valid = three-IsValid; count = refl; left = refl }
