-- ===== src/Engine/NetEngine/Hellos.antt =====
-- engine/NetEngine.cpp: a ping or a pong is read back as it was written.
use zlnet.Base.{
  ℕ, ◌+◌, ◌^◌, ◌<◌, ◌≡◌, refl, ap, ◌∙◌, arith, List, [], ◌++◌, length, ok, u32_mod, length-append,
}
use mathlib.Core.List.{append-nil}
use zlnet.Network.ByteOrder.{Host, be_bytes}
use zlnet.Network.ByteOrder.Laws.{length-be_bytes}
use zlnet.Network.Buffer.{Buffer}
use zlnet.Network.Buffer
use zlnet.Network.Buffer.Laws.{IsValid, bytes, buffer_IBuffer, create-IsValid}
use zlnet.Network.BufferWriter.{BufferWriter, write_uint32}
use zlnet.Network.BufferWriter
use zlnet.Network.BufferWriter.Laws.{AtEnd, Appends, Appends-bind, write_words_lem}
use zlnet.Network.BufferReader.{BufferReader}
use zlnet.Network.BufferReader
use zlnet.Network.BufferReader.Laws.{Holds, create-Holds, read_uint32_lem}
use zlnet.Engine.Serializes.Laws.{string_encode, put_string_lem, get_string_lem}
use zlnet.Engine.Messages.{SerializeMessage}
use zlnet.Engine.NetEngine.{Hello, caught, pack_hello, unpack_hello, hello_message, read_hello}

-- What the fields of a Hello are: numbers of 32 bits, and a string that its length leaves room for.
pub record Fits (x : Hello) : Type 0 where
  pub from_code : x.from_code < 2 ^ 32
  pub from_type : x.from_type < 2 ^ 32
  pub info : length x.info < 2 ^ 31
  pub to_code : x.to_code < 2 ^ 32
  pub to_type : x.to_type < 2 ^ 32

module _ (h : Host) where
  abbrev info_wire : Hello → List ℕ
  info_wire x = string_encode buffer_IBuffer h x.info

  abbrev wire : Hello → List ℕ
  wire x =
      be_bytes 4 x.from_code
      ++ (be_bytes 4 x.from_type ++ (info_wire x ++ (be_bytes 4 x.to_code ++ be_bytes 4 x.to_type)))

  put_word :
      (w : BufferWriter Buffer) (v : ℕ)
      → AtEnd buffer_IBuffer w
      → w.pos + 8 < u32_mod
      → Appends buffer_IBuffer w (be_bytes 4 v) (write_uint32 buffer_IBuffer h w v)
  put_word w v a room = (write_words_lem buffer_IBuffer h v a (omega arith)).2

  length-info : (x : Hello) → length (info_wire x) ≡ 4 + length x.info
  length-info x =
      omega (
        arith,
        length-append (be_bytes 4 (length x.info)) x.info,
        length-be_bytes 4 (length x.info),
      )

  pack_hello_lem :
      (w : BufferWriter Buffer) (x : Hello)
      → AtEnd buffer_IBuffer w
      → Fits x
      → w.pos ≡ 0
      → Appends buffer_IBuffer w (wire x) (pack_hello h w x)
  unfolding pack_hello
  pack_hello_lem w x a f z =
      let n = length-be_bytes 4 in
      let m = length-info x in
      Appends-bind buffer_IBuffer w _ _ _ _ a (put_word w x.from_code a (omega arith)) λ w1 a1 e1.
        Appends-bind buffer_IBuffer w1 _ _ _ _ a1
          (put_word w1 x.from_type a1 (omega (arith, n x.from_code)))
          λ w2 a2 e2.
            Appends-bind buffer_IBuffer w2 _ _ _ _ a2
              (put_string_lem buffer_IBuffer h w2 x.info a2 f.info
                (omega (arith, n x.from_code, n x.from_type, m, f.info)))
              λ w3 a3 e3.
                Appends-bind buffer_IBuffer w3 _ _ _ _ a3
                  (put_word w3 x.to_code a3
                    (omega (arith, n x.from_code, n x.from_type, m, f.info)))
                  λ w4 a4 e4.
                    put_word w4 x.to_type a4
                      (omega (arith, n x.from_code, n x.from_type, n x.to_code, m, f.info))

  unpack_hello_lem :
      (r : BufferReader Buffer) (x : Hello)
      → Fits x
      → Holds buffer_IBuffer r (wire x)
      → unpack_hello h r ≡ ok x
  unfolding unpack_hello caught
  unpack_hello_lem r x f o =
      let (r1, e1, o1, _) = read_uint32_lem buffer_IBuffer h r x.from_code _ f.from_code o in
      let (r2, e2, o2, _) = read_uint32_lem buffer_IBuffer h r1 x.from_type _ f.from_type o1 in
      let (r3, e3, o3, _) = get_string_lem buffer_IBuffer h r2 x.info _ f.info o2 in
      let (r4, e4, o4, _) = read_uint32_lem buffer_IBuffer h r3 x.to_code _ f.to_code o3 in
      let last : Holds buffer_IBuffer r4 (be_bytes 4 x.to_type ++ []) =
        rw (append-nil (be_bytes 4 x.to_type)) o4 in
      let (r5, e5, _, _) = read_uint32_lem buffer_IBuffer h r4 x.to_type [] f.to_type last in
      rw (e1, e2, e3, e4, e5) refl

  -- The message has the wire form of the five values, and they are read back from it.
  pub hello-RoundTrip :
      (junk : ℕ → ℕ) (x : Hello)
      → Fits x
      → (m : SerializeMessage) × (hello_message h junk x ≡ ok m)
        × IsValid m.buffer
        × (bytes m.buffer ≡ wire x)
        × (read_hello h m ≡ ok x)
  unfolding hello_message read_hello BufferWriter.create
  hello-RoundTrip junk x f =
      let (valid, empty) = create-IsValid junk 128 (omega arith) in
      let w = BufferWriter.create (Buffer.create junk 128) in
      let a : AtEnd buffer_IBuffer w = record {
        valid = valid;
        at_end = omega (arith, buffer_IBuffer.length-bytes w.buf valid, ap length empty);
      } in
      let (q, e, z, b) = pack_hello_lem w x a f refl in
      let held : bytes q.buf ≡ wire x = b ∙ ap (λ xs. xs ++ wire x) empty in
      (
        record { id = 0; buffer = q.buf },
        rw e refl,
        z.valid,
        held,
        unpack_hello_lem (BufferReader.create q.buf) x f
            (rw (← held) (create-Holds buffer_IBuffer q.buf z.valid)),
      )
