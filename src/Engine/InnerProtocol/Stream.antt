-- ===== src/Engine/InnerProtocol/Stream.antt =====
-- `onUnserialize` on the bytes that several frames left in the input buffer.
use zlnet.Base.{
  ℕ, zero, suc, ◌+◌, ◌≤◌, ◌<◌, ◌≡◌, refl, sym, ap, ◌∙◌, arith, List, [], ◌∷◌, ◌++◌, map, length,
  take, drop, some, true, ok, u32_mod, length-append, lt_cases, inl, inr,
}
use mathlib.Core.List.{append_assoc, append-nil}
use zlnet.Network.ByteOrder.{Host, be_bytes, le_bytes, of_memory, network_to_host32}
use zlnet.Network.ByteOrder.Laws.{network_to_host_lem, of_memory_one}
use zlnet.Network.IIoBuffer.{IIoBuffer}
use zlnet.Network.StackBuffer.{StackBuffer, create, ensure, reserve, poke}
use zlnet.Network.StackBuffer.Laws.{IsValid, bytes, length-bytes, ensure_lem, reserve_poke}
use zlnet.Network.StackBuffer.Laws
use zlnet.Engine.Messages.{IoPacket}
use zlnet.Engine.InnerProtocol.{Protocol, receive, next_frame, on_unserialize, init_buffer_size}
use zlnet.Engine.InnerProtocol.Frames.{Content, take_at, drop_at}
use zlnet.Engine.InnerProtocol.Receive.{
  Frame, call_frame, answer_frame, plain_frame, kind_of, size_of, block_of, wire, length-wire,
  length-block_of, FrameFits, delivered, beat, After, seen, receive_lem,
}

-- The array that a frame is moved to.
pub filled_inner :
    (junk : ℕ → ℕ) (xs : List ℕ)
    → length xs < u32_mod
    → (s : StackBuffer) × (q : StackBuffer) × (inner : StackBuffer) × (ensure junk
          (create junk init_buffer_size)
          (length xs)
        ≡ ok s)
      × (reserve junk s 0 (length xs) ≡ ok (some 0, q))
      × (poke q 0 xs ≡ ok inner)
      × IsValid inner
      × (bytes inner ≡ xs)
filled_inner junk xs w =
    let (fresh, none_yet) = Laws.create-IsValid junk init_buffer_size (omega arith) in
    let l = length-bytes (create junk init_buffer_size) fresh in
    let (s, en, sv, z, _, _) = ensure_lem junk (length xs) fresh w in
    let empty : s.size ≡ 0 = omega (arith, z, l, ap length none_yet) in
    let (q, inner, res, pk, qv, c) = reserve_poke junk s xs sv (omega arith) in
    (s, q, inner, en, rw empty at res, rw empty at pk, qv, c ∙ rw empty refl)

kind_byte : (h : Host) (f : Frame) → of_memory h.endian (kind_of f ∷ []) ≡ kind_of f
unfolding be_bytes le_bytes
kind_byte h (call_frame cmd callback body) = of_memory_one h.endian 0x81 (omega arith)
kind_byte h (answer_frame callback error body) = of_memory_one h.endian 0x82 (omega arith)
kind_byte h (plain_frame cmd body) = of_memory_one h.endian 0x83 (omega arith)

size_above : (f : Frame) → 9 ≤ size_of f
size_above (call_frame cmd callback body) = omega arith
size_above (answer_frame callback error body) = omega arith
size_above (plain_frame cmd body) = omega arith

abbrev pub wires : List Frame → List ℕ
wires [] = []
wires (f ∷ fs) = wire f ++ wires fs

abbrev pub AllFit : List Frame → Type 0
AllFit [] = Unit {0}
AllFit (f ∷ fs) = FrameFits f × AllFit fs

abbrev pub packets_of : ℕ → List Frame → List (IoPacket Content)
packets_of key [] = []
packets_of key (f ∷ fs) = delivered key f ++ packets_of key fs

abbrev pub beats : List Frame → ℕ → ℕ
beats [] n = n
beats (f ∷ fs) n = beats fs (beat f n)

-- The beginning of a frame whose end is missing, which may be no byte at all.
abbrev pub Incomplete : List ℕ → Type 0
Incomplete tail =
    (f : Frame) × (missing : List ℕ) × FrameFits f
    × (0 < length missing)
    × (tail ++ missing ≡ wire f)

nothing_lem : (p : Protocol) → After p [] p.heartbeat p
nothing_lem p = record {
  same_key = refl;
  pushed = sym (append-nil (map seen p.queue));
  count_now = refl;
}

After-trans :
    {p q r : Protocol} {xs ys : List (IoPacket Content)} {k m : ℕ}
    → After p xs k q
    → After q ys m r
    → After p (xs ++ ys) m r
After-trans {p} {q} {r} {xs} {ys} a b = record {
  same_key = b.same_key ∙ a.same_key;
  pushed = b.pushed ∙ ap (λ r. r ++ ys) a.pushed ∙ append_assoc (map seen p.queue) xs ys;
  count_now = b.count_now;
}

take-append_le : (n : ℕ) (xs ys : List ℕ) → n ≤ length xs → take n (xs ++ ys) ≡ take n xs
take-append_le zero xs ys h = refl
take-append_le (suc n) [] ys h = absurd (omega arith)
take-append_le (suc n) (x ∷ xs) ys h = ap (◌∷◌ x) (take-append_le n xs ys (omega arith))

module _ (junk : ℕ → ℕ) (h : Host) {S : Type 0} (io : IIoBuffer S) where
  pub next_frame_lem :
      (b : S) (xs ys : List ℕ)
      → io.IsValid b
      → io.contents b ≡ xs ++ ys
      → 0 < length xs
      → length xs < u32_mod
      → (inner : StackBuffer) × (b' : S) × (next_frame junk h io b (length xs) ≡ ok (inner, b'))
        × IsValid inner
        × (bytes inner ≡ xs)
        × io.IsValid b'
        × (io.contents b' ≡ ys)
  unfolding next_frame
  next_frame_lem b xs ys v e more w =
      let (s, q, inner, en, res, pk, qv, c) = filled_inner junk xs w in
      let enough : length xs ≤ io.size b =
        omega (arith, io.size_lem b v, ap length e, length-append xs ys) in
      let (b', rd, v', c') = io.read_lem b (length xs) v more enough in
      let got : take (length xs) (io.contents b) ≡ xs =
        ap (take (length xs)) e ∙ take_at xs ys refl in
      (
        inner,
        b',
        rw (en, res, rd, got, pk) refl,
        qv,
        c,
        v',
        c' ∙ ap (drop (length xs)) e ∙ drop_at xs ys refl,
      )

  module _ (b : S) (v : io.IsValid b) (p : Protocol) where
    -- The block at the front of the buffer, as the loop reads it.
    block_lem :
        (f : Frame)
        → FrameFits f
        → 5 ≤ length (io.contents b)
        → take 5 (io.contents b) ≡ block_of f
        → (io.look b 5 ≡ ok (block_of f))
          × (of_memory h.endian (take 1 (block_of f)) ≡ kind_of f)
          × (network_to_host32 h (of_memory h.endian (drop 1 (block_of f))) ≡ size_of f)
    block_lem f s enough e = (
      io.look_lem b 5 v (omega arith) (omega (arith, io.size_lem b v)) ∙ ap ok e,
      kind_byte h f,
      (network_to_host_lem h 0 (size_of f) 0 (omega arith) s.size_fits (omega arith)).1,
    )

    round_lem :
        {block : List ℕ} {kind size : ℕ} {inner : StackBuffer} {b' : S} {q : Protocol} (n : ℕ)
        → 5 ≤ io.size b
        → io.look b 5 ≡ ok block
        → of_memory h.endian (take 1 block) ≡ kind
        → network_to_host32 h (of_memory h.endian (drop 1 block)) ≡ size
        → size ≤ io.size b
        → next_frame junk h io b size ≡ ok (inner, b')
        → receive junk h p kind inner ≡ ok (true, q)
        → on_unserialize junk h io (suc n) p b ≡ on_unserialize junk h io n q b'
    unfolding on_unserialize
    round_lem n enough lk kd sz fits nx rc = rw (lk, kd, sz, nx, rc) (ground arith)

    frame_step :
        (f : Frame) (rest : List ℕ)
        → FrameFits f
        → io.contents b ≡ wire f ++ rest
        → (q : Protocol) × (b' : S) × ((n : ℕ)
            → on_unserialize junk h io (suc n) p b ≡ on_unserialize junk h io n q b')
          × After p (delivered p.key f) (beat f p.heartbeat) q
          × io.IsValid b'
          × (io.contents b' ≡ rest)
    frame_step f rest s e =
        let l = length-wire f in
        let la = length-append (wire f) rest in
        let lb = length-block_of f in
        let more : 9 ≤ size_of f = size_above f in
        let total : length (io.contents b) ≡ size_of f + length rest =
          rw e (omega (arith, l, la)) in
        let front : take 5 (io.contents b) ≡ block_of f =
          ap (take 5) (e ∙ append_assoc (block_of f) _ rest) ∙ take_at (block_of f) _ lb in
        let (lk, kd, sz) = block_lem f s (omega arith) front in
        let (inner, b', nx, iv, ib, v', c') =
          next_frame_lem b (wire f) rest v e (omega (arith, l)) (omega (arith, l, s.size_fits)) in
        let (q, rc, af) = receive_lem junk h p iv f s ib in
        (
          q,
          b',
          λ n.
              round_lem n (omega (arith, io.size_lem b v)) lk kd sz (omega (arith, io.size_lem b v))
                (rw l at nx) rc,
          af,
          v',
          c',
        )

    -- The loop ends at the beginning of a frame that is not all there.
    stop_lem :
        (tail : List ℕ) (n : ℕ)
        → Incomplete tail
        → io.contents b ≡ tail
        → on_unserialize junk h io (suc n) p b ≡ ok (true, p, b)
    unfolding on_unserialize
    stop_lem tail n (f, missing, s, more, e) c =
        let z = io.size_lem b v ∙ ap length c in
        elim (lt_cases (length tail) 5) [
          | inl few ↦ ground arith
          | inr enough ↦
              let lb = length-block_of f in
              let short : length tail + length missing ≡ size_of f =
                sym (length-append tail missing) ∙ ap length e ∙ length-wire f in
              let front : take 5 (io.contents b) ≡ block_of f =
                ap (take 5) c
                ∙ sym (take-append_le 5 tail missing enough)
                ∙ ap (take 5) e
                ∙ take_at (block_of f) _ lb in
              let (lk, kd, sz) = block_lem f s (omega (arith, ap length c)) front in
              rw (lk, sz) (ground arith)
        ]

  -- Where the valid input buffer holds any number of well formed frames followed by the beginning
  -- of one more, whose end is missing, onUnserialize returns true within one round more than there
  -- are frames: the packets of the frames are pushed in order, a heart beat resets the count, and
  -- the beginning stays in the buffer.
  pub unserialize_frames :
      (fs : List Frame) (tail : List ℕ) {b : S} (p : Protocol)
      → io.IsValid b
      → AllFit fs
      → Incomplete tail
      → io.contents b ≡ wires fs ++ tail
      → (q : Protocol) × (b' : S) × (on_unserialize junk h io (suc (length fs)) p b
          ≡ ok (true, q, b'))
        × After p (packets_of p.key fs) (beats fs p.heartbeat) q
        × io.IsValid b'
        × (io.contents b' ≡ tail)
  unserialize_frames [] tail {b} p v s i e = (p, b, stop_lem b v p tail 0 i e, nothing_lem p, v, e)
  unserialize_frames (f ∷ fs) tail {b} p v (s, ss) i e =
      let (q, b', step, af, v', c) =
        frame_step b v p f (wires fs ++ tail) s (e ∙ append_assoc (wire f) (wires fs) tail) in
      let (q', b'', run, af', v'', c') = unserialize_frames fs tail q v' ss i c in
      (
        q',
        b'',
        step (suc (length fs)) ∙ run,
        After-trans af (rw (af.same_key, af.count_now) at af'),
        v'',
        c',
      )
