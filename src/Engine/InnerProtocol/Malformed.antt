-- ===== src/Engine/InnerProtocol/Malformed.antt =====
-- `onUnserialize` on a block that no sender writes.
use zlnet.Base.{
  ℕ, suc, ◌^◌, ◌≤◌, ◌<◌, ◌≡◌, ◌≢◌, ◌⊎◌, inl, inr, refl, sym, ap, ◌∙◌, arith, List, [], ◌∷◌, ◌++◌,
  length, take, drop, false, if◌then◌else◌, lt_cases, ◌==◌, ok, fault, null, assertion,
  length-append, length-take, take-append-drop,
}
use native.Mathlib.Nat.{mod-eq_of_lt}
use zlnet.Network.ByteOrder.{Host, be_bytes, le_bytes, of_memory, network_to_host32}
use zlnet.Network.ByteOrder.Laws.{length-be_bytes, network_to_host_lem, of_memory_one}
use zlnet.Network.IIoBuffer.{IIoBuffer}
use zlnet.Network.StackBuffer.{StackBuffer}
use zlnet.Network.StackBuffer.Laws.{IsValid, bytes, length-bytes, read_outside}
use zlnet.Engine.InnerProtocol.{
  Protocol, receive, next_frame, on_unserialize, header_type_call, header_type_callback,
  header_type_message,
}
use zlnet.Engine.InnerProtocol.Frames.{take_at}
use zlnet.Engine.InnerProtocol.Stream.{next_frame_lem, filled_inner}

-- A frame of a known type that is too short for its header.
abbrev pub TooShort : ℕ → ℕ → Type 0
TooShort k n =
    ((k ≡ header_type_call) × (n < 13))
    ⊎ ((k ≡ header_type_callback) × (n < 13))
    ⊎ ((k ≡ header_type_message) × (n < 9))

abbrev pub OtherType : ℕ → Type 0
OtherType k = (k ≢ header_type_call) × (k ≢ header_type_callback) × (k ≢ header_type_message)

still_short : {k n : ℕ} → 0 < n → (n ≡ 0) ⊎ TooShort k n → TooShort k n
still_short more (inl none_left) = absurd (omega arith)
still_short more (inr short) = short

module _ (junk : ℕ → ℕ) (h : Host) (p : Protocol) {inner : StackBuffer} (v : IsValid inner) where
  receive_short :
      (k n : ℕ) → length (bytes inner) ≡ n → TooShort k n → receive junk h p k inner ≡ fault null
  unfolding receive
  receive_short k n l (inl (e, s)) =
      rw (e, read_outside inner 0 13 v (omega (arith, l, length-bytes inner v)) (omega arith)) refl
  receive_short k n l (inr (inl (e, s))) =
      rw (e, read_outside inner 0 13 v (omega (arith, l, length-bytes inner v)) (omega arith)) refl
  receive_short k n l (inr (inr (e, s))) =
      rw (e, read_outside inner 0 9 v (omega (arith, l, length-bytes inner v)) (omega arith)) refl

  receive_unknown : (k : ℕ) → OtherType k → receive junk h p k inner ≡ ok (false, p)
  unfolding receive
  receive_unknown k (a, b, c) = ground arith

module _ (junk : ℕ → ℕ) (h : Host) {S : Type 0} (io : IIoBuffer S) {b : S} (p : Protocol)
    (k n fuel : ℕ) (rest : List ℕ) (v : io.IsValid b) (byte : k < 256) (word : n < 2 ^ 32)
    (front : io.contents b ≡ ((k ∷ []) ++ be_bytes 4 n) ++ rest)
    (stored : n ≤ length (io.contents b)) where
  abbrev block : List ℕ
  block = (k ∷ []) ++ be_bytes 4 n

  looked :
      (io.look b 5 ≡ ok block)
      × (of_memory h.endian (take 1 block) ≡ k)
      × (network_to_host32 h (of_memory h.endian (drop 1 block)) ≡ n)
      × (5 ≤ io.size b)
  unfolding be_bytes le_bytes
  looked =
      let lb : length block ≡ 5 = omega (arith, length-be_bytes 4 n) in
      let long : 5 ≤ io.size b =
        omega (arith, io.size_lem b v, ap length front, length-append block rest, lb) in
      (
        io.look_lem b 5 v (omega arith) long ∙ ap ok (ap (take 5) front ∙ take_at block rest lb),
        rw (mod-eq_of_lt byte) at (of_memory_one h.endian k byte),
        (network_to_host_lem h 0 n 0 (omega arith) word (omega arith)).1,
        long,
      )

  -- The frame, moved to an array of its own.
  moved :
      0 < n
      → (inner : StackBuffer) × (b' : S) × (next_frame junk h io b n ≡ ok (inner, b'))
        × IsValid inner
        × (length (bytes inner) ≡ n)
        × io.IsValid b'
        × (io.contents b' ≡ drop n (io.contents b))
  moved more =
      let xs = take n (io.contents b) in
      let l : length xs ≡ n = omega (arith, length-take n (io.contents b)) in
      let (inner, b', nx, iv, ib, v', c) =
        next_frame_lem junk h io b xs (drop n (io.contents b)) v
          (sym (take-append-drop n (io.contents b))) (omega (arith, l)) (omega (arith, l)) in
      (inner, b', ap (next_frame junk h io b) (sym l) ∙ nx, iv, ap length ib ∙ l, v', c)

  nothing_to_move : n ≡ 0 → next_frame junk h io b n ≡ fault assertion
  unfolding next_frame
  nothing_to_move e =
      let (s, q, _, en, res, _, _, _) = filled_inner junk [] (omega arith) in
      rw (e, en, res, io.read_nothing b) refl

  -- Where the block at the front of the valid input buffer has a size that the buffer holds, and
  -- the size is zero or, for a known type, below that of the header, onUnserialize ends the
  -- process: a failed assertion for zero, a null pointer that is used otherwise.
  pub unserialize_broken :
      (n ≡ 0) ⊎ TooShort k n
      → on_unserialize junk h io (suc fuel) p b ≡ fault (if n == 0 then assertion else null)
  unfolding on_unserialize
  unserialize_broken bad =
      let (lk, kd, sz, long) = looked in
      let fits : n ≤ io.size b = omega (arith, io.size_lem b v) in
      elim (lt_cases 0 n) [
        | inl more ↦
            let (inner, b', nx, iv, l, _, _) = moved more in
            let short : TooShort k n = still_short more bad in
            rw (lk, kd, sz, nx, receive_short junk h p iv k n l short) (ground arith)
        | inr nothing ↦ rw (lk, kd, sz, nothing_to_move (omega arith)) (ground arith)
      ]

  -- Where the block at the front of the valid input buffer has a positive size that the buffer
  -- holds and a type that is none of the three, onUnserialize returns false, pushes nothing, and
  -- the frame is gone from the buffer.
  pub unserialize_unknown :
      0 < n
      → OtherType k
      → (b' : S) × (on_unserialize junk h io (suc fuel) p b ≡ ok (false, p, b'))
        × io.IsValid b'
        × (io.contents b' ≡ drop n (io.contents b))
  unfolding on_unserialize
  unserialize_unknown more strange =
      let (lk, kd, sz, long) = looked in
      let fits : n ≤ io.size b = omega (arith, io.size_lem b v) in
      let (inner, b', nx, iv, l, v', c) = moved more in
      (b', rw (lk, kd, sz, nx, receive_unknown junk h p iv k strange) (ground arith), v', c)
