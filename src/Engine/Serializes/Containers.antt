-- ===== src/Engine/Serializes/Containers.antt =====
-- The wire form of vectors and sets.
use zlnet.Base.{
  ℕ, ◌+◌, ◌^◌, ◌<◌, ◌≡◌, refl, ◌∙◌, sym, arith, List, [], ◌∷◌, ◌++◌, length, Bool, true, u32_mod,
  length-append,
}
use mathlib.Core.List.{append_assoc, append-nil}
use native.Mathlib.Nat.{mod-eq_of_lt}
use zlnet.Network.IBuffer.{IBuffer}
use zlnet.Network.ByteOrder.{Host, be_bytes}
use zlnet.Network.ByteOrder.Laws.{length-be_bytes}
use zlnet.Network.BufferWriter.{BufferWriter}
use zlnet.Network.BufferWriter.Laws.{AtEnd, Appends, Appends-bind, write_words_lem}
use zlnet.Network.BufferReader.{BufferReader}
use zlnet.Network.BufferReader.Laws.{Holds, Takes}
use zlnet.Engine.Serializes.{
  insert, serialize_vector, serialize_set, put_all, put_sequence, get_all, get_vector, get_set,
  insert_all,
}
use zlnet.Engine.Serializes.Laws.{Codec, read_int32_lem}

module _ {S : Type 0} (buffer : IBuffer S) (h : Host) {T : Type 0} (c : Codec buffer h T) where
  -- The elements one after the other, and behind their number.
  abbrev pub encode_all : List T → List ℕ
  encode_all [] = []
  encode_all (v ∷ vs) = c.encode v ++ encode_all vs

  abbrev pub encode_sequence : List T → List ℕ
  encode_sequence vs = be_bytes 4 (length vs) ++ encode_all vs

  abbrev pub AllFit : List T → Type 0
  AllFit [] = Unit {0}
  AllFit (v ∷ vs) = c.Fits v × AllFit vs

  put_all_lem :
      (w : BufferWriter S) (vs : List T)
      → AtEnd buffer w
      → AllFit vs
      → w.pos + length (encode_all vs) + 8 < u32_mod
      → Appends buffer w (encode_all vs) (put_all buffer h c.serial w vs)
  unfolding put_all
  put_all_lem w [] a f room = (w, refl, a, sym (append-nil (buffer.bytes w.buf)))
  put_all_lem w (v ∷ vs) a (f, fs) room =
      let l = length-append (c.encode v) (encode_all vs) in
      Appends-bind buffer w (c.encode v) (encode_all vs) _ _ a
        (c.put_lem w v a f (omega (arith, l))) λ q z e. put_all_lem q vs z fs (omega (arith, l))

  pub put_sequence_lem :
      (w : BufferWriter S) (vs : List T)
      → AtEnd buffer w
      → (length vs < 2 ^ 31) × AllFit vs
      → w.pos + length (encode_sequence vs) + 8 < u32_mod
      → Appends buffer w (encode_sequence vs) (put_sequence buffer h c.serial w vs)
  unfolding put_sequence
  put_sequence_lem w vs a (f, fs) room =
      let n = length vs in
      let l = length-append (be_bytes 4 n) (encode_all vs) in
      let l4 = length-be_bytes 4 n in
      rw (mod-eq_of_lt {n = n} {m = u32_mod} (omega arith)) (
        Appends-bind buffer w (be_bytes 4 n) (encode_all vs) _ _ a
          (write_words_lem buffer h n a (omega arith)).6
          λ q z e. put_all_lem q vs z fs (omega (arith, l, l4)))

  get_all_lem :
      (r : BufferReader S) (vs : List T) (rest : List ℕ)
      → AllFit vs
      → Holds buffer r (encode_all vs ++ rest)
      → Takes buffer vs r rest (get_all buffer h c.serial (length vs) r)
  unfolding get_all
  get_all_lem r [] rest f o = (r, refl, o, refl)
  get_all_lem r (v ∷ vs) rest (f, fs) o =
      let o1 : Holds buffer r (c.encode v ++ (encode_all vs ++ rest)) = rw append_assoc at o in
      let (q, e, o2, b) = c.get_lem r v (encode_all vs ++ rest) f o1 in
      let (q', e', o3, b') = get_all_lem q vs rest fs o2 in (q', rw (e, e'), o3, b' ∙ b)

  pub get_vector_lem :
      (r : BufferReader S) (vs : List T) (rest : List ℕ)
      → (length vs < 2 ^ 31) × AllFit vs
      → Holds buffer r (encode_sequence vs ++ rest)
      → Takes buffer vs r rest (get_vector buffer h c.serial r)
  unfolding get_vector
  get_vector_lem r vs rest (f, fs) o =
      let o1 : Holds buffer r (be_bytes 4 (length vs) ++ (encode_all vs ++ rest)) =
        rw append_assoc at o in
      let (q, e, o2, b) = read_int32_lem buffer h r (length vs) _ (omega arith) o1 in
      let (q', e', o3, b') = get_all_lem q vs rest fs o2 in
      (q', rw e (ground (arith, e')), o3, b' ∙ b)

  unfoldable pub vector_codec : Codec buffer h (List T)
  unfolding serialize_vector
  vector_codec = record {
    serial = serialize_vector buffer h c.serial;
    encode = encode_sequence;
    Fits = λ vs. (length vs < 2 ^ 31) × AllFit vs;
    put_lem = put_sequence_lem;
    get_lem = get_vector_lem;
  }

  module _ (less : T → T → Bool) where
    -- Each element comes after all before it, as in a std::set.
    abbrev pub Above : List T → T → Type 0
    Above [] v = Unit {0}
    Above (u ∷ us) v = (less u v ≡ true) × Above us v

    insert_end : (us : List T) (v : T) → Above us v → insert less v us ≡ us ++ v ∷ []
    unfolding insert
    insert_end [] v a = refl
    insert_end (u ∷ us) v (a, b) = rw (a, insert_end us v b)

    abbrev pub Sorted : List T → List T → Type 0
    Sorted us [] = Unit {0}
    Sorted us (v ∷ vs) = Above us v × Sorted (us ++ v ∷ []) vs

    insert_all_lem :
        (r : BufferReader S) (us vs : List T) (rest : List ℕ)
        → AllFit vs
        → Sorted us vs
        → Holds buffer r (encode_all vs ++ rest)
        → Takes buffer (us ++ vs) r rest (insert_all buffer h c.serial less (length vs) us r)
    unfolding insert_all
    insert_all_lem r us [] rest f s o = (r, rw append-nil, o, refl)
    insert_all_lem r us (v ∷ vs) rest (f, fs) (s, ss) o =
        let o1 : Holds buffer r (c.encode v ++ (encode_all vs ++ rest)) = rw append_assoc at o in
        let (q, e, o2, b) = c.get_lem r v (encode_all vs ++ rest) f o1 in
        let (q', e', o3, b') = insert_all_lem q (us ++ v ∷ []) vs rest fs ss o2 in
        (q', rw (e, insert_end us v s, e', append_assoc us (v ∷ []) vs), o3, b' ∙ b)

    pub get_set_lem :
        (r : BufferReader S) (vs : List T) (rest : List ℕ)
        → (length vs < 2 ^ 31) × AllFit vs × Sorted [] vs
        → Holds buffer r (encode_sequence vs ++ rest)
        → Takes buffer vs r rest (get_set buffer h c.serial less r)
    unfolding get_set
    get_set_lem r vs rest (f, fs, s) o =
        let o1 : Holds buffer r (be_bytes 4 (length vs) ++ (encode_all vs ++ rest)) =
          rw append_assoc at o in
        let (q, e, o2, b) = read_int32_lem buffer h r (length vs) _ (omega arith) o1 in
        let (q', e', o3, b') = insert_all_lem q [] vs rest fs s o2 in (q', rw e e', o3, b' ∙ b)

    unfoldable pub set_codec : Codec buffer h (List T)
    unfolding serialize_set
    set_codec = record {
      serial = serialize_set buffer h c.serial less;
      encode = encode_sequence;
      Fits = λ vs. (length vs < 2 ^ 31) × AllFit vs × Sorted [] vs;
      put_lem = λ w vs a f room. put_sequence_lem w vs a (f.0, f.1) room;
      get_lem = get_set_lem;
    }
