-- ===== src/Engine/Serializes/Maps.antt =====
-- The wire form of maps.
use zlnet.Base.{
  ℕ, ◌+◌, ◌^◌, ◌<◌, ◌≡◌, refl, ◌∙◌, sym, arith, List, [], ◌∷◌, ◌++◌, length, Bool, true, u32_mod,
  length-append,
}
use mathlib.Core.List.{append_assoc, append-nil}
use native.Mathlib.Nat.{mod-eq_of_lt}
use zlnet.Network.IBuffer.{IBuffer}
use zlnet.Network.ByteOrder.{Host, be_bytes}
use zlnet.Network.ByteOrder.Laws.{length-be_bytes}
use zlnet.Network.BufferWriter.{BufferWriter}
use zlnet.Network.BufferWriter.Laws.{AtEnd, Appends, Appends-bind, write_words_lem}
use zlnet.Network.BufferReader.{BufferReader}
use zlnet.Network.BufferReader.Laws.{Holds, Takes}
use zlnet.Engine.Serializes.{assign, serialize_map, put_entries, put_map, assign_all, get_map}
use zlnet.Engine.Serializes.Laws.{Codec, read_int32_lem}

module _ {S : Type 0} (buffer : IBuffer S) (h : Host) {K V : Type 0} (ck : Codec buffer h K)
    (cv : Codec buffer h V) where
  abbrev pub encode_entries : List (K × V) → List ℕ
  encode_entries [] = []
  encode_entries ((k, v) ∷ m) = ck.encode k ++ (cv.encode v ++ encode_entries m)

  abbrev pub encode_map : List (K × V) → List ℕ
  encode_map m = be_bytes 4 (length m) ++ encode_entries m

  abbrev pub EntriesFit : List (K × V) → Type 0
  EntriesFit [] = Unit {0}
  EntriesFit ((k, v) ∷ m) = ck.Fits k × cv.Fits v × EntriesFit m

  put_entries_lem :
      (w : BufferWriter S) (m : List (K × V))
      → AtEnd buffer w
      → EntriesFit m
      → w.pos + length (encode_entries m) + 8 < u32_mod
      → Appends buffer w (encode_entries m) (put_entries buffer h ck.serial cv.serial w m)
  unfolding put_entries
  put_entries_lem w [] a f room = (w, refl, a, sym (append-nil (buffer.bytes w.buf)))
  put_entries_lem w ((k, v) ∷ m) a (fk, fv, fs) room =
      let l = length-append (ck.encode k) (cv.encode v ++ encode_entries m) in
      let l' = length-append (cv.encode v) (encode_entries m) in
      Appends-bind buffer w (ck.encode k) (cv.encode v ++ encode_entries m) _ _ a
        (ck.put_lem w k a fk (omega (arith, l)))
        λ q z e.
          Appends-bind buffer q (cv.encode v) (encode_entries m) _ _ z
            (cv.put_lem q v z fv (omega (arith, l, l')))
            λ q' z' e'. put_entries_lem q' m z' fs (omega (arith, l, l'))

  pub put_map_lem :
      (w : BufferWriter S) (m : List (K × V))
      → AtEnd buffer w
      → (length m < 2 ^ 31) × EntriesFit m
      → w.pos + length (encode_map m) + 8 < u32_mod
      → Appends buffer w (encode_map m) (put_map buffer h ck.serial cv.serial w m)
  unfolding put_map
  put_map_lem w m a (f, fs) room =
      let n = length m in
      let l = length-append (be_bytes 4 n) (encode_entries m) in
      let l4 = length-be_bytes 4 n in
      rw (mod-eq_of_lt {n = n} {m = u32_mod} (omega arith)) (
        Appends-bind buffer w (be_bytes 4 n) (encode_entries m) _ _ a
          (write_words_lem buffer h n a (omega arith)).6
          λ q z e. put_entries_lem q m z fs (omega (arith, l, l4)))

  module _ (less : K → K → Bool) where
    -- The key comes after all before it.
    abbrev pub KeyAbove : List (K × V) → K → Type 0
    KeyAbove [] k = Unit {0}
    KeyAbove ((j, _) ∷ m) k = (less j k ≡ true) × KeyAbove m k

    abbrev pub KeysSorted : List (K × V) → List (K × V) → Type 0
    KeysSorted seen [] = Unit {0}
    KeysSorted seen ((k, v) ∷ m) = KeyAbove seen k × KeysSorted (seen ++ (k, v) ∷ []) m

    assign_end :
        (m : List (K × V)) (k : K) (v : V) → KeyAbove m k → assign less k v m ≡ m ++ (k, v) ∷ []
    unfolding assign
    assign_end [] k v a = refl
    assign_end ((j, w) ∷ m) k v (a, b) = rw (a, assign_end m k v b)

    assign_all_lem :
        (r : BufferReader S) (seen m : List (K × V)) (rest : List ℕ)
        → EntriesFit m
        → KeysSorted seen m
        → Holds buffer r (encode_entries m ++ rest)
        → Takes buffer
            (seen ++ m)
            r
            rest
            (assign_all buffer h ck.serial cv.serial less (length m) seen r)
    unfolding assign_all
    assign_all_lem r seen [] rest f s o = (r, rw append-nil, o, refl)
    assign_all_lem r seen ((k, v) ∷ m) rest (fk, fv, fs) (s, ss) o =
        let o1 : Holds buffer r (ck.encode k ++ (cv.encode v ++ (encode_entries m ++ rest))) =
          simp append_assoc at o in
        let (q, e, o2, b) = ck.get_lem r k (cv.encode v ++ (encode_entries m ++ rest)) fk o1 in
        let (q', e', o3, b') = cv.get_lem q v (encode_entries m ++ rest) fv o2 in
        let (q'', e'', o4, b'') = assign_all_lem q' (seen ++ (k, v) ∷ []) m rest fs ss o3 in
        (
          q'',
          rw (e, e', assign_end seen k v s, e'', append_assoc seen ((k, v) ∷ []) m),
          o4,
          b'' ∙ b' ∙ b,
        )

    pub get_map_lem :
        (r : BufferReader S) (m : List (K × V)) (rest : List ℕ)
        → (length m < 2 ^ 31) × EntriesFit m × KeysSorted [] m
        → Holds buffer r (encode_map m ++ rest)
        → Takes buffer m r rest (get_map buffer h ck.serial cv.serial less r)
    unfolding get_map
    get_map_lem r m rest (f, fs, s) o =
        let o1 : Holds buffer r (be_bytes 4 (length m) ++ (encode_entries m ++ rest)) =
          rw append_assoc at o in
        let (q, e, o2, b) = read_int32_lem buffer h r (length m) _ (omega arith) o1 in
        let (q', e', o3, b') = assign_all_lem q [] m rest fs s o2 in (q', rw e e', o3, b' ∙ b)

    unfoldable pub map_codec : Codec buffer h (List (K × V))
    unfolding serialize_map
    map_codec = record {
      serial = serialize_map buffer h ck.serial cv.serial less;
      encode = encode_map;
      Fits = λ m. (length m < 2 ^ 31) × EntriesFit m × KeysSorted [] m;
      put_lem = λ w m a f room. put_map_lem w m a (f.0, f.1) room;
      get_lem = get_map_lem;
    }
