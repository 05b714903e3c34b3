-- ===== src/Network/StackBuffer/Laws.antt =====
-- StackBuffer's invariant, its operations against the bytes in use, and StackBuffer as an IBuffer.
use zlnet.Base.{
  ℕ, ◌+◌, ◌-◌, ◌≤◌, ◌<◌, ◌≡◌, refl, arith, List, [], ◌++◌, length, take, drop, get_elem?, ltb, none,
  some, if◌then◌else◌, u32_mod, length-take, get_elem?-append, get_elem?-take, get_elem?-none,
  get_elem?-drop, ok, slice, splice, get_elem?-slice, length-slice, ext, get_elem?-splice,
  length-splice, length-alloc, copy_in_lem, copy_out_lem, lt_cases, inl, inr, alloc, ◌∙◌, ap, sym,
  take_all, drop_all,
}
use mathlib.Core.List.{append-nil}
use zlnet.Network.Growth.{grow_total, double, double-lt}
use zlnet.Network.StackBuffer.{
  StackBuffer, Target, inline, heap, memory, with_memory, relocate, ensure, write, reserve, read,
  read_pointer, poke, peek, create,
}
use zlnet.Network.IBuffer.{IBuffer}

pub record IsValid (s : StackBuffer) : Type 0 where
  pub storage : length (memory s) ≡ s.capacity
  pub word : s.capacity < u32_mod
  pub size_in : s.size ≤ s.capacity

abbrev pub bytes : StackBuffer → List ℕ
bytes s = take s.size (memory s)

pub length-bytes : (s : StackBuffer) → IsValid s → length (bytes s) ≡ s.size
length-bytes s v = omega (arith, length-take s.size (memory s), v.storage, v.size_in)

memory-with_memory : (s : StackBuffer) (m : List ℕ) → memory (with_memory s m) ≡ m
memory-with_memory s m = go s.target
  where
    go : (t : Target) → memory (with_memory (record s { target = t }) m) ≡ m
    go inline = refl
    go (heap _) = refl

-- The buffer after `bs` were copied to `pos`, and `_size` is `n`.
abbrev pub overwritten : StackBuffer → ℕ → List ℕ → ℕ → StackBuffer
overwritten c pos bs n = record (with_memory c (splice (memory c) pos bs)) { size = n }

pub memory-overwritten :
    (c : StackBuffer) (pos : ℕ) (bs : List ℕ) (n : ℕ)
    → (memory (overwritten c pos bs n) ≡ splice (memory c) pos bs)
      × ((overwritten c pos bs n).capacity ≡ c.capacity)
memory-overwritten c pos bs n = go c.target
  where
    go :
        (t : Target)
        → let d = record c { target = t } in
          (memory (overwritten d pos bs n) ≡ splice (memory d) pos bs)
          × ((overwritten d pos bs n).capacity ≡ c.capacity)
    go inline = (refl, refl)
    go (heap _) = (refl, refl)

pub overwritten-IsValid :
    (c : StackBuffer) (pos : ℕ) (bs : List ℕ) (n : ℕ)
    → IsValid c
    → pos + length bs ≤ c.capacity
    → n ≤ c.capacity
    → IsValid (overwritten c pos bs n)
overwritten-IsValid c pos bs n v h k =
    let (m, a) = memory-overwritten c pos bs n in
    let l = length-splice (memory c) pos bs (omega (arith, v.storage)) in
    record {
      storage = ap length m ∙ l ∙ v.storage ∙ sym a;
      word = omega (arith, a, v.word);
      size_in = omega (arith, a);
    }

module _ (junk : ℕ → ℕ) where
  pub ensure_lem :
      {s : StackBuffer} (need : ℕ)
      → IsValid s
      → need < u32_mod
      → (c : StackBuffer) × (ensure junk s need ≡ ok c)
        × IsValid c
        × (c.size ≡ s.size)
        × ((i : ℕ) → i < s.size → get_elem? (memory c) i ≡ get_elem? (memory s) i)
        × (need ≤ c.capacity)
  unfolding ensure relocate
  ensure_lem {s} need v w = elim (lt_cases s.capacity need) [
    | inr fits ↦ (s, ground arith, v, refl, λ i h. refl, fits)
    | inl small ↦
        let (n, g, lo, hi, _) = grow_total (double s.capacity) need (double-lt s.capacity).0 w in
        let fresh = alloc junk n in
        let used = slice (memory s) 0 s.size in
        let lf = length-alloc junk n in
        let lu = length-slice (memory s) 0 s.size (omega (arith, v.storage, v.size_in)) in
        let c = record s { target = heap (splice fresh 0 used); capacity = n } in
        (
          c,
          ground (
            arith,
            g,
            v,
            copy_out_lem (memory s) 0 s.size (omega (arith, v.storage, v.size_in)),
            copy_in_lem fresh 0 used (omega (arith, lf, lu, v.size_in)),
          ),
          record {
            storage = length-splice fresh 0 used (omega (arith, lf, lu, v.size_in)) ∙ lf;
            word = hi;
            size_in = omega (arith, v.size_in);
          },
          refl,
          λ i h. ground (
            arith,
            get_elem?-splice fresh 0 used i (omega (arith, lf, lu, v.size_in)),
            lu,
            get_elem?-slice (memory s) 0 s.size i,
          ),
          lo,
        )
  ]

  -- On a valid StackBuffer a write at or before the end of the bytes in use, whose end a uint32
  -- can count, succeeds: the bytes before the position and those behind the written ones are kept,
  -- and the StackBuffer stays valid, in its own array or on the heap.
  pub write_overlays :
      {s : StackBuffer} (pos : ℕ) (bs : List ℕ)
      → IsValid s
      → pos ≤ s.size
      → pos + length bs < u32_mod
      → (q : StackBuffer) × (write junk s pos bs ≡ ok q)
        × IsValid q
        × (bytes q ≡ take pos (bytes s) ++ (bs ++ drop (pos + length bs) (bytes s)))
  unfolding write
  write_overlays {s} pos bs v p w =
      let end = pos + length bs in
      let n = if ltb s.size end then end else s.size in
      let (c, e, v', z, k, room) = ensure_lem end v w in
      let q = overwritten c pos bs n in
      let (m, _) = memory-overwritten c pos bs n in
      let fits : n ≤ c.capacity = ground (arith, v') in
      let inside : pos + length bs ≤ length (memory c) = omega (arith, v'.storage) in
      let v'' = overwritten-IsValid c pos bs n v' room fits in
      (
        q,
        ground (arith, e, z, copy_in_lem (memory c) pos bs inside),
        v'',
        ext (bytes q) (take pos (bytes s) ++ (bs ++ drop end (bytes s))) λ i. ground (
          arith,
          m,
          get_elem?-take n (memory q) i,
          get_elem?-splice (memory c) pos bs i inside,
          get_elem?-append (take pos (bytes s)) (bs ++ drop end (bytes s)) i,
          length-take pos (bytes s),
          length-bytes s v,
          get_elem?-take pos (bytes s) i,
          get_elem?-take s.size (memory s) i,
          get_elem?-append bs (drop end (bytes s)) (i - pos),
          get_elem?-drop end (bytes s) (i - pos - length bs),
          get_elem?-none bs (i - pos),
          k i,
        ),
      )

  pub write_end :
      (s : StackBuffer) (bs : List ℕ)
      → IsValid s
      → s.size + length bs < u32_mod
      → (q : StackBuffer) × (write junk s s.size bs ≡ ok q) × IsValid q × (bytes q ≡ bytes s ++ bs)
  write_end s bs v w =
      let (q, e, v', c) = write_overlays s.size bs v (omega arith) w in
      let l = length-bytes s v in
      (
        q,
        e,
        v',
        rw
            (
              take_all s.size (bytes s) (omega (arith, l)),
              drop_all (s.size + length bs) (bytes s) (omega (arith, l)),
              append-nil,
            )
            at c,
      )

  -- A reservation at the end followed by a store of that many bytes.
  pub reserve_poke :
      (s : StackBuffer) (bs : List ℕ)
      → IsValid s
      → s.size + length bs < u32_mod
      → (q q' : StackBuffer) × (reserve junk s s.size (length bs) ≡ ok (some s.size, q))
        × (poke q s.size bs ≡ ok q')
        × IsValid q'
        × (bytes q' ≡ bytes s ++ bs)
  unfolding reserve poke
  reserve_poke s bs v w =
      let n = s.size + length bs in
      let (c, e, v', z, k, room) = ensure_lem n v w in
      let q = overwritten c s.size bs n in
      let (m, _) = memory-overwritten c s.size bs n in
      let inside : s.size + length bs ≤ length (memory c) = omega (arith, v'.storage) in
      (
        record c { size = n },
        q,
        ground (arith, e, z),
        ground (arith, copy_in_lem (memory c) s.size bs inside),
        overwritten-IsValid c s.size bs n v' room room,
        ext (bytes q) (bytes s ++ bs) λ i. ground (
          arith,
          m,
          get_elem?-take n (memory q) i,
          get_elem?-splice (memory c) s.size bs i inside,
          get_elem?-append (bytes s) bs i,
          length-bytes s v,
          get_elem?-take s.size (memory s) i,
          get_elem?-none bs (i - s.size),
          k i,
        ),
      )

slice-bytes :
    (s : StackBuffer) (pos n : ℕ)
    → IsValid s
    → pos + n ≤ s.size
    → slice (memory s) pos n ≡ slice (bytes s) pos n
slice-bytes s pos n v h = ext (slice (memory s) pos n) (slice (bytes s) pos n) λ i. ground (
  arith,
  get_elem?-slice (memory s) pos n i,
  get_elem?-slice (bytes s) pos n i,
  get_elem?-take s.size (memory s) (pos + i),
)

pub read_lem :
    (s : StackBuffer) (pos n : ℕ)
    → IsValid s
    → pos + n ≤ s.size
    → (read s pos n ≡ ok (slice (bytes s) pos n))
      × (read_pointer s pos n ≡ some pos)
      × (peek s pos n ≡ ok (slice (bytes s) pos n))
unfolding read read_pointer peek
read_lem s pos n v h =
    let inside : pos + n ≤ length (memory s) = omega (arith, v.storage, v.size_in) in
    ground (arith, v.word, v.size_in, copy_out_lem (memory s) pos n inside, slice-bytes s pos n v h)

pub read_outside :
    (s : StackBuffer) (pos n : ℕ)
    → IsValid s
    → s.size < pos + n
    → pos + n < u32_mod
    → read_pointer s pos n ≡ none
unfolding read_pointer
read_outside s pos n v h w = ground arith

pub size_word : (s : StackBuffer) → IsValid s → s.size < u32_mod
size_word s v = omega (arith, v.word, v.size_in)

-- A StackBuffer is an IBuffer.
abbrev pub stack_IBuffer : (ℕ → ℕ) → IBuffer StackBuffer
stack_IBuffer junk = record {
  IsValid = IsValid;
  bytes = bytes;
  size = λ s. s.size;
  write = write junk;
  reserve = reserve junk;
  read = read;
  read_pointer = read_pointer;
  poke = poke;
  peek = peek;
  length-bytes = length-bytes;
  size_word = size_word;
  write_end = write_end junk;
  reserve_end = reserve_poke junk;
  read_inside = read_lem;
  read_outside = read_outside;
}

pub create-IsValid :
    (junk : ℕ → ℕ) (fixed_size : ℕ)
    → fixed_size < u32_mod
    → IsValid (create junk fixed_size) × (bytes (create junk fixed_size) ≡ [])
unfolding create
create-IsValid junk fixed_size w = ground (arith, length-alloc junk fixed_size)
