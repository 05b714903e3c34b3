-- ===== src/Network/StackBuffer/Copies.antt =====
-- The copies of a StackBuffer.
use zlnet.Base.{
  ℕ, ◌+◌, ◌≤◌, ◌≡◌, refl, sym, ap, ◌∙◌, arith, List, length, ltb, true, false, Result, ok, slice,
  splice, alloc, ext, get_elem?-take, get_elem?-slice, get_elem?-splice, length-slice, length-alloc,
  copy_in_lem, copy_out_lem, lt_cases, inl, inr,
}
use zlnet.Network.StackBuffer.{
  StackBuffer, inline, heap, memory, with_memory, take_over, copy, assign,
}
use zlnet.Network.StackBuffer.Laws.{
  IsValid, bytes, overwritten, memory-overwritten, overwritten-IsValid,
}
use zlnet.Network.StackBuffer.Stores.{with_memory_size}

module _ (junk : ℕ → ℕ) {obj : StackBuffer} (v : IsValid obj) where
  abbrev pub Copied : Result StackBuffer → Type 0
  Copied m = (q : StackBuffer) × (m ≡ ok q) × IsValid q × (bytes q ≡ bytes obj)

  -- The bytes of `obj`, copied to an object whose array is as long as its capacity.
  filled :
      (fresh : StackBuffer)
      → length (memory fresh) ≡ obj.capacity
      → fresh.capacity ≡ obj.capacity
      → fresh.size ≡ obj.size
      → let used = slice (memory obj) 0 obj.size in
        let q = overwritten fresh 0 used fresh.size in
        (with_memory fresh (splice (memory fresh) 0 used) ≡ q) × IsValid q × (bytes q ≡ bytes obj)
  filled fresh l c z =
      let used = slice (memory obj) 0 obj.size in
      let lu : length used ≡ obj.size =
        length-slice (memory obj) 0 obj.size (omega (arith, v.storage, v.size_in)) in
      let fv : IsValid fresh = record {
        storage = l ∙ sym c;
        word = omega (arith, v.word);
        size_in = omega (arith, v.size_in);
      } in
      let q = overwritten fresh 0 used fresh.size in
      let (m, _) = memory-overwritten fresh 0 used fresh.size in
      let inside : 0 + length used ≤ length (memory fresh) = omega (arith, v.size_in) in
      (
        with_memory_size fresh (splice (memory fresh) 0 used),
        overwritten-IsValid fresh 0 used fresh.size fv (omega (arith, v.size_in)) fv.size_in,
        ext (bytes q) (bytes obj) λ i. ground (
          arith,
          m,
          get_elem?-take fresh.size (memory q) i,
          get_elem?-take obj.size (memory obj) i,
          get_elem?-splice (memory fresh) 0 used i inside,
          get_elem?-slice (memory obj) 0 obj.size i,
        ),
      )

  take_over_lem : (own : List ℕ) → length own ≤ obj.capacity → Copied (take_over junk own obj)
  unfolding take_over
  take_over_lem own h =
      let used = slice (memory obj) 0 obj.size in
      let out = copy_out_lem (memory obj) 0 obj.size (omega (arith, v.storage, v.size_in)) in
      let lu = length-slice (memory obj) 0 obj.size (omega (arith, v.storage, v.size_in)) in
      elim (lt_cases (length own) obj.capacity) [
        | inl large ↦
            let away : ltb (length own) obj.capacity ≡ true = ground arith in
            let l = length-alloc junk obj.capacity in
            let fresh : StackBuffer = record {
              buf = own;
              target = heap (alloc junk obj.capacity);
              size = obj.size;
              capacity = obj.capacity;
            } in
            let (w, qv, e) = filled fresh l refl refl in
            let room : 0 + length used ≤ length (memory fresh) = omega (arith, lu, l, v.size_in) in
            (_, rw (away, out, copy_in_lem (memory fresh) 0 used room) (ap ok w), qv, e)
        | inr small ↦
            let away : ltb (length own) obj.capacity ≡ false = ground arith in
            let l : length own ≡ obj.capacity = omega arith in
            let fresh : StackBuffer = record {
              buf = own;
              target = inline;
              size = obj.size;
              capacity = obj.capacity;
            } in
            let (w, qv, e) = filled fresh l refl refl in
            let room : 0 + length used ≤ length (memory fresh) = omega (arith, lu, l, v.size_in) in
            (_, rw (away, out, copy_in_lem (memory fresh) 0 used room) (ap ok w), qv, e)
      ]

  -- Where a valid StackBuffer's capacity is at least FIXED_SIZE, and both objects have the same
  -- FIXED_SIZE, the copy constructor and operator = from it to another object succeed and leave a
  -- valid StackBuffer with the same bytes in use.
  pub copies_lem :
      (s : StackBuffer)
      → length obj.buf ≤ obj.capacity
      → length s.buf ≡ length obj.buf
      → Copied (copy junk obj) × Copied (assign junk s obj)
  unfolding copy assign
  copies_lem s h k =
      let fixed = length-alloc junk (length obj.buf) in
      (
        take_over_lem (alloc junk (length obj.buf)) (omega (arith, fixed)),
        take_over_lem s.buf (omega arith),
      )
