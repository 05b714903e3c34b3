-- ===== src/Network/StackBuffer.antt =====
-- network/Buffer.h, class StackBuffer<FIXED_SIZE>: a byte array inside the object, which moves to the
-- heap when it outgrows FIXED_SIZE.
pub mod Laws
pub mod Stores
pub mod Copies
use zlnet.Base.{
  ℕ, List, length, Option, none, some, ltb, leb, if◌then◌else◌, Result, ok, ◌>>=◌, ◌>>◌, require,
  add32, alloc, copy_in, copy_out,
}
use zlnet.Network.Growth.{grow, rounds, double}

-- What `_ptr` points to: the array `_buf` of the object, or one on the heap.
pub data Target : Type 0 where
  inline : Target
  heap : List ℕ → Target

pub record StackBuffer : Type 0 where
  pub buf : List ℕ
  pub target : Target
  pub size : ℕ
  pub capacity : ℕ

-- The array at `_ptr`.
abbrev pub memory : StackBuffer → List ℕ
memory s = elim s.target [ inline ↦ s.buf | heap m ↦ m ]

-- A store into that array.
abbrev pub with_memory : StackBuffer → List ℕ → StackBuffer
with_memory s m = elim s.target [
  | inline ↦ record s { buf = m }
  | heap _ ↦ record s { target = heap m }
]

pub clear : StackBuffer → StackBuffer
clear s = record s { size = 0 }

-- `char* write(uint32 pos, uint32 size)`, `read` and the accesses through their pointers.
pub read : StackBuffer → ℕ → ℕ → Result (List ℕ)
read s pos n = do require (leb (add32 pos n) s.size); copy_out (memory s) pos n

pub read_pointer : StackBuffer → ℕ → ℕ → Option ℕ
read_pointer s pos n = if ltb s.size (add32 pos n) then none else some pos

pub poke : StackBuffer → ℕ → List ℕ → Result StackBuffer
poke s off bs = do m ← copy_in (memory s) off bs; ok (with_memory s m)

pub peek : StackBuffer → ℕ → ℕ → Result (List ℕ)
peek s off n = copy_out (memory s) off n

-- `junk` is what the new arrays hold.
module _ (junk : ℕ → ℕ) where
  pub create : ℕ → StackBuffer
  create fixed_size = record {
    buf = alloc junk fixed_size;
    target = inline;
    size = 0;
    capacity = fixed_size;
  }

  -- The bytes in use, moved to a larger array on the heap.
  relocate : StackBuffer → ℕ → Result StackBuffer
  relocate s new_capacity = do
    used ← copy_out (memory s) 0 s.size
    m ← copy_in (alloc junk new_capacity) 0 used
    ok (record s { target = heap m; capacity = new_capacity })

  pub ensure : StackBuffer → ℕ → Result StackBuffer
  unfolding relocate
  ensure s need =
      let larger = (do
        new_capacity ← grow rounds (double s.capacity) need
        relocate s new_capacity) in
      if leb need s.capacity then ok s else larger

  -- `void write(uint32 pos, const char* data, uint32 size)`: `_size` never shrinks here.
  pub write : StackBuffer → ℕ → List ℕ → Result StackBuffer
  write s pos bs =
      let end = add32 pos (length bs) in
      do
        require (leb pos s.size)
        c ← ensure s end
        m ← copy_in (memory c) pos bs
        ok (record (with_memory c m) { size = if ltb c.size end then end else c.size })

  pub reserve : StackBuffer → ℕ → ℕ → Result (Option ℕ × StackBuffer)
  reserve s pos n =
      let end = add32 pos n in
      let room = (do
        c ← ensure s end
        ok (some pos, record c { size = if ltb c.size end then end else c.size })) in
      if ltb s.size pos then ok (none, s) else room

  -- What the copy constructor and `operator =` leave in an object, another than `obj`, whose array
  -- `_buf` is `own`: FIXED_SIZE is its length.
  take_over : List ℕ → StackBuffer → Result StackBuffer
  take_over own obj =
      let away = ltb (length own) obj.capacity in
      let target = if away then heap (alloc junk obj.capacity) else inline in
      let fresh : StackBuffer = record {
        buf = own;
        target = target;
        size = obj.size;
        capacity = obj.capacity;
      } in
      do
        used ← copy_out (memory obj) 0 obj.size
        m ← copy_in (memory fresh) 0 used
        ok (with_memory fresh m)

  pub copy : StackBuffer → Result StackBuffer
  unfolding take_over
  copy obj = take_over (alloc junk (length obj.buf)) obj

  pub assign : StackBuffer → StackBuffer → Result StackBuffer
  unfolding take_over
  assign s obj = take_over s.buf obj
