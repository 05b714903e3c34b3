-- ===== src/Network/Buffer.antt =====
-- network/Buffer.h, class Buffer: a byte array on the heap that grows.
pub mod Laws
use zlnet.Base.{
  ℕ, ◌+◌, List, length, Option, none, some, ltb, leb, if◌then◌else◌, Result, ok, ◌>>=◌, ◌>>◌,
  require, add32, alloc, copy_in, copy_out, u32_mod, zero,
}
use zlnet.Network.Growth.{grow, rounds}

pub record Buffer : Type 0 where
  pub size : ℕ
  pub capacity : ℕ
  pub buff : List ℕ

abbrev pub initial_size : ℕ
initial_size = 16

-- `clear`
unfoldable pub clear : Buffer → Buffer
clear b = record b { size = 0 }

pub swap : Buffer → Buffer → Buffer × Buffer
swap a b = (
  record a { size = b.size; capacity = b.capacity; buff = b.buff },
  record b { size = a.size; capacity = a.capacity; buff = a.buff },
)

-- `new_buff` is set to zero before the bytes in use are copied to it.
relocate : Buffer → ℕ → Result Buffer
relocate b new_capacity = do
  used ← copy_out b.buff 0 b.size
  m ← copy_in (alloc (λ _. 0) new_capacity) 0 used
  ok (record b { buff = m; capacity = new_capacity })

pub ensure : Buffer → ℕ → Result Buffer
unfolding relocate
ensure b need =
    let larger = (do new_capacity ← grow rounds b.capacity need; relocate b new_capacity) in
    if leb need b.capacity then ok b else larger

-- `void write(uint32 pos, const char* buff, uint32 size)`: `_size` is the end of this write, also
-- where the buffer held more.
pub write : Buffer → ℕ → List ℕ → Result Buffer
write b pos bs = do
  require (leb pos b.size)
  c ← ensure b (add32 pos (length bs))
  m ← copy_in c.buff pos bs
  ok (record c { buff = m; size = add32 pos (length bs) })

-- `char* write(uint32 pos, uint32 size)`
pub reserve : Buffer → ℕ → ℕ → Result (Option ℕ × Buffer)
reserve b pos n =
    let end = add32 pos n in
    let room = (do
      c ← ensure b end
      ok (some pos, record c { size = if ltb c.size end then end else c.size })) in
    if ltb b.size pos then ok (none, b) else room

-- `void read(uint32 pos, char* buff, uint32 size) const`
pub read : Buffer → ℕ → ℕ → Result (List ℕ)
read b pos n = do require (leb (add32 pos n) b.size); copy_out b.buff pos n

-- `const char* read(uint32 pos, uint32 size) const`
pub read_pointer : Buffer → ℕ → ℕ → Option ℕ
read_pointer b pos n = if ltb b.size (add32 pos n) then none else some pos

-- A store and a load through a pointer into `_buff`.
pub poke : Buffer → ℕ → List ℕ → Result Buffer
poke b off bs = do m ← copy_in b.buff off bs; ok (record b { buff = m })

pub peek : Buffer → ℕ → ℕ → Result (List ℕ)
peek b off n = copy_out b.buff off n

module _ (junk : ℕ → ℕ) where
  pub create : ℕ → Buffer
  create size =
      let capacity = if ltb 0 size then size else initial_size in
      record { size = 0; capacity = capacity; buff = alloc junk capacity }

  -- The copy constructor, and what `operator =` does where the two objects differ.
  pub copy : Buffer → Result Buffer
  copy b = do
    used ← copy_out b.buff 0 b.size
    m ← copy_in (alloc junk b.capacity) 0 used
    ok (record { size = b.size; capacity = b.capacity; buff = m })
