-- ===== src/Network/RingBuffer.antt =====
-- network/RingBuffer.h and network/RingBuffer.cpp: CRingBuffer, the byte queue between a socket and a
-- protocol. An assertion that fails, and a `memcpy` that leaves its array, end in a `fault`. The
-- pointers of an SBufferVec are offsets into `_buff`, `none` for nullptr, and an `int` is its 32 bits.
pub mod Valid
pub mod Resize
pub mod Write
pub mod Read
pub mod Vectors
pub mod Room
pub mod Interface
mod Tests
use zlnet.Base.{
  ℕ, ◌*◌, List, length, take, drop, Option, none, some, Bool, ltb, leb, ◌==◌, if◌then◌else◌, false,
  true, Result, ok, ◌>>=◌, ◌>>◌, require, add32, sub32, alloc, copy_in, copy_out, ◌&&◌, ◌++◌,
}
use zlnet.Network.Growth.{grow, rounds}

pub record SBufferVec : Type 0 where
  pub buff : Option ℕ
  pub len : ℕ

abbrev pub vec : Option ℕ → ℕ → SBufferVec
vec buff len = record { buff = buff; len = len }

-- `SBufferVec::clear`
abbrev pub null_vec : SBufferVec
null_vec = vec none 0

-- `buff = len > 0 ? _buff + off : nullptr; len = len > 0 ? len : 0;`
abbrev pub region : ℕ → ℕ → SBufferVec
region off len = vec (if ltb 0 len then some off else none) (if ltb 0 len then len else 0)

pub record Ring : Type 0 where
  pub capacity : ℕ
  pub front : ℕ
  pub end : ℕ
  pub size : ℕ
  pub buff : List ℕ
  pub writerv0 : SBufferVec
  pub writerv1 : SBufferVec
  pub readerv0 : SBufferVec
  pub readerv1 : SBufferVec

abbrev pub bound_size : ℕ
bound_size = 1024 * 500

abbrev pub shrink_size : ℕ
shrink_size = 1024 * 10

-- `writableBytes`, `readableBytes` and `empty`.
pub writable_bytes : Ring → ℕ
writable_bytes r = sub32 r.capacity r.size

pub readable_bytes : Ring → ℕ
readable_bytes r = r.size

pub is_empty : Ring → Bool
is_empty r = r.size == 0

pub clear : Ring → Ring
clear r = record r { front = 0; end = 0; size = 0; writerv0 = null_vec; readerv0 = null_vec }

pub write_confirm : Ring → ℕ → Result Ring
write_confirm r len = do
  require (ltb 0 len && leb (add32 r.size len) r.capacity)
  let count = sub32 r.capacity r.end
  let wrapped = if ltb len count then add32 r.end len else sub32 len count
  let end' = if leb r.front r.end then wrapped else add32 r.end len
  ok (record r { end = end'; size = add32 r.size len })

pub read_confirm : Ring → ℕ → Result Ring
read_confirm r len = do
  require (leb len r.size && ltb 0 len)
  let count = sub32 r.capacity r.front
  let wrapped = if ltb len count then add32 r.front len else sub32 len count
  let front' = if ltb r.front r.end then add32 r.front len else wrapped
  ok (record r { front = front'; size = sub32 r.size len })

-- The bytes that `look` and `read` copy to the caller, from two pieces where `split` says so.
copy_pieces : Ring → ℕ → Bool → Result (List ℕ)
copy_pieces r len split =
    let count = sub32 r.capacity r.front in
    let pieces = (do
      a ← copy_out r.buff r.front count
      b ← copy_out r.buff 0 (sub32 len count)
      ok (a ++ b)) in
    if split then pieces else copy_out r.buff r.front len

pub look : Ring → ℕ → Result (List ℕ)
unfolding copy_pieces
look r len = do
  require (leb len r.size && ltb 0 len)
  let split = if ltb r.front r.end then false else ltb (sub32 r.capacity r.front) len
  copy_pieces r len split

unfoldable pub get_writeable_vec : Ring → Ring
get_writeable_vec r =
    let none_writeable = record r { writerv0 = null_vec; writerv1 = null_vec } in
    let len1 = sub32 r.capacity r.end in
    let len2 = sub32 r.front 1 in
    let tail = region r.end len1 in
    let head = region 0 len2 in
    let gap = vec (some r.end) (sub32 r.front r.end) in
    if r.size == r.capacity
    then none_writeable
    else if leb r.front r.end
    then record r { writerv0 = tail; writerv1 = if ltb 0 r.front then head else null_vec }
    else record r { writerv0 = gap; writerv1 = null_vec }

pub get_readable_vec : Ring → Ring
get_readable_vec r =
    let len1 = sub32 r.capacity r.front in
    let whole = vec (some r.front) r.size in
    let tail = vec (some r.front) len1 in
    let head = vec (some 0) (sub32 r.size len1) in
    if r.size == 0
    then record r { readerv0 = null_vec; readerv1 = null_vec }
    else if ltb r.front r.end
    then record r { readerv0 = whole; readerv1 = null_vec }
    else record r { readerv0 = tail; readerv1 = head }

-- The three copies of `write`, after `ensure`.
store : Ring → List ℕ → Result Ring
store r bs =
    let len = length bs in
    let count = sub32 r.capacity r.end in
    let straight = (do
      m ← copy_in r.buff r.end bs
      ok (record r { buff = m; end = add32 r.end len })) in
    let around = (do
      m ← copy_in r.buff r.end (take count bs)
      m' ← copy_in m 0 (drop count bs)
      ok (record r { buff = m'; end = sub32 len count })) in
    if leb r.front r.end then if ltb len count then straight else around else straight

-- The stored bytes, copied to the front of the new array.
relocate : Ring → List ℕ → Result (List ℕ)
relocate r tem =
    let len = sub32 r.capacity r.front in
    let wrapped = (do
      a ← copy_out r.buff r.front len
      t ← copy_in tem 0 a
      b ← copy_out r.buff 0 r.end
      copy_in t len b) in
    let straight = (do a ← copy_out r.buff r.front r.size; copy_in tem 0 a) in
    if r.size == 0 then ok tem else if leb r.end r.front then wrapped else straight

-- `junk` is what `new char[n]` finds in memory.
module _ (junk : ℕ → ℕ) where
  pub create : ℕ → Ring
  create capacity = record {
    capacity = capacity;
    front = 0;
    end = 0;
    size = 0;
    buff = alloc junk capacity;
    writerv0 = null_vec;
    writerv1 = null_vec;
    readerv0 = null_vec;
    readerv1 = null_vec;
  }

  pub resize : Ring → ℕ → Result Ring
  unfolding relocate
  resize r newcapacity = do
    m ← relocate r (alloc junk newcapacity)
    ok (record r { buff = m; capacity = newcapacity; front = 0; end = r.size })

  pub ensure : Ring → ℕ → Result Ring
  ensure r need =
      let larger = (do newcapacity ← grow rounds r.capacity need; resize r newcapacity) in
      if leb need r.capacity then ok r else larger

  pub tryshrink : Ring → Result Ring
  tryshrink r =
      if ltb 0 r.size
      then ok r
      else if ltb bound_size r.capacity
      then resize r shrink_size
      else ok r

  pub write : Ring → List ℕ → Result Ring
  unfolding store
  write r bs = do
    let len = length bs
    require (ltb 0 len)
    q ← ensure r (add32 r.size len)
    require (if q.end == q.front then q.size == 0 else true)
    q' ← store q bs
    let q'' = record q' { size = add32 q'.size len }
    if q''.size == 0 then tryshrink q'' else ok q''

  pub read : Ring → ℕ → Result (List ℕ × Ring)
  unfolding copy_pieces
  read r len = do
    require (leb len r.size && ltb 0 len)
    let count = sub32 r.capacity r.front
    let split = if ltb r.front r.end then false else leb count len
    bs ← copy_pieces r len split
    let front' = if split then sub32 len count else add32 r.front len
    let q = record r { front = front'; size = sub32 r.size len }
    q' ← (if q.size == 0 then tryshrink q else ok q)
    ok (bs, q')
