-- ===== src/Network/Tcp.antt =====
-- network/TCP_Network.cpp: what the network's thread does with the bytes of an open connection. The
-- system calls are arguments: what the kernel delivers or takes. An `int32` is its 32 bits.
pub mod Closing
pub mod Handlers
pub mod Events
pub mod Reads
pub mod Writes
pub mod Flush
pub mod Told
pub mod Sessions
pub mod Lives
pub mod Calls
mod Tests
use zlnet.Base.{
  ℕ, ◌+◌, ◌-◌, ◌%◌, List, [], ◌∷◌, ◌++◌, length, take, drop, Option, none, some, Bool, true, false,
  not, ltb, leb, ◌==◌, ◌&&◌, if◌then◌else◌, Result, ok, fault, assertion, bounds, ◌>>=◌, ◌>>◌,
  require, add32, sub32, u32_mod,
}
use zlnet.Network.RingBuffer.{
  Ring, get_writeable_vec, get_readable_vec, write_confirm, read_confirm, write,
}
use zlnet.Network.RingBuffer.Vectors.{scatter, gather}

-- A comparison of two `int32`.
abbrev pub int_leb : ℕ → ℕ → Bool
int_leb a b = leb ((a + 0x80000000) % u32_mod) ((b + 0x80000000) % u32_mod)

abbrev pub int_positive : ℕ → Bool
int_positive n = ltb 0 n && ltb n 0x80000000

abbrev pub extra_len : ℕ
extra_len = 65536

-- The lengths of the regions that `readv` gets: the two of the input buffer, and the extra buffer only
-- where they hold less than it does.
unfoldable pub offered : Ring → List ℕ
offered q =
    let writeable = add32 q.writerv0.len q.writerv1.len in
    if int_leb extra_len q.writerv0.len
    then q.writerv0.len ∷ []
    else if int_leb extra_len writeable
    then q.writerv0.len ∷ q.writerv1.len ∷ []
    else q.writerv0.len ∷ q.writerv1.len ∷ extra_len ∷ []

-- What handleTcpConRead does with the bytes `bs` that `readv` delivered: they stand in the regions, and
-- what the regions do not hold in the extra buffer.
module _ (junk : ℕ → ℕ) where
  -- What follows `readv`: `room` bytes stand in the regions, and the rest in the extra buffer.
  unfoldable pub take_in : Ring → ℕ → ℕ → List ℕ → Result Ring
  take_in f room writeable bs =
      let past = take (sub32 (length bs) writeable) (drop room bs) in
      let whole = (do
        g ← (if writeable == 0 then ok f else write_confirm f writeable)
        write junk g past) in
      if not (int_leb (length bs) writeable) then whole else write_confirm f (length bs)

  unfoldable pub read_in : Ring → List ℕ → Result Ring
  read_in r bs = do
    let q = get_writeable_vec r
    let room = q.writerv0.len + q.writerv1.len
    f ← scatter q (take room bs)
    take_in f room (add32 q.writerv0.len q.writerv1.len) bs

-- What `writev` and `write` return: the number of bytes that they took, or -1.
pub data Taken : Type 0 where
  took : ℕ → Taken
  failed : Taken

-- IOV_MAX: the most regions that `writev` takes on Linux.
abbrev pub iov_max : ℕ
iov_max = 1024

-- What handleTcpConWrite has `writev` write, which gets the number of bytes as the number of regions: the
-- first region, both, or both and what the memory behind the array stands for, which is `behind`;
-- `none` where they are too many, and `writev` refuses.
unfoldable pub gathered : List ℕ → Ring → Result (Option (List ℕ))
gathered behind r = do
  require (not (r.size == 0))
  let q = get_readable_vec r
  let both = gather q.buff q.readerv0 ++ gather q.buff q.readerv1
  ok (
      if r.size == 1
      then some (gather q.buff q.readerv0)
      else if r.size == 2
      then some both
      else if leb r.size iov_max
      then some (both ++ behind)
      else none)

abbrev pub given_bytes : Option (List ℕ) → List ℕ
given_bytes none = []
given_bytes (some bs) = bs

-- What `writev` returns, where it would return `taken` if it does not refuse.
abbrev pub returned : Option (List ℕ) → Taken → Taken
returned none taken = failed
returned (some bs) taken = taken

-- The output buffer after handleTcpConWrite, and whether all of it was taken.
unfoldable pub write_out : Ring → Taken → Result (Bool × Ring)
write_out r failed = ok (false, get_readable_vec r)
write_out r (took count) =
    let q = get_readable_vec r in
    let confirmed = (do q' ← read_confirm q count; ok (count == q.size, q')) in
    if count == q.size
    then confirmed
    else if int_positive count && not (int_leb q.size count)
    then confirmed
    else ok (false, q)

-- The output buffer after tcpSend wrote `bs`, of which the socket took some, and whether a rest waits.
unfoldable pub send_out : (ℕ → ℕ) → Ring → List ℕ → Taken → Result (Bool × Ring)
send_out junk r bs failed = ok (false, r)
send_out junk r bs (took count) =
    let rest = (do r' ← write junk r (drop count bs); ok (true, r')) in
    if int_positive count && not (count == length bs) then rest else ok (false, r)
