-- ===== src/Network/IBuffer.antt =====
-- network/IBuffer.h: what BufferWriter and BufferReader may assume of a byte buffer, whichever class
-- implements it. A `char*` into a buffer is an offset; `poke` and `peek` are a store and a load of
-- some bytes through such a pointer.
use zlnet.Base.{
  ℕ, ◌+◌, ◌≤◌, ◌<◌, ◌≡◌, List, ◌++◌, length, Option, none, some, Result, ok, slice, u32_mod,
}

pub record IBuffer (S : Type 0) : Type 1 where
  pub IsValid : S → Type 0
  -- The bytes that are in use.
  pub bytes : S → List ℕ
  pub size : S → ℕ
  pub write : S → ℕ → List ℕ → Result S
  pub reserve : S → ℕ → ℕ → Result (Option ℕ × S)
  pub read : S → ℕ → ℕ → Result (List ℕ)
  pub read_pointer : S → ℕ → ℕ → Option ℕ
  pub poke : S → ℕ → List ℕ → Result S
  pub peek : S → ℕ → ℕ → Result (List ℕ)
  pub length-bytes : (s : S) → IsValid s → length (bytes s) ≡ size s
  pub size_word : (s : S) → IsValid s → size s < u32_mod
  -- A write that begins at the end of the bytes in use appends.
  pub write_end :
      (s : S) (bs : List ℕ)
      → IsValid s
      → size s + length bs < u32_mod
      → (q : S) × (write s (size s) bs ≡ ok q) × IsValid q × (bytes q ≡ bytes s ++ bs)
  -- So does a store through the pointer that a reservation at the end returns.
  pub reserve_end :
      (s : S) (bs : List ℕ)
      → IsValid s
      → size s + length bs < u32_mod
      → (q q' : S) × (reserve s (size s) (length bs) ≡ ok (some (size s), q))
        × (poke q (size s) bs ≡ ok q')
        × IsValid q'
        × (bytes q' ≡ bytes s ++ bs)
  pub read_inside :
      (s : S) (pos n : ℕ)
      → IsValid s
      → pos + n ≤ size s
      → (read s pos n ≡ ok (slice (bytes s) pos n))
        × (read_pointer s pos n ≡ some pos)
        × (peek s pos n ≡ ok (slice (bytes s) pos n))
  pub read_outside :
      (s : S) (pos n : ℕ)
      → IsValid s
      → size s < pos + n
      → pos + n < u32_mod
      → read_pointer s pos n ≡ none
