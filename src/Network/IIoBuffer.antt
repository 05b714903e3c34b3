-- ===== src/Network/IIoBuffer.antt =====
-- network/IIOBuffer.h: what a protocol may assume of the input buffer that it is handed.
use zlnet.Base.{ℕ, ◌<◌, ◌≤◌, ◌≡◌, List, length, take, drop, Result, ok, fault, assertion}

pub record IIoBuffer (S : Type 0) : Type 1 where
  pub IsValid : S → Type 0
  pub contents : S → List ℕ
  pub size : S → ℕ
  pub look : S → ℕ → Result (List ℕ)
  pub read : S → ℕ → Result (List ℕ × S)
  pub size_lem : (s : S) → IsValid s → size s ≡ length (contents s)
  pub look_lem :
      (s : S) (n : ℕ) → IsValid s → 0 < n → n ≤ size s → look s n ≡ ok (take n (contents s))
  pub read_lem :
      (s : S) (n : ℕ)
      → IsValid s
      → 0 < n
      → n ≤ size s
      → (q : S) × (read s n ≡ ok (take n (contents s), q))
        × IsValid q
        × (contents q ≡ drop n (contents s))
  -- Reading nothing is an assertion failure.
  pub read_nothing : (s : S) → read s 0 ≡ fault assertion
