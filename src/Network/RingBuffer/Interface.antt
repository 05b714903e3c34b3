-- ===== src/Network/RingBuffer/Interface.antt =====
-- A CRingBuffer is an IIOBuffer.
use zlnet.Base.{ℕ, ◌<◌, ◌≤◌, ◌≡◌, sym, arith, take, ok, inl, refl}
use zlnet.Network.IIoBuffer.{IIoBuffer}
use zlnet.Network.RingBuffer.{Ring, look, read}
use zlnet.Network.RingBuffer.Valid.{IsValid, contents, length-contents}
use zlnet.Network.RingBuffer.Read.{look-contents, contents-read, read_refused}

pub look_stored :
    (r : Ring) (n : ℕ) → IsValid r → 0 < n → n ≤ r.size → look r n ≡ ok (take n (contents r))
look_stored r n v h s = ground (arith, look-contents n v)

abbrev pub ring_IIoBuffer : (ℕ → ℕ) → IIoBuffer Ring
ring_IIoBuffer junk = record {
  IsValid = IsValid;
  contents = contents;
  size = λ r. r.size;
  look = look;
  read = read junk;
  size_lem = λ r v. sym (length-contents v);
  look_lem = look_stored;
  read_lem = λ r n v h s. let (q, e, d) = contents-read junk n v h s in (q, e, d.valid, d.bytes);
  read_nothing = λ r. (read_refused junk r 0 (inl refl)).0;
}
