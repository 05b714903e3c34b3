-- ===== src/Engine/InnerProtocol/Frames.antt =====
-- The bytes of a frame, and what `receive` makes of them.
use zlnet.Base.{
  ℕ, ◌+◌, ◌^◌, ◌<◌, ◌≡◌, refl, sym, ap, ◌∙◌, arith, List, [], ◌∷◌, ◌++◌, length, take, drop, Option,
  none, some, ok, slice, slice_lem, u32_mod, length-append, take-append_length, drop-append_length,
  sub32,
}
use mathlib.Core.List.{append_assoc, append-nil}
use zlnet.Network.ByteOrder.{Host, be_bytes}
use zlnet.Network.ByteOrder.Laws.{length-be_bytes, network_to_host_lem}
use zlnet.Network.Buffer
use zlnet.Network.Buffer.Laws
use zlnet.Network.StackBuffer.{StackBuffer, read_pointer, peek}
use zlnet.Network.StackBuffer.Laws.{IsValid, bytes, length-bytes, read_lem}
use zlnet.Engine.Messages.{SerializeMessage}
use zlnet.Engine.Messages.Laws.{of_bytes_lem}
use zlnet.Engine.InnerProtocol.{get_field, read_message}

-- A message as its id and the bytes that it wrote.
abbrev pub Content : Type 0
Content = ℕ × List ℕ

abbrev pub Body : Type 0
Body = Option Content

abbrev pub body_bytes : Body → List ℕ
body_bytes none = []
body_bytes (some (id, bs)) = be_bytes 4 id ++ bs

abbrev pub BodyFits : Body → Type 0
BodyFits none = Unit {0}
BodyFits (some (id, bs)) = id < 2 ^ 32

-- A message that wrote nothing is not told from no message.
abbrev pub arrived : Body → Body
arrived none = none
arrived (some (id, [])) = none
arrived (some (id, b ∷ bs)) = some (id, b ∷ bs)

abbrev pub body_of : Option SerializeMessage → Body
body_of none = none
body_of (some m) = some (m.id, Buffer.Laws.bytes m.buffer)

module _ {A : Type 0} where
  pub take_at : {k : ℕ} (xs ys : List A) → length xs ≡ k → take k (xs ++ ys) ≡ xs
  take_at xs ys e = rw (← e) (take-append_length xs ys)

  pub drop_at : {k : ℕ} (xs ys : List A) → length xs ≡ k → drop k (xs ++ ys) ≡ ys
  drop_at xs ys e = rw (← e) (drop-append_length xs ys)

module _ (junk : ℕ → ℕ) (h : Host) {inner : StackBuffer} (v : IsValid inner) where
  pub peek_at :
      {off n : ℕ} (xs ys zs : List ℕ)
      → off ≡ length xs
      → n ≡ length ys
      → bytes inner ≡ (xs ++ ys) ++ zs
      → (read_pointer inner off n ≡ some off) × (peek inner off n ≡ ok ys)
  peek_at {off} {n} xs ys zs o k e =
      let l = length-bytes inner v in
      let total : length (bytes inner) ≡ length xs + length ys + length zs =
        rw e (omega (arith, length-append (xs ++ ys) zs, length-append xs ys)) in
      let (_, p, q) = read_lem inner off n v (omega arith) in
      let got : slice (bytes inner) off n ≡ ys =
        slice_lem (bytes inner) off n
        ∙ ap (λ bs. take n (drop off bs)) (e ∙ append_assoc xs ys zs)
        ∙ ap (take n) (drop_at xs (ys ++ zs) (sym o))
        ∙ take_at ys zs (sym k) in
      (p, q ∙ ap ok got)

  pub field_at :
      {off : ℕ} (xs : List ℕ) (x : ℕ) (zs : List ℕ)
      → off ≡ length xs
      → x < 2 ^ 32
      → bytes inner ≡ (xs ++ be_bytes 4 x) ++ zs
      → get_field junk h inner off ≡ ok x
  unfolding get_field
  field_at {off} xs x zs o f e =
      let (_, q) = peek_at xs (be_bytes 4 x) zs o (sym (length-be_bytes 4 x)) e in
      rw q (ap ok (network_to_host_lem h 0 x 0 (omega arith) f (omega arith)).1)

  -- The message behind the header `xs`.
  pub message_at :
      {header size : ℕ} (xs : List ℕ) (body : Body)
      → header ≡ length xs
      → size ≡ header + length (body_bytes body)
      → size < u32_mod
      → BodyFits body
      → bytes inner ≡ xs ++ body_bytes body
      → (m : Option SerializeMessage) × (read_message junk h inner header size ≡ ok m)
        × (body_of m ≡ arrived body)
  unfolding read_message
  message_at {header} {size} xs none o k w f e = (none, ground arith, refl)
  message_at {header} {size} xs (some (id, [])) o k w f e =
      let l = length-append (be_bytes 4 id) [] in
      let l4 = length-be_bytes 4 id in
      let (p, _) =
        peek_at xs (be_bytes 4 id) [] o (sym l4) (e ∙ sym (append_assoc xs (be_bytes 4 id) [])) in
      let g = field_at xs id [] o f (e ∙ sym (append_assoc xs (be_bytes 4 id) [])) in
      (none, rw (p, g) (ground (arith, l, l4)), refl)
  message_at {header} {size} xs (some (id, b ∷ bs)) o k w f e =
      let whole = b ∷ bs in
      let l4 = length-be_bytes 4 id in
      let l = length-append (be_bytes 4 id) whole in
      let lx = length-append xs (be_bytes 4 id) in
      let e' = e ∙ sym (append_assoc xs (be_bytes 4 id) whole) in
      let (p, _) = peek_at xs (be_bytes 4 id) whole o (sym l4) e' in
      let g = field_at xs id whole o f e' in
      let (p', q') =
        peek_at {off = header + 4} (xs ++ be_bytes 4 id) whole [] (omega (arith, lx)) refl
          (e' ∙ sym (append-nil _)) in
      let (m, r, i, _, c) = of_bytes_lem junk id whole (omega (arith, l)) in
      let rest : sub32 size (header + 4) ≡ length whole = omega (arith, l, l4) in
      (some m, rw (p, g, rest, p', q', r) (ground (arith, l)), rw (i, c) refl)
