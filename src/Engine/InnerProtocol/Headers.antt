-- ===== src/Engine/InnerProtocol/Headers.antt =====
-- The stores by which `onSerialize` writes a header and the message behind it.
use zlnet.Base.{
  ℕ, ◌+◌, ◌-◌, ◌≤◌, ◌<◌, ◌≡◌, refl, sym, ap, ◌∙◌, arith, List, [], ◌∷◌, ◌++◌, length, take, drop,
  some, Result, ok, ◌>>=◌, slice_lem, u32_mod, add32, length-append, length-take, length-drop,
  take-append-drop, take_all,
}
use mathlib.Core.List.{append_assoc, append-nil}
use zlnet.Network.ByteOrder.{Host, be_bytes}
use zlnet.Network.ByteOrder.Laws.{length-be_bytes, host_to_network_lem}
use zlnet.Network.StackBuffer.{StackBuffer, reserve, poke, read}
use zlnet.Network.StackBuffer.Laws.{IsValid, bytes, length-bytes, read_lem}
use zlnet.Network.StackBuffer.Stores.{reserve_lem, poke_at}
use zlnet.Engine.InnerProtocol.{
  put_field, write_call, write_plain, write_callback, header_type_call, header_type_callback,
  header_type_message,
}

split_at :
    (n : ℕ) (g : List ℕ)
    → n ≤ length g
    → (xs : List ℕ) × (ys : List ℕ) × (length xs ≡ n) × (length ys ≡ length g - n) × (g ≡ xs ++ ys)
split_at n g e = (
  take n g,
  drop n g,
  omega (arith, length-take n g),
  length-drop n g,
  sym (take-append-drop n g),
)

module _ (junk : ℕ → ℕ) (h : Host) where
  field_put :
      (s : StackBuffer) {off : ℕ} (x : ℕ) (xs ys zs : List ℕ)
      → IsValid s
      → off ≡ length xs
      → length ys ≡ 4
      → bytes s ≡ xs ++ (ys ++ zs)
      → (q : StackBuffer) × (put_field junk h s off x ≡ ok q)
        × IsValid q
        × (bytes q ≡ xs ++ (be_bytes 4 x ++ zs))
  unfolding put_field
  field_put s x xs ys zs v o k e =
      rw (host_to_network_lem h x).1
        (poke_at s xs ys (be_bytes 4 x) zs v o (length-be_bytes 4 x ∙ sym k) e)

  module _ (buffer inner : StackBuffer) (body : List ℕ) (v : IsValid buffer)
      (empty : bytes buffer ≡ []) (iv : IsValid inner) (ib : bytes inner ≡ body) where
    reserve_empty :
        (n : ℕ)
        → n < u32_mod
        → (b : StackBuffer) × (reserve junk buffer 0 n ≡ ok (some 0, b))
          × IsValid b
          × (length (bytes b) ≡ n)
    reserve_empty n w =
        let (b, r, bv, l) =
          reserve_lem junk buffer 0 n v (omega (arith, length-bytes buffer v, ap length empty))
            (omega arith) in
        (b, r, bv, omega arith)

    read_body : read inner 0 (length body) ≡ ok body
    read_body =
        let l = length-bytes inner iv in
        (read_lem inner 0 (length body) iv (omega (arith, ap length ib))).0
        ∙ ap ok (
            slice_lem (bytes inner) 0 (length body)
            ∙ ap (take (length body)) ib
            ∙ take_all (length body) body (omega arith))

    -- The call returns a buffer that holds `out`.
    abbrev pub Wrote : Result StackBuffer → List ℕ → Type 0
    Wrote m out = (q : StackBuffer) × (m ≡ ok q) × IsValid q × (bytes q ≡ out)

    -- The last stores: the size, and the message behind the header.
    finish :
        (b : StackBuffer) (k off n : ℕ) (g1 fields t : List ℕ)
        → IsValid b
        → length g1 ≡ 4
        → length t ≡ length body
        → off ≡ 5 + length fields
        → bytes b ≡ (k ∷ g1) ++ (fields ++ t)
        → Wrote
            (do b4 ← put_field junk h b 1 n; bs ← read inner 0 (length body); poke b4 off bs)
            (((k ∷ []) ++ be_bytes 4 n) ++ (fields ++ body))
    finish b k off n g1 fields t bv l1 lt o e =
        let (b4, r4, v4, c4) = field_put b {off = 1} n (k ∷ []) g1 (fields ++ t) bv refl l1 e in
        let block = (k ∷ []) ++ be_bytes 4 n in
        let c4' : bytes b4 ≡ (block ++ fields) ++ (t ++ []) =
          c4
          ∙ sym (append_assoc block fields t)
          ∙ ap (λ u. (block ++ fields) ++ u) (sym (append-nil t)) in
        let at_off : off ≡ length (block ++ fields) =
          omega (arith, length-append block fields, length-be_bytes 4 n) in
        let (q, r5, qv, c5) = poke_at b4 (block ++ fields) t body [] v4 at_off (sym lt) c4' in
        (
          q,
          rw (r4, read_body) r5,
          qv,
          c5 ∙ ap (λ u. (block ++ fields) ++ u) (append-nil body) ∙ append_assoc block fields body,
        )

    -- The stores of a header with two fields, in the order of the source.
    second_field :
        (b : StackBuffer) (k x y n : ℕ) (g1 g9 t : List ℕ)
        → IsValid b
        → length g1 ≡ 4
        → length g9 ≡ 4
        → length t ≡ length body
        → bytes b ≡ (k ∷ g1) ++ (be_bytes 4 x ++ (g9 ++ t))
        → Wrote
            (do
              b3 ← put_field junk h b 9 y
              b4 ← put_field junk h b3 1 n
              bs ← read inner 0 (length body)
              poke b4 13 bs)
            (((k ∷ []) ++ be_bytes 4 n) ++ ((be_bytes 4 x ++ be_bytes 4 y) ++ body))
    second_field b k x y n g1 g9 t bv l1 l9 lt e =
        let lx = length-be_bytes 4 x in
        let ly = length-be_bytes 4 y in
        let e' = e ∙ sym (append_assoc (k ∷ g1) (be_bytes 4 x) (g9 ++ t)) in
        let at_off : 9 ≡ length ((k ∷ g1) ++ be_bytes 4 x) =
          omega (arith, length-append (k ∷ g1) (be_bytes 4 x)) in
        let (b3, r3, v3, c3) = field_put b y ((k ∷ g1) ++ be_bytes 4 x) g9 t bv at_off l9 e' in
        let c3' : bytes b3 ≡ (k ∷ g1) ++ ((be_bytes 4 x ++ be_bytes 4 y) ++ t) =
          c3
          ∙ append_assoc (k ∷ g1) (be_bytes 4 x) (be_bytes 4 y ++ t)
          ∙ ap (λ u. (k ∷ g1) ++ u) (sym (append_assoc (be_bytes 4 x) (be_bytes 4 y) t)) in
        rw r3 (
          finish b3 k 13 n g1 (be_bytes 4 x ++ be_bytes 4 y) t v3 l1 lt
            (omega (arith, length-append (be_bytes 4 x) (be_bytes 4 y))) c3')

    -- The type and the first field, which every header has.
    first_field :
        (b : StackBuffer) (k x : ℕ) (cont : StackBuffer → Result StackBuffer) (out : List ℕ)
        → IsValid b
        → 9 ≤ length (bytes b)
        → ((b2 : StackBuffer) (g1 t : List ℕ)
            → IsValid b2
            → length g1 ≡ 4
            → length t ≡ length (bytes b) - 9
            → bytes b2 ≡ (k ∷ g1) ++ (be_bytes 4 x ++ t)
            → Wrote (cont b2) out)
        → Wrote (do b1 ← poke b 0 (k ∷ []); b2 ← put_field junk h b1 5 x; cont b2) out
    first_field b k x cont out bv long next =
        let (g0, t0, l0, s0, e0) = split_at 1 (bytes b) (omega arith) in
        let (g1, t1, l1, s1, e1) = split_at 4 t0 (omega arith) in
        let (g5, t5, l5, s5, e5) = split_at 4 t1 (omega arith) in
        let start : bytes b ≡ [] ++ (g0 ++ (g1 ++ (g5 ++ t5))) =
          e0 ∙ ap (λ u. g0 ++ u) (e1 ∙ ap (λ u. g1 ++ u) e5) in
        let (b1, r1, v1, c1) =
          poke_at b {off = 0} [] g0 (k ∷ []) (g1 ++ (g5 ++ t5)) bv refl (sym l0) start in
        let (b2, r2, v2, c2) = field_put b1 {off = 5} x (k ∷ g1) g5 t5 v1 (omega arith) l5 c1 in
        rw (r1, r2) (next b2 g1 t5 v2 l1 (omega arith) c2)

    two_fields :
        (b : StackBuffer) (k x y n : ℕ)
        → IsValid b
        → length (bytes b) ≡ 13 + length body
        → Wrote
            (do
              b1 ← poke b 0 (k ∷ [])
              b2 ← put_field junk h b1 5 x
              b3 ← put_field junk h b2 9 y
              b4 ← put_field junk h b3 1 n
              bs ← read inner 0 (length body)
              poke b4 13 bs)
            (((k ∷ []) ++ be_bytes 4 n) ++ ((be_bytes 4 x ++ be_bytes 4 y) ++ body))
    two_fields b k x y n bv l = first_field b k x _ _ bv (omega arith) λ b2 g1 t v2 l1 lt e.
        let (g9, t9, l9, s9, e9) = split_at 4 t (omega arith) in
        second_field b2 k x y n g1 g9 t9 v2 l1 l9 (omega arith)
          (e ∙ ap (λ u. (k ∷ g1) ++ (be_bytes 4 x ++ u)) e9)

    pub write_call_lem :
        (cmd callback : ℕ)
        → 13 + length body < u32_mod
        → Wrote (write_call junk h buffer inner (length body) cmd callback) (
            ((header_type_call ∷ []) ++ be_bytes 4 (13 + length body))
            ++ ((be_bytes 4 cmd ++ be_bytes 4 callback) ++ body))
    unfolding write_call
    write_call_lem cmd callback w =
        let total : add32 (length body) 13 ≡ 13 + length body = omega arith in
        let (b, r, bv, l) = reserve_empty (13 + length body) w in
        rw (total, r) (two_fields b header_type_call cmd callback (13 + length body) bv l)

    pub write_callback_lem :
        (callback error : ℕ)
        → 13 + length body < u32_mod
        → Wrote (write_callback junk h buffer inner (length body) callback error) (
            ((header_type_callback ∷ []) ++ be_bytes 4 (13 + length body))
            ++ ((be_bytes 4 callback ++ be_bytes 4 error) ++ body))
    unfolding write_callback
    write_callback_lem callback error w =
        let total : add32 (length body) 13 ≡ 13 + length body = omega arith in
        let (b, r, bv, l) = reserve_empty (13 + length body) w in
        rw (total, r) (two_fields b header_type_callback callback error (13 + length body) bv l)

    pub write_plain_lem :
        (cmd : ℕ)
        → 9 + length body < u32_mod
        → Wrote (write_plain junk h buffer inner (length body) cmd) (
            ((header_type_message ∷ []) ++ be_bytes 4 (9 + length body))
            ++ (be_bytes 4 cmd ++ body))
    unfolding write_plain
    write_plain_lem cmd w =
        let total : add32 (length body) 9 ≡ 9 + length body = omega arith in
        let n = 9 + length body in
        let (b, r, bv, l) = reserve_empty n w in
        rw (total, r)
          (first_field b header_type_message cmd _ _ bv (omega arith) λ b2 g1 t v2 l1 lt e.
            finish b2 header_type_message 9 n g1 (be_bytes 4 cmd) t v2 l1 (omega arith)
              (omega (arith, length-be_bytes 4 cmd)) e)
