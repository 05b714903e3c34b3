-- ===== src/Engine/InnerProtocol/Receive.antt =====
-- What one frame does to the protocol that receives it.
use zlnet.Base.{
  Bool-cases, inl, inr, Option, some, ℕ, ◌+◌, ◌^◌, ◌<◌, ◌≡◌, refl, sym, ap, ◌∙◌, arith, List, [],
  ◌∷◌, ◌++◌, map, length, ◌==◌, if◌then◌else◌, true, ok, u32_mod, length-append,
}
use mathlib.Core.List.{append_assoc, append-nil, map-append}
use zlnet.Network.ByteOrder.{Host, be_bytes}
use zlnet.Network.ByteOrder.Laws.{length-be_bytes}
use zlnet.Network.StackBuffer.{StackBuffer, read_pointer}
use zlnet.Network.StackBuffer.Laws.{IsValid, bytes}
use zlnet.Engine.Messages.{IoPacket, SerializeMessage}
use zlnet.Engine.InnerProtocol.{
  Protocol, dispatch_packet, handler_heart, receive, get_field, read_message, heart,
  header_type_call, header_type_callback, header_type_message,
}
use zlnet.Engine.InnerProtocol.Frames.{
  Content, Body, body_bytes, BodyFits, arrived, body_of, peek_at, field_at, message_at,
}

-- A call has a command and a callback id, an answer a callback id and an error.
pub data Frame : Type 0 where
  call_frame : ℕ → ℕ → Body → Frame
  answer_frame : ℕ → ℕ → Body → Frame
  plain_frame : ℕ → Body → Frame

abbrev pub kind_of : Frame → ℕ
kind_of (call_frame cmd callback body) = header_type_call
kind_of (answer_frame callback error body) = header_type_callback
kind_of (plain_frame cmd body) = header_type_message

abbrev pub size_of : Frame → ℕ
size_of (call_frame cmd callback body) = 13 + length (body_bytes body)
size_of (answer_frame callback error body) = 13 + length (body_bytes body)
size_of (plain_frame cmd body) = 9 + length (body_bytes body)

abbrev pub block_of : Frame → List ℕ
block_of f = (kind_of f ∷ []) ++ be_bytes 4 (size_of f)

abbrev fields_of : Frame → List ℕ
fields_of (call_frame cmd callback body) = be_bytes 4 cmd ++ be_bytes 4 callback
fields_of (answer_frame callback error body) = be_bytes 4 callback ++ be_bytes 4 error
fields_of (plain_frame cmd body) = be_bytes 4 cmd

abbrev message_of : Frame → Body
message_of (call_frame cmd callback body) = body
message_of (answer_frame callback error body) = body
message_of (plain_frame cmd body) = body

-- The bytes of a frame: the type, the size, the two fields or one, and the message.
abbrev pub wire : Frame → List ℕ
wire f = block_of f ++ (fields_of f ++ body_bytes (message_of f))

abbrev FieldsFit : Frame → Type 0
FieldsFit (call_frame cmd callback body) = (cmd < 2 ^ 32) × (callback < 2 ^ 32)
FieldsFit (answer_frame callback error body) = (callback < 2 ^ 32) × (error < 2 ^ 32)
FieldsFit (plain_frame cmd body) = (cmd < 2 ^ 32) × (0 < 2 ^ 32)

pub record FrameFits (f : Frame) : Type 0 where
  pub size_fits : size_of f < u32_mod
  pub fields_fit : FieldsFit f
  pub body_fits : BodyFits (message_of f)

pub length-block_of : (f : Frame) → length (block_of f) ≡ 5
length-block_of f = omega (arith, length-be_bytes 4 (size_of f))

pub length-wire : (f : Frame) → length (wire f) ≡ size_of f
length-wire (call_frame cmd callback body) = omega (
  arith,
  length-append (block_of (call_frame cmd callback body))
      ((be_bytes 4 cmd ++ be_bytes 4 callback) ++ body_bytes body),
  length-append (be_bytes 4 cmd ++ be_bytes 4 callback) (body_bytes body),
  length-append (be_bytes 4 cmd) (be_bytes 4 callback),
  length-block_of (call_frame cmd callback body),
  length-be_bytes 4 cmd,
  length-be_bytes 4 callback,
)
length-wire (answer_frame callback error body) = omega (
  arith,
  length-append (block_of (answer_frame callback error body))
      ((be_bytes 4 callback ++ be_bytes 4 error) ++ body_bytes body),
  length-append (be_bytes 4 callback ++ be_bytes 4 error) (body_bytes body),
  length-append (be_bytes 4 callback) (be_bytes 4 error),
  length-block_of (answer_frame callback error body),
  length-be_bytes 4 callback,
  length-be_bytes 4 error,
)
length-wire (plain_frame cmd body) = omega (
  arith,
  length-append (block_of (plain_frame cmd body)) (be_bytes 4 cmd ++ body_bytes body),
  length-append (be_bytes 4 cmd) (body_bytes body),
  length-block_of (plain_frame cmd body),
  length-be_bytes 4 cmd,
)

-- A packet with its message as id and bytes.
abbrev pub seen : IoPacket SerializeMessage → IoPacket Content
seen packet = record {
  uid = packet.uid;
  cmd = packet.cmd;
  callback_id = packet.callback_id;
  error = packet.error;
  message = body_of packet.message;
}

-- The packet that a frame stands for, where it is no heart beat.
abbrev pub delivered : ℕ → Frame → List (IoPacket Content)
delivered key (call_frame cmd callback body) =
    record { uid = key; cmd = cmd; callback_id = callback; error = 0; message = arrived body } ∷ []
delivered key (answer_frame callback error body) =
    record { uid = key; cmd = 0; callback_id = callback; error = error; message = arrived body }
    ∷ []
delivered key (plain_frame cmd body) =
    if cmd == heart
    then []
    else record { uid = key; cmd = cmd; callback_id = 0; error = 0; message = arrived body } ∷ []

abbrev pub beat : Frame → ℕ → ℕ
beat (call_frame cmd callback body) n = n
beat (answer_frame callback error body) n = n
beat (plain_frame cmd body) n = if cmd == heart then 0 else n

-- What `fs` make of the protocol `p`.
pub record After (p : Protocol) (packets : List (IoPacket Content)) (count : ℕ) (q : Protocol)
    : Type 0 where
  pub same_key : q.key ≡ p.key
  pub pushed : map seen q.queue ≡ map seen p.queue ++ packets
  pub count_now : q.heartbeat ≡ count

dispatch_lem :
    (p : Protocol) (packet : IoPacket SerializeMessage)
    → After p (seen packet ∷ []) p.heartbeat (dispatch_packet p packet)
unfolding dispatch_packet
dispatch_lem p packet = record {
  same_key = refl;
  pushed = map-append seen p.queue (packet ∷ []);
  count_now = refl;
}

heart_lem : (p : Protocol) → After p [] 0 (handler_heart p)
unfolding handler_heart
heart_lem p = record {
  same_key = refl;
  pushed = sym (append-nil (map seen p.queue));
  count_now = refl;
}

module _ (junk : ℕ → ℕ) (h : Host) (p : Protocol) {inner : StackBuffer} (v : IsValid inner) where
  abbrev Received : Frame → Type 0
  Received f =
      (q : Protocol) × (receive junk h p (kind_of f) inner ≡ ok (true, q))
      × After p (delivered p.key f) (beat f p.heartbeat) q

  -- Where the parts of a frame with two fields stand.
  two_fields :
      (k n x y : ℕ) (body : Body)
      → n ≡ 13 + length (body_bytes body)
      → n < u32_mod
      → x < 2 ^ 32
      → y < 2 ^ 32
      → BodyFits body
      → bytes inner
        ≡ ((k ∷ []) ++ be_bytes 4 n) ++ ((be_bytes 4 x ++ be_bytes 4 y) ++ body_bytes body)
      → (read_pointer inner 0 13 ≡ some 0)
        × (get_field junk h inner 1 ≡ ok n)
        × (get_field junk h inner 5 ≡ ok x)
        × (get_field junk h inner 9 ≡ ok y)
        × (m : Option SerializeMessage) × (read_message junk h inner 13 n ≡ ok m)
        × (body_of m ≡ arrived body)
  two_fields k n x y body e w hx hy b i =
      let block = (k ∷ []) ++ be_bytes 4 n in
      let ln = length-be_bytes 4 n in
      let lx = length-be_bytes 4 x in
      let ly = length-be_bytes 4 y in
      let l2 = length-append (be_bytes 4 x) (be_bytes 4 y) in
      let l1 = length-append block (be_bytes 4 x ++ be_bytes 4 y) in
      let lh = length-append block (be_bytes 4 x) in
      let i0 = i ∙ sym (append_assoc block (be_bytes 4 x ++ be_bytes 4 y) (body_bytes body)) in
      let i5 =
        i
        ∙ ap (λ r. block ++ r) (append_assoc (be_bytes 4 x) (be_bytes 4 y) (body_bytes body))
        ∙ sym (append_assoc block (be_bytes 4 x) (be_bytes 4 y ++ body_bytes body)) in
      let i9 = i5 ∙ sym (append_assoc (block ++ be_bytes 4 x) (be_bytes 4 y) (body_bytes body)) in
      let header = block ++ (be_bytes 4 x ++ be_bytes 4 y) in
      let (m, r, c) = message_at junk h v {header = 13} header body (omega arith) e w b i0 in
      (
        (peek_at junk h v {off = 0} {n = 13} [] header (body_bytes body) refl (omega arith) i0).0,
        field_at junk h v {off = 1} (k ∷ []) n _ refl w i,
        field_at junk h v {off = 5} block x _ (omega arith) hx i5,
        field_at junk h v {off = 9} (block ++ be_bytes 4 x) y _ (omega arith) hy i9,
        m,
        r,
        c,
      )

  -- Receiving a frame pushes its packet, or notes the heart beat.
  pub receive_lem : (f : Frame) → FrameFits f → bytes inner ≡ wire f → Received f
  unfolding receive
  receive_lem (call_frame cmd callback body) s i =
      let (e0, e1, e5, e9, m, r, c) =
        two_fields header_type_call _ cmd callback body refl s.size_fits s.fields_fit.0
          s.fields_fit.1 s.body_fits i in
      let packet : IoPacket SerializeMessage = record {
        uid = p.key;
        cmd = cmd;
        callback_id = callback;
        error = 0;
        message = m;
      } in
      (dispatch_packet p packet, rw (e0, e1, e5, e9, r) refl, rw c at (dispatch_lem p packet))
  receive_lem (answer_frame callback error body) s i =
      let (e0, e1, e5, e9, m, r, c) =
        two_fields header_type_callback _ callback error body refl s.size_fits s.fields_fit.0
          s.fields_fit.1 s.body_fits i in
      let packet : IoPacket SerializeMessage = record {
        uid = p.key;
        cmd = 0;
        callback_id = callback;
        error = error;
        message = m;
      } in
      (dispatch_packet p packet, rw (e0, e1, e5, e9, r) refl, rw c at (dispatch_lem p packet))
  receive_lem (plain_frame cmd body) s i =
      let block = (header_type_message ∷ []) ++ be_bytes 4 (9 + length (body_bytes body)) in
      let header = block ++ be_bytes 4 cmd in
      let i5 = i ∙ sym (append_assoc block (be_bytes 4 cmd) (body_bytes body)) in
      let lx = length-be_bytes 4 cmd in
      let l5 = length-block_of (plain_frame cmd body) in
      let lh = length-append block (be_bytes 4 cmd) in
      let e0 =
        (peek_at junk h v {off = 0} {n = 9} [] header (body_bytes body) refl (omega arith) i5).0 in
      let e1 = field_at junk h v {off = 1} (header_type_message ∷ []) _ _ refl s.size_fits i in
      let e5 = field_at junk h v {off = 5} block cmd _ (omega arith) s.fields_fit.0 i5 in
      let (m, r, c) =
        message_at junk h v {header = 9} header body (omega arith) refl s.size_fits s.body_fits
          i5 in
      let packet : IoPacket SerializeMessage = record {
        uid = p.key;
        cmd = cmd;
        callback_id = 0;
        error = 0;
        message = m;
      } in
      elim (Bool-cases (cmd == heart)) [
        | inl is_heart ↦
            (handler_heart p, rw (e0, e1, e5, r, is_heart) refl, rw is_heart (heart_lem p))
        | inr other ↦ (
          dispatch_packet p packet,
          rw (e0, e1, e5, r, other) refl,
          rw (other, ← c) (dispatch_lem p packet),
        )
      ]
