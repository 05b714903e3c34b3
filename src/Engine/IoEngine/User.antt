-- ===== src/Engine/IoEngine/User.antt =====
-- engine/IOEngine.cpp: the state of a derived class changes only where its functions are called.
use zlnet.Base.{
  ℕ, ◌≡◌, refl, Option, none, some, not, ◌==◌, if◌then◌else◌, List, Result, ok, assertion, Ensures,
  returns, stops, if-Ensures, >>=-Ensures, require-Ensures, ◌>>=◌, Bool, true, false, Bool-cases,
  inl, inr, ◌∙◌,
}
use zlnet.Base.Core.{Core}
use zlnet.Network.IoEvents.{ObjectType, wakeup, listener, connector, session}
use zlnet.Engine.Messages.{IoPacket}
use zlnet.Engine.IoEngine.{IoEngine, Leaves, Packet, Handler}
use zlnet.Engine.IoEngine.Callbacks.{send, send_call, send_answer, ready}
use zlnet.Engine.IoEngine.Protocols.{
  network_listen, network_connect, keep_protocol, listen, connect, confirm_listen, confirmed,
  is_notify_of, close, leave_by_kind, network_close, remove_protocol,
}

module _ (core : Core) {U M : Type 0} where
  send_call-user :
      (now : ℕ) (e : IoEngine U M) (o : Option ℕ) (packet : IoPacket M)
      → Ensures (λ e'. e'.user ≡ e.user) (send_call core now e o none packet)
  unfolding send_call
  send_call-user now e (some o) packet = returns refl
  send_call-user now e none packet = require-Ensures _ _ (returns refl)

  send_answer-user :
      (e : IoEngine U M) (o : Option ℕ) (packet : IoPacket M)
      → Ensures (λ e'. e'.user ≡ e.user) (send_answer e o none packet)
  unfolding send_answer
  send_answer-user e (some o) packet = returns refl
  send_answer-user e none packet = returns refl

  pub send-user :
      (now : ℕ) (e : IoEngine U M) (packet : IoPacket M)
      → Ensures (λ e'. e'.user ≡ e.user) (send core now e none packet)
  unfolding send
  send-user now e packet =
      if-Ensures (not (packet.cmd == 0)) _ _ (send_call-user now e (ready e packet.uid) packet) (
        if-Ensures (not (packet.callback_id == 0)) _ _
          (send_answer-user e (ready e packet.uid) packet) (stops assertion))

  keep_protocol-user : (e : IoEngine U M) (uid p : ℕ) → (keep_protocol core e uid p).1.user ≡ e.user
  unfolding keep_protocol
  keep_protocol-user e uid p = elim (Bool-cases (core.insert e.protocols uid p).1) [
    | inl t ↦ rw (keep_protocol, t) refl
    | inr f ↦ rw (keep_protocol, f) refl
  ]

  abbrev SameUser : {A : Type 0} → IoEngine U M → A × IoEngine U M → Type 0
  SameUser e r = r.1.user ≡ e.user

  -- What `listen` and `connect` do with the network's answer.
  after_network :
      (e : IoEngine U M) (p : ℕ) (m : Result (ℕ × IoEngine U M))
      → Ensures (SameUser e) m
      → Ensures
          (SameUser e)
          (m >>= λ r. if r.0 == 0 then ok (0, r.1) else ok (keep_protocol core r.1 r.0 p))
  after_network e p m h =
      >>=-Ensures _ h
        (λ r j. if-Ensures (r.0 == 0) _ _ (returns j) (returns (keep_protocol-user r.1 r.0 p ∙ j)))

  pub listen-user :
      (key : ℕ) (e : IoEngine U M) (port p : ℕ) → Ensures (SameUser e) (listen core key e port p)
  unfolding listen network_listen
  listen-user key e port p = if-Ensures _ _ _ (returns refl) (
      after_network e p _
        (require-Ensures _ _ (if-Ensures (key == 0) _ _ (returns refl) (returns refl))))

  pub connect-user :
      (key : ℕ) (e : IoEngine U M) (ip : List ℕ) (port p : ℕ)
      → Ensures (SameUser e) (connect core key e ip port p)
  unfolding connect network_connect
  connect-user key e ip port p = if-Ensures _ _ _ (returns refl) (
      after_network e p _
        (require-Ensures _ _ (if-Ensures (key == 0) _ _ (returns refl) (returns refl))))

  -- A property of the derived class's state that its functions keep.
  module _ (P : U → Type 0) where
    abbrev pub KeepsUser : Handler U M → Type 0
    KeepsUser f = (e : IoEngine U M) → P e.user → Ensures (λ e'. P e'.user) (f e)

    confirmed-user : (e : IoEngine U M) (uid p : ℕ) → P e.user → P (confirmed core e uid p).1.user
    unfolding confirmed
    confirmed-user e uid p i = elim (Bool-cases (e.objects p).available) [
      | inl t ↦ rw (confirmed, t) i
      | inr f ↦ rw (confirmed, f) i
    ]

    pub confirm_listen-user :
        (poll : (Packet M → Bool) → IoEngine U M → Result (IoEngine U M))
        → ((condition : Packet M → Bool) → KeepsUser (poll condition))
        → (e : IoEngine U M) (uid : ℕ) → P e.user
        → Ensures (λ r. P r.1.user) (confirm_listen core poll e uid)
    unfolding confirm_listen
    confirm_listen-user poll keeps e uid i = go (e.protocols uid)
      where
        go :
            (o : Option ℕ)
            → Ensures {A = Bool × IoEngine U M}
                (λ r. P r.1.user)
                (elim o [
                  | none ↦ ok (false, e)
                  | some p ↦
                      if (e.objects p).available
                      then ok (true, e)
                      else poll (is_notify_of p) e >>= λ e'. ok (confirmed core e' uid p)
                ])
        go none = returns i
        go (some p) = if-Ensures _ _ _ (returns i) (
            >>=-Ensures _ (keeps (is_notify_of p) e i)
              (λ e' j. returns (confirmed-user e' uid p j)))

    pub close-user :
        (leaves : Leaves U M)
        → ((uid : ℕ) → KeepsUser (leaves.on_unlisten uid))
        → ((uid : ℕ) → KeepsUser (leaves.on_close uid))
        → ((uid : ℕ) → KeepsUser (leaves.on_disconnect uid))
        → (uid : ℕ) → KeepsUser (λ e. close core leaves e uid)
    unfolding close remove_protocol leave_by_kind network_close
    close-user leaves unlisten closed disconnect uid e i = go (e.protocols uid)
      where
        left :
            (kind : ObjectType)
            → Ensures (λ e'. P e'.user) (leave_by_kind core leaves kind uid (network_close e uid))
        left listener = unlisten uid _ i
        left session = closed uid _ i
        left connector = disconnect uid _ i
        left wakeup = stops assertion

        go :
            (o : Option ℕ)
            → Ensures
                (λ e'. P e'.user)
                (elim o [
                  | none ↦ ok e
                  | some p ↦
                      if not (e.objects p).available
                      then ok (remove_protocol core (network_close e uid) uid).1
                      else leave_by_kind core leaves (e.objects p).kind uid (network_close e uid)
                        >>= λ e'. ok (remove_protocol core e' uid).1
                ])
        go none = returns i
        go (some p) =
            if-Ensures _ _ _ (returns i)
              (>>=-Ensures _ (left (e.objects p).kind) (λ e' j. returns j))
