-- ===== src/Engine/IoEngine/Sends.antt =====
-- `bindCallbackHandler` and `send`: the id that a callback gets, and the invariant of the waiting
-- callbacks across both.
use zlnet.Base.{
  ℕ, ◌+◌, ◌≤◌, ◌≡◌, refl, subst, List, [], ◌∷◌, ◌++◌, Option, none, some, false, ◌==◌, Bool-cases,
  inl, inr, ok, ok-injective, bind_returned, require, arith,
}
use zlnet.Base.Core.{Core, put}
use zlnet.Engine.Messages.{IoPacket}
use zlnet.Engine.IoEngine.{IoEngine}
use zlnet.Engine.IoEngine.Callbacks.{
  waits_first, bind_callback_handler, send, send_call, send_answer, describe, push_callback,
  network_send, post_message,
}
use zlnet.Engine.IoEngine.Ids.{next_id}
use zlnet.Engine.IoEngine.NextId.{FirstIsNot}
use zlnet.Engine.IoEngine.Waiting.{Inv, Waits-later, Waits-same, Waits-bind, bind_at}

module _ {U M : Type 0} where
  pub waits_first-FirstIsNot :
      (e : IoEngine U M) (id : ℕ) → waits_first e id ≡ false → FirstIsNot e.handlers id e.timeouts
  unfolding waits_first
  waits_first-FirstIsNot e id f = go e.timeouts f
    where
      go :
          (l : List ℕ)
          → (elim l [ [] ↦ false | p ∷ rest ↦ (e.handlers p).cb_id == id ]) ≡ false
          → FirstIsNot e.handlers id l
      go [] f = tt
      go (p ∷ l) f = λ s. ground arith

module _ (core : Core) {U M : Type 0} where
  -- The engine with the callback bound.
  unfoldable pub bound : ℕ → IoEngine U M → ℕ → IoEngine U M
  bound now e p =
      let id = next_id e.next_callback_id in
      record e {
        next_callback_id = id;
        handlers = bind_at e.handlers p id (now + e.callback_timeout_ms);
        callback_handlers = put e.callback_handlers id (some p);
        timeouts = e.timeouts ++ p ∷ [];
      }

  pub bind_lem :
      (now : ℕ) (e : IoEngine U M) (p : ℕ)
      → (e.handlers p).cb_id ≡ 0
      → waits_first e (next_id e.next_callback_id) ≡ false
      → bind_callback_handler core now e p ≡ ok (next_id e.next_callback_id, bound now e p)
  unfolding bind_callback_handler bound
  bind_lem now e p z f = rw (z, f, core.push_back_lem) (ground arith)

  pub bind_cases :
      (now : ℕ) (e : IoEngine U M) (p : ℕ) {r : ℕ × IoEngine U M}
      → bind_callback_handler core now e p ≡ ok r
      → ((e.handlers p).cb_id ≡ 0)
        × (waits_first e (next_id e.next_callback_id) ≡ false)
        × (r ≡ (next_id e.next_callback_id, bound now e p))
  unfolding bind_callback_handler
  bind_cases now e p h = elim (Bool-cases ((e.handlers p).cb_id == 0)) [
    | inl z ↦ elim (Bool-cases (waits_first e (next_id e.next_callback_id))) [
      | inl w ↦ ground (arith)
      | inr f ↦ (ground arith, f, ground (arith, bind_lem now e p))
    ]
    | inr nz ↦ ground (arith)
  ]

  pub bound-Inv :
      (now now' : ℕ) (e : IoEngine U M) (p : ℕ)
      → now ≤ now'
      → (e.handlers p).cb_id ≡ 0
      → waits_first e (next_id e.next_callback_id) ≡ false
      → Inv now e
      → Inv now' (bound now' e p)
  unfolding bound
  bound-Inv now now' e p later z f i =
      Waits-bind e.handlers p _ _ _ _ _ _ refl z (omega arith) (waits_first-FirstIsNot e _ f) i

  describe-Inv :
      (now : ℕ) (e : IoEngine U M) (p : ℕ) (packet : IoPacket M)
      → Inv now e
      → Inv now (describe e p packet)
  unfolding describe put
  describe-Inv now e p packet i = Waits-same _ _ _ _ _ _ (λ q. ground arith) i

  send_call-Inv :
      (now now' : ℕ) (e : IoEngine U M) (o c : Option ℕ) (packet : IoPacket M) {e' : IoEngine U M}
      → now ≤ now'
      → Inv now e
      → send_call core now' e o c packet ≡ ok e'
      → Inv now' e'
  unfolding send_call network_send post_message push_callback
  send_call-Inv now now' e (some o) none packet later i h =
      subst (Inv now') (ok-injective h) (Waits-later _ _ _ _ _ _ (omega arith) i)
  send_call-Inv now now' e none none packet later i h =
      let (_, _, k) = bind_returned (require (packet.uid == 0)) _ h in
      subst (Inv now') (ok-injective k) (Waits-later _ _ _ _ _ _ (omega arith) i)
  send_call-Inv now now' e (some o) (some p) packet later i h =
      let (r, b, k) = bind_returned (bind_callback_handler core now' e p) _ h in
      let (z, f, s) = bind_cases now' e p b in
      let kept : Inv now' r.1 = rw s (bound-Inv now now' e p later z f i) in
      subst (Inv now') (ok-injective k) (describe-Inv now' r.1 p packet kept)
  send_call-Inv now now' e none (some p) packet later i h =
      let (_, _, g) = bind_returned (require (packet.uid == 0)) _ h in
      let (r, b, k) = bind_returned (bind_callback_handler core now' e p) _ g in
      let (z, f, s) = bind_cases now' e p b in
      let kept : Inv now' r.1 = rw s (bound-Inv now now' e p later z f i) in
      subst (Inv now') (ok-injective k) (describe-Inv now' r.1 p packet kept)

  send_answer-Inv :
      (now : ℕ) (e : IoEngine U M) (o c : Option ℕ) (packet : IoPacket M) {e' : IoEngine U M}
      → Inv now e
      → send_answer e o c packet ≡ ok e'
      → Inv now e'
  unfolding send_answer network_send
  send_answer-Inv now e o (some p) packet i h = cc
  send_answer-Inv now e (some o) none packet i h = subst (Inv now) (ok-injective h) i
  send_answer-Inv now e none none packet i h = subst (Inv now) (ok-injective h) i

  pub send-Inv :
      (now now' : ℕ) (e : IoEngine U M) (c : Option ℕ) (packet : IoPacket M) {e' : IoEngine U M}
      → now ≤ now'
      → Inv now e
      → send core now' e c packet ≡ ok e'
      → Inv now' e'
  unfolding send
  send-Inv now now' e c packet later i h = elim (Bool-cases (packet.cmd == 0)) [
    | inr call ↦ send_call-Inv now now' e _ c packet later i (rw call at h)
    | inl answer ↦ elim (Bool-cases (packet.callback_id == 0)) [
      | inr given ↦
          send_answer-Inv now' e _ c packet (Waits-later _ _ _ _ _ _ (omega arith) i)
            (rw (answer, given) at h)
      | inl neither ↦ absurd (ground arith)
    ]
  ]
