-- ===== src/Engine/IoEngine/Answers.antt =====
-- A call with a callback, and the answers to it.
use zlnet.Base.{
  ℕ, ◌<◌, ◌≡◌, ◌≢◌, refl, sym, ◌∙◌, List, [], ◌∷◌, ◌++◌, Option, none, some, false, ◌==◌,
  Bool-cases, Option-cases, inl, inr, ok, fault, assertion, arith,
}
use mathlib.Core.Path.{fun_ext}
use zlnet.Base.Core.{Core, Table, put, without}
use zlnet.Network.IoEvents.{data_event}
use zlnet.Engine.Messages.{IoPacket}
use zlnet.Engine.IoEngine.{IoEngine, Hooks, message}
use zlnet.Engine.IoEngine.Callbacks.{
  waits_first, ready, describe, push_callback, network_send, send, send_call, forget,
  dispatch_callback,
}
use zlnet.Engine.IoEngine.Dispatch.{on_io_packet, dispatch_io_packet}
use zlnet.Engine.IoEngine.Ids.{next_id, has, Ordered-at}
use zlnet.Engine.IoEngine.NextId.{Ordered-fresh}
use zlnet.Engine.IoEngine.Waiting.{Inv}
use zlnet.Engine.IoEngine.Sends.{bound, bind_lem, waits_first-FirstIsNot}

without-append : (p : ℕ) (l : List ℕ) → has p l ≡ false → without p (l ++ p ∷ []) ≡ l
unfolding has without
without-append p [] h = ground arith
without-append p (q ∷ l) h = ground (arith, without-append p l)

put-put_none : (t : Table) (k : ℕ) (v : Option ℕ) → t k ≡ none → put (put t k v) k none ≡ t
unfolding put
put-put_none t k v n = fun_ext (λ j. ground (arith))

module _ (core : Core) {U M : Type 0} where
  -- The engine after a call with the callback of handler `p`, on the protocol at `o`.
  pub called : ℕ → IoEngine U M → ℕ → ℕ → IoPacket M → IoEngine U M
  unfolding describe push_callback network_send
  called now e o p packet =
      network_send (push_callback core (describe (bound core now e p) p packet) o p)
        (record packet { callback_id = next_id e.next_callback_id })

  pub send-called :
      (now : ℕ) (e : IoEngine U M) (o p : ℕ) (packet : IoPacket M)
      → packet.cmd ≢ 0
      → ready e packet.uid ≡ some o
      → (e.handlers p).cb_id ≡ 0
      → waits_first e (next_id e.next_callback_id) ≡ false
      → send core now e (some p) packet ≡ ok (called now e o p packet)
  unfolding send send_call called
  send-called now e o p packet c r z f =
      let call : (packet.cmd == 0) ≡ false = ground arith in rw (call, r, bind_lem core now e p z f)

  -- The table has no handler under the next id.
  pub table_fresh :
      (now : ℕ) (e : IoEngine U M)
      → Inv now e
      → waits_first e (next_id e.next_callback_id) ≡ false
      → e.callback_handlers (next_id e.next_callback_id) ≡ none
  table_fresh now e i f = elim (Option-cases (e.callback_handlers (next_id e.next_callback_id))) [
    | inl n ↦ n
    | inr (p, s) ↦
        let (m, same) = i.found _ p s in
        absurd (
          Ordered-fresh e.handlers _ i.next_fits _ e.timeouts i.ordered
            (waits_first-FirstIsNot e _ f) p m same)
  ]

  not-has :
      (now : ℕ) (e : IoEngine U M) (p : ℕ)
      → Inv now e
      → (e.handlers p).cb_id ≡ 0
      → has p e.timeouts ≡ false
  not-has now e p i z = elim (Bool-cases (has p e.timeouts)) [
    | inl m ↦ absurd (omega (arith, Ordered-at e.handlers _ _ e.timeouts p i.ordered m))
    | inr f ↦ f
  ]

  -- Out of the table and out of the list again.
  called-forget :
      (now now' : ℕ) (e : IoEngine U M) (o p : ℕ) (packet : IoPacket M)
      → Inv now e
      → (e.handlers p).cb_id ≡ 0
      → waits_first e (next_id e.next_callback_id) ≡ false
      → ((forget core (called now' e o p packet) (next_id e.next_callback_id) p).callback_handlers
          ≡ e.callback_handlers)
        × ((forget core (called now' e o p packet) (next_id e.next_callback_id) p).timeouts
            ≡ e.timeouts)
  unfolding forget called bound
  called-forget now now' e o p packet i z f = (
    rw (core.remove_lem) (put-put_none e.callback_handlers _ (some p) (table_fresh now e i f)),
    rw (core.leave_lem) (without-append p e.timeouts (not-has now e p i z)),
  )

  called_uid :
      (now : ℕ) (e : IoEngine U M) (o p : ℕ) (packet : IoPacket M)
      → (((called now e o p packet).handlers p).uid ≡ packet.uid)
        × ((called now e o p packet).callback_handlers (next_id e.next_callback_id) ≡ some p)
  unfolding called bound put
  called_uid now e o p packet = ground (arith)

  module _ (hooks : Hooks U M) where
    dispatch_own :
        (e : IoEngine U M) (p : ℕ) (answer : IoPacket M)
        → e.callback_handlers answer.callback_id ≡ some p
        → (e.handlers p).uid ≡ answer.uid
        → dispatch_callback core hooks e answer
          ≡ hooks.on_callback p answer (forget core e answer.callback_id p)
    unfolding dispatch_callback
    dispatch_own e p answer s u = ground (arith)

    dispatch_foreign :
        (e : IoEngine U M) (p : ℕ) (answer : IoPacket M)
        → e.callback_handlers answer.callback_id ≡ some p
        → (e.handlers p).uid ≢ answer.uid
        → dispatch_callback core hooks e answer ≡ fault assertion
    unfolding dispatch_callback
    dispatch_foreign e p answer s u = ground (arith)

    dispatch_late :
        (e : IoEngine U M) (answer : IoPacket M)
        → e.callback_handlers answer.callback_id ≡ none
        → dispatch_callback core hooks e answer ≡ ok e
    unfolding dispatch_callback
    dispatch_late e answer n = ground (arith)

    -- On an engine whose waiting callbacks are in order, a packet with a command, for an available
    -- protocol, with a handler that was never bound, where the oldest waiting callback does not
    -- have the next id: send succeeds and asks the network to send the packet with that id, which
    -- is not 0. The packet that answers it, with the same uid and id, calls that handler once,
    -- with the table and the list of the waiting callbacks as they were before the call, and the
    -- same answer again calls nothing.
    pub send-dispatch_callback :
        (now now' : ℕ) (e : IoEngine U M) (o p : ℕ) (packet answer : IoPacket M)
        → Inv now e
        → packet.cmd ≢ 0
        → ready e packet.uid ≡ some o
        → (e.handlers p).cb_id ≡ 0
        → waits_first e (next_id e.next_callback_id) ≡ false
        → answer.uid ≡ packet.uid
        → answer.callback_id ≡ next_id e.next_callback_id
        → (sent done : IoEngine U M) × (send core now' e (some p) packet ≡ ok sent)
          × (sent.events
              ≡ e.events
                ++ data_event packet.uid (record packet { callback_id = answer.callback_id }) ∷ [])
          × (0 < answer.callback_id)
          × (dispatch_callback core hooks sent answer ≡ hooks.on_callback p answer done)
          × (done.callback_handlers ≡ e.callback_handlers)
          × (done.timeouts ≡ e.timeouts)
          × (dispatch_callback core hooks done answer ≡ ok done)
    unfolding called bound
    send-dispatch_callback now now' e o p packet answer i c r z f u a =
        let sent = called now' e o p packet in
        let back = called-forget now now' e o p packet i z f in
        let there = called_uid now' e o p packet in
        (
          sent,
          forget core sent answer.callback_id p,
          send-called now' e o p packet c r z f,
          rw a refl,
          ground (arith, i.next_fits),
          dispatch_own sent p answer (rw a (there.1)) (there.0 ∙ sym u),
          rw a (back.0),
          rw a (back.1),
          dispatch_late _ answer (rw a (rw (back.0) (table_fresh now e i f))),
        )

    -- An answer on an available protocol reaches `dispactchCallback`.
    on_io_packet_answer :
        (e : IoEngine U M) (o : ℕ) (packet : IoPacket M)
        → ready e packet.uid ≡ some o
        → packet.cmd ≡ 0
        → packet.callback_id ≢ 0
        → on_io_packet core hooks e packet ≡ dispatch_callback core hooks e packet
    unfolding on_io_packet ready
    on_io_packet_answer e o packet r c n = ground (arith)

    dispatch_answer :
        (e : IoEngine U M) (o : ℕ) (packet : IoPacket M)
        → ready e packet.uid ≡ some o
        → packet.cmd ≡ 0
        → packet.callback_id ≢ 0
        → dispatch_io_packet core hooks e (message packet) ≡ dispatch_callback core hooks e packet
    unfolding dispatch_io_packet
    dispatch_answer e o packet r c n = on_io_packet_answer e o packet r c n

    -- A call leaves the protocols available.
    ready-called :
        (now : ℕ) (e : IoEngine U M) (o p uid q : ℕ) (packet : IoPacket M)
        → ready e uid ≡ some q
        → ready (called now e o p packet) uid ≡ some q
    unfolding ready called bound put
    ready-called now e o p uid q packet r = ground (arith)

    -- On an engine whose waiting callbacks are in order, after send has sent a packet with a
    -- command and a handler that was never bound, for an available protocol, where the oldest
    -- waiting callback does not have the next id: the answer with that id which comes in on the
    -- same protocol calls the handler, with the table as it was before the call, and the same
    -- answer on any other available protocol fails an assertion.
    pub dispatch_io_packet-send :
        (now now' : ℕ) (e : IoEngine U M) (o other p : ℕ) (packet answer : IoPacket M)
        → Inv now e
        → packet.cmd ≢ 0
        → ready e packet.uid ≡ some o
        → (e.handlers p).cb_id ≡ 0
        → waits_first e (next_id e.next_callback_id) ≡ false
        → answer.cmd ≡ 0
        → answer.callback_id ≡ next_id e.next_callback_id
        → ready e answer.uid ≡ some other
        → answer.uid ≢ packet.uid
        → (sent done : IoEngine U M) × (send core now' e (some p) packet ≡ ok sent)
          × (dispatch_io_packet core hooks sent (message (record answer { uid = packet.uid }))
              ≡ hooks.on_callback p (record answer { uid = packet.uid }) done)
          × (done.callback_handlers ≡ e.callback_handlers)
          × (dispatch_io_packet core hooks sent (message answer) ≡ fault assertion)
    unfolding called bound
    dispatch_io_packet-send now now' e o other p packet answer i c r z f k a r' u =
        let sent = called now' e o p packet in
        let own = record answer { uid = packet.uid } in
        let there = called_uid now' e o p packet in
        let found : sent.callback_handlers answer.callback_id ≡ some p = rw a (there.1) in
        let some_id : answer.callback_id ≢ 0 = ground (arith, i.next_fits) in
        (
          sent,
          forget core sent answer.callback_id p,
          send-called now' e o p packet c r z f,
          dispatch_answer sent o own (ready-called now' e o p packet.uid o packet r) k some_id
              ∙ dispatch_own sent p own found there.0,
          rw a ((called-forget now now' e o p packet i z f).0),
          dispatch_answer sent other answer (ready-called now' e o p answer.uid other packet r') k
                some_id
              ∙ dispatch_foreign sent p answer found (λ same. u (sym same ∙ there.0)),
        )
