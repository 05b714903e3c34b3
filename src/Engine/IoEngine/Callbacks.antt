-- ===== src/Engine/IoEngine/Callbacks.antt =====
-- engine/IOEngine.cpp: the callback ids, `bindCallbackHandler`, `send`, `dispactchCallback` and the
-- timer of the callbacks. `now` is what TimeHelp::clock() says, in milliseconds.
use zlnet.Base.{
  ℕ, zero, suc, ◌+◌, [], ◌∷◌, ◌++◌, Option, none, some, Bool, true, false, not, ltb, ◌==◌,
  if◌then◌else◌, Result, ok, fault, assertion, dangling, fuel, ◌>>=◌, ◌>>◌, require,
}
use zlnet.Base.Core.{Core, put}
use zlnet.Network.IoEvents.{data_event}
use zlnet.Engine.Messages.{IoPacket}
use zlnet.Engine.IoEngine.{
  IoEngine, CallbackHandler, Hooks, message, error_timeout, error_callback_by_send,
}

-- The largest `uint32`.
abbrev pub last_id : ℕ
last_id = 0xffffffff

module _ {U M : Type 0} where
  -- Whether the oldest callback that waits has this id.
  unfoldable pub waits_first : IoEngine U M → ℕ → Bool
  waits_first e id = elim e.timeouts [ [] ↦ false | p ∷ rest ↦ (e.handlers p).cb_id == id ]

  -- `makeCallbackId`: 0 says that there is no id left.
  unfoldable pub make_callback_id : IoEngine U M → ℕ × IoEngine U M
  unfolding waits_first
  make_callback_id e =
      let next = if ltb e.next_callback_id last_id then e.next_callback_id + 1 else 1 in
      (if waits_first e next then 0 else next, record e { next_callback_id = next })

  -- `_network->send`
  unfoldable pub network_send : IoEngine U M → IoPacket M → IoEngine U M
  network_send e packet = record e { events = e.events ++ data_event packet.uid packet ∷ [] }

  -- `postPacket` of an IOPacket.
  unfoldable pub post_message : IoEngine U M → IoPacket M → IoEngine U M
  post_message e packet = record e { queue = e.queue ++ message packet ∷ [] }

  -- The protocol of the uid, where it is available.
  unfoldable pub ready : IoEngine U M → ℕ → Option ℕ
  ready e uid = elim (e.protocols uid) [
    | none ↦ none
    | some o ↦ if (e.objects o).available then some o else none
  ]

  -- `callbackHander->_uid = uid; callbackHander->_cmd = cmd`
  unfoldable pub describe : IoEngine U M → ℕ → IoPacket M → IoEngine U M
  describe e p packet = record e {
    handlers = put e.handlers p (record (e.handlers p) { uid = packet.uid; cmd = packet.cmd });
  }

  -- The branch of `send` for an answer.
  unfoldable pub send_answer :
      IoEngine U M → Option ℕ → Option ℕ → IoPacket M → Result (IoEngine U M)
  unfolding network_send
  send_answer e protocol (some p) packet = fault assertion
  send_answer e (some o) none packet = ok (network_send e packet)
  send_answer e none none packet = ok e

module _ (core : Core) {U M : Type 0} where
  unfoldable pub bind_callback_handler : ℕ → IoEngine U M → ℕ → Result (ℕ × IoEngine U M)
  unfolding make_callback_id
  bind_callback_handler now e p = do
    require ((e.handlers p).cb_id == 0)
    let (id, e') = make_callback_id e
    require (not (id == 0))
    let to = now + e.callback_timeout_ms
    ok (
      id,
      record e' {
        handlers = put e.handlers p (record (e.handlers p) { cb_id = id; to_ms = to });
        callback_handlers = put e.callback_handlers id (some p);
        timeouts = core.push_back e.timeouts p;
      },
    )

  -- `protocol->getCallbackList().pushBack(callbackHander.get())`
  unfoldable pub push_callback : IoEngine U M → ℕ → ℕ → IoEngine U M
  push_callback e o p = record e {
    objects =
        put e.objects o
          (record (e.objects o) { callbacks = core.push_back (e.objects o).callbacks p });
  }

  -- The branch of `send` for a packet with a command.
  unfoldable pub send_call :
      ℕ → IoEngine U M → Option ℕ → Option ℕ → IoPacket M → Result (IoEngine U M)
  unfolding network_send post_message describe push_callback
  send_call now e (some o) none packet = ok (network_send e packet)
  send_call now e (some o) (some p) packet = do
    (id, e1) ← bind_callback_handler now e p
    let e2 = push_callback (describe e1 p packet) o p
    ok (network_send e2 (record packet { callback_id = id }))
  send_call now e none none packet = require (packet.uid == 0) >> ok e
  send_call now e none (some p) packet = do
    require (packet.uid == 0)
    (id, e1) ← bind_callback_handler now e p
    ok (
        post_message (describe e1 p packet) (record {
          uid = 0;
          cmd = 0;
          callback_id = id;
          error = error_callback_by_send;
          message = none;
        }))

  -- `send`; the callback is the pointer of its handler, `none` where the packet asks for no answer.
  unfoldable pub send : ℕ → IoEngine U M → Option ℕ → IoPacket M → Result (IoEngine U M)
  unfolding send_call send_answer ready
  send now e callback packet =
      if not (packet.cmd == 0)
      then send_call now e (ready e packet.uid) callback packet
      else if not (packet.callback_id == 0)
      then send_answer e (ready e packet.uid) callback packet
      else fault assertion

  -- The handler out of the table and out of both lists.
  unfoldable pub forget : IoEngine U M → ℕ → ℕ → IoEngine U M
  forget e id p = record e {
    callback_handlers = (core.remove e.callback_handlers id).0;
    objects = λ o. record (e.objects o) { callbacks = core.leave (e.objects o).callbacks p };
    timeouts = core.leave e.timeouts p;
  }

  module _ (hooks : Hooks U M) where
    unfoldable pub dispatch_callback : IoEngine U M → IoPacket M → Result (IoEngine U M)
    unfolding forget
    dispatch_callback e packet = elim (e.callback_handlers packet.callback_id) [
      | none ↦ ok e
      | some p ↦
          require ((e.handlers p).uid == packet.uid)
          >> hooks.on_callback p packet (forget e packet.callback_id p)
    ]

    -- What the timer gives a handler.
    unfoldable pub timeout_packet : CallbackHandler → IoPacket M
    timeout_packet c = record {
      uid = c.uid;
      cmd = c.cmd;
      callback_id = c.cb_id;
      error = error_timeout;
      message = none;
    }

    -- A round of the timer. The table's entry goes first: a handler that only the table held is
    -- freed with it, and the next line uses it.
    unfoldable pub time_out : IoEngine U M → ℕ → Result (IoEngine U M)
    unfolding forget timeout_packet
    time_out e p =
        if (e.handlers p).shared
        then hooks.on_callback p (timeout_packet (e.handlers p)) (forget e (e.handlers p).cb_id p)
        else fault dangling

    -- `onTimerCallbackTimeout`, on at most `fuel` rounds.
    unfoldable pub on_timer_callback_timeout : ℕ → ℕ → IoEngine U M → Result (IoEngine U M)
    unfolding time_out
    on_timer_callback_timeout zero now e = fault fuel
    on_timer_callback_timeout (suc rounds) now e = elim e.timeouts [
      | [] ↦ ok e
      | p ∷ rest ↦ elim (ltb now (e.handlers p).to_ms) [
        | true ↦ ok e
        | false ↦ time_out e p >>= λ e'. on_timer_callback_timeout rounds now e'
      ]
    ]
