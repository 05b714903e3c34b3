-- ===== src/Engine/IoEngine/Runs.antt =====
-- Whole runs of an IOEngine: the calls that its owner, its queue and its clock make, one after the
-- other.
use zlnet.Base.{
  ℕ, ◌+◌, ◌≡◌, List, [], ◌∷◌, Option, none, some, Bool, true, false, ◌==◌, if◌then◌else◌, Result,
  ok, Ensures, returns, if-Ensures, >>=-Ensures, require-Ensures, Ensures-of-eq, eq-of-Ensures,
  ◌>>=◌, Bool-cases, inl, inr, arith,
}
use zlnet.Base.Core.{Core, put, is_some, no_entries}
use zlnet.Engine.Messages.{IoPacket}
use zlnet.Engine.IoEngine.{IoEngine, Object, CallbackHandler, Hooks, Packet}
use zlnet.Engine.IoEngine.Callbacks.{send}
use zlnet.Engine.IoEngine.Protocols.{
  network_listen, network_connect, keep_protocol, confirmed, listen, connect, confirm_listen,
  confirm_connect, is_notify_of, close,
}
use zlnet.Engine.IoEngine.Dispatch.{bind_packet_handler, dispatch_io_packet, on_timer1000ms}
use zlnet.Engine.IoEngine.Ids.{has}
use zlnet.Engine.IoEngine.Waiting.{Inv, Keeps, Waits-later}
use zlnet.Engine.IoEngine.Sends.{send-Inv}
use zlnet.Engine.IoEngine.Ticks.{timer-Keeps}
use zlnet.Engine.IoEngine.Keeping.{HooksKeep, close-Keeps, dispatch_io_packet-Keeps}

-- A call from outside, with what the key pool hands out for it.
pub data Call (M : Type 0) : Type 0 where
  send_packet : Option ℕ → IoPacket M → Call M
  listen_on : (key port protocol : ℕ) → Call M
  confirm_listening : ℕ → Call M
  connect_to : (key : ℕ) (ip : List ℕ) (port protocol : ℕ) → Call M
  confirm_connecting : ℕ → Call M
  close_uid : ℕ → Call M
  bind_packet : (cmd handler : ℕ) → Call M
  take_packet : Packet M → Call M
  tick : (rounds : ℕ) → Call M

-- `IOEngine::IOEngine`, over these protocols and handlers.
unfoldable pub start : {U M : Type 0} → (ℕ → Object) → (ℕ → CallbackHandler) → U → IoEngine U M
start objects handlers user = record {
  protocols = no_entries;
  packet_handlers = no_entries;
  callback_handlers = no_entries;
  timeouts = [];
  next_callback_id = 0;
  callback_timeout_ms = 10000;
  objects = objects;
  handlers = handlers;
  queue = [];
  events = [];
  user = user;
}

pub start-Inv :
    {U : Type 0} (M : Type 0) (objects : ℕ → Object) (handlers : ℕ → CallbackHandler) (user : U)
    (now : ℕ)
    → Inv {M = M} now (start objects handlers user)
unfolding start has
start-Inv M objects handlers user now = record {
  next_fits = omega arith;
  ordered = tt;
  listed = λ p m. cc;
  found = λ id p f. cc;
}

module _ (core : Core) {U M : Type 0} (hooks : Hooks U M)
    (poll : (Packet M → Bool) → IoEngine U M → Result (IoEngine U M)) where
  -- One call, at the time `now`.
  unfoldable pub perform : ℕ → IoEngine U M → Call M → Result (IoEngine U M)
  perform now e (send_packet c packet) = send core now e c packet
  perform now e (listen_on key port p) = listen core key e port p >>= λ r. ok r.1
  perform now e (confirm_listening uid) = confirm_listen core poll e uid >>= λ r. ok r.1
  perform now e (connect_to key ip port p) = connect core key e ip port p >>= λ r. ok r.1
  perform now e (confirm_connecting uid) = confirm_connect core poll e uid >>= λ r. ok r.1
  perform now e (close_uid uid) = close core hooks.leaves e uid
  perform now e (bind_packet cmd handler) = ok (bind_packet_handler e cmd handler).1
  perform now e (take_packet packet) = dispatch_io_packet core hooks e packet
  perform now e (tick rounds) = on_timer1000ms core hooks rounds now e

  -- The calls in their order, each some milliseconds after the one before it.
  unfoldable pub run : ℕ → IoEngine U M → List (ℕ × Call M) → Result (ℕ × IoEngine U M)
  unfolding perform
  run now e [] = ok (now, e)
  run now e ((later, call) ∷ calls) =
      perform (now + later) e call >>= λ e'. run (now + later) e' calls

  module _ (k : HooksKeep hooks)
      (poll_keeps : (condition : Packet M → Bool) → Keeps (poll condition)) where
    abbrev Second : {A : Type 0} → ℕ → A × IoEngine U M → Type 0
    Second now r = Inv now r.1

    keep_protocol-Inv :
        (now uid p : ℕ) (e : IoEngine U M) → Inv now e → Second now (keep_protocol core e uid p)
    unfolding keep_protocol
    keep_protocol-Inv now uid p e i = go (core.insert e.protocols uid p).1
      where
        kept : IoEngine U M
        kept = record e {
          objects = put e.objects p (record (e.objects p) { has_queue = true });
          protocols = (core.insert e.protocols uid p).0;
        }

        go : (b : Bool) → Second now (if◌then◌else◌ {A = ℕ × IoEngine U M} b (uid, kept) (0, kept))
        go true = i
        go false = i

    network_listen-Ensures :
        (now key port p : ℕ) (e : IoEngine U M)
        → Inv now e
        → Ensures (Second now) (network_listen key e port p)
    unfolding network_listen
    network_listen-Ensures now key port p e i =
        require-Ensures _ _ (if-Ensures _ _ _ (returns i) (returns i))

    network_connect-Ensures :
        (now key : ℕ) (ip : List ℕ) (port p : ℕ) (e : IoEngine U M)
        → Inv now e
        → Ensures (Second now) (network_connect key e ip port p)
    unfolding network_connect
    network_connect-Ensures now key ip port p e i =
        require-Ensures _ _ (if-Ensures _ _ _ (returns i) (returns i))

    -- What `listen` and `connect` do with the network's answer.
    after_network :
        (now p : ℕ) (m : Result (ℕ × IoEngine U M))
        → Ensures (Second now) m
        → Ensures
            (Second now)
            (m >>= λ r. if r.0 == 0 then ok (0, r.1) else ok (keep_protocol core r.1 r.0 p))
    after_network now p m h =
        >>=-Ensures _ h
          (λ r j. if-Ensures _ _ _ (returns j) (returns (keep_protocol-Inv now r.0 p r.1 j)))

    listen-Ensures :
        (now key port p : ℕ) (e : IoEngine U M)
        → Inv now e
        → Ensures (Second now) (listen core key e port p)
    unfolding listen
    listen-Ensures now key port p e i =
        if-Ensures _ _ _ (returns i)
          (after_network now p _ (network_listen-Ensures now key port p e i))

    connect-Ensures :
        (now key : ℕ) (ip : List ℕ) (port p : ℕ) (e : IoEngine U M)
        → Inv now e
        → Ensures (Second now) (connect core key e ip port p)
    unfolding connect
    connect-Ensures now key ip port p e i =
        if-Ensures _ _ _ (returns i)
          (after_network now p _ (network_connect-Ensures now key ip port p e i))

    confirmed-Inv :
        (now uid p : ℕ) (e : IoEngine U M) → Inv now e → Second now (confirmed core e uid p)
    unfolding confirmed
    confirmed-Inv now uid p e i = elim (Bool-cases (e.objects p).available) [
      | inl t ↦ rw t i
      | inr f ↦ rw f i
    ]

    confirm_listen-Ensures :
        (now uid : ℕ) (e : IoEngine U M)
        → Inv now e
        → Ensures (Second now) (confirm_listen core poll e uid)
    unfolding confirm_listen
    confirm_listen-Ensures now uid e i = go (e.protocols uid)
      where
        go :
            (o : Option ℕ)
            → Ensures (Second {A = Bool} now) (elim o [
              | none ↦ ok (false, e)
              | some p ↦
                  if (e.objects p).available
                  then ok (true, e)
                  else poll (is_notify_of p) e >>= λ e'. ok (confirmed core e' uid p)
            ])
        go none = returns i
        go (some p) = if-Ensures _ _ _ (returns i) (
            >>=-Ensures {Q = Inv now} _ (poll_keeps (is_notify_of p) now e i)
              (λ e' j. returns (confirmed-Inv now uid p e' j)))

    confirm_connect-Ensures :
        (now uid : ℕ) (e : IoEngine U M)
        → Inv now e
        → Ensures (Second now) (confirm_connect core poll e uid)
    unfolding confirm_connect confirm_listen
    confirm_connect-Ensures now uid e i = confirm_listen-Ensures now uid e i

    perform-Keeps :
        (now : ℕ) (e : IoEngine U M) (call : Call M)
        → Inv now e
        → Ensures (Inv now) (perform now e call)
    unfolding perform on_timer1000ms bind_packet_handler
    perform-Keeps now e (send_packet c packet) i =
        Ensures-of-eq _ (λ e' h. send-Inv core now now e c packet (omega arith) i h)
    perform-Keeps now e (listen_on key port p) i =
        >>=-Ensures _ (listen-Ensures now key port p e i) (λ r j. returns j)
    perform-Keeps now e (confirm_listening uid) i =
        >>=-Ensures _ (confirm_listen-Ensures now uid e i) (λ r j. returns j)
    perform-Keeps now e (connect_to key ip port p) i =
        >>=-Ensures _ (connect-Ensures now key ip port p e i) (λ r j. returns j)
    perform-Keeps now e (confirm_connecting uid) i =
        >>=-Ensures _ (confirm_connect-Ensures now uid e i) (λ r j. returns j)
    perform-Keeps now e (close_uid uid) i = close-Keeps core k.leaves_keep uid now e i
    perform-Keeps now e (bind_packet cmd handler) i =
        elim (Bool-cases (is_some (e.packet_handlers cmd))) [
          | inl t ↦ rw t (returns i)
          | inr f ↦ rw f (returns i)
        ]
    perform-Keeps now e (take_packet packet) i =
        dispatch_io_packet-Keeps core hooks k packet now e i
    perform-Keeps now e (tick rounds) i = timer-Keeps core hooks k rounds now now e i

    run-Ensures :
        (now : ℕ) (e : IoEngine U M) (calls : List (ℕ × Call M))
        → Inv now e
        → Ensures (λ r. Inv r.0 r.1) (run now e calls)
    unfolding run
    run-Ensures now e [] i = returns i
    run-Ensures now e ((later, call) ∷ calls) i =
        >>=-Ensures _ (perform-Keeps (now + later) e call (Waits-later _ _ _ _ _ _ (omega arith) i))
          (λ e' j. run-Ensures (now + later) e' calls j)

    -- In every state that an engine reaches from its constructor by any sequence of send, listen,
    -- connect, confirmListen, confirmConnect, close, bindPacketHandler, packets of its queue and
    -- timers, at times that do not fall back, where the virtual functions, the handlers and the
    -- queue's polling keep the same: the callback table and the timeout list hold the same
    -- handlers, each under its id, the ids lie between 1 and 2 ^ 32 - 1 and no two are equal,
    -- older callbacks come first, also after the ids went round, their times rise along the list,
    -- and none is later than the timeout from now.
    pub run-Inv :
        (now : ℕ) (objects : ℕ → Object) (handlers : ℕ → CallbackHandler) (user : U)
        (calls : List (ℕ × Call M)) (now' : ℕ) (e' : IoEngine U M)
        → run now (start objects handlers user) calls ≡ ok (now', e')
        → Inv now' e'
    run-Inv now objects handlers user calls now' e' h =
        eq-of-Ensures (run-Ensures now _ calls (start-Inv M objects handlers user now)) h
