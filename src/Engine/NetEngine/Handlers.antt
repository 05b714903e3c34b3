-- ===== src/Engine/NetEngine/Handlers.antt =====
-- engine/NetEngine.cpp: the handlers and the virtual functions of NetEngine, over the IOEngine whose
-- state has the nodes beside it.
use zlnet.Base.{
  ℕ, ◌+◌, List, [], ◌∷◌, none, some, Bool, not, ◌==◌, ◌&&◌, if◌then◌else◌, Result, ok, ◌>>=◌,
}
use zlnet.Base.Core.{Core, put, is_some}
use zlnet.Network.ByteOrder.{Host}
use zlnet.Engine.Messages.{IoPacket}
use zlnet.Engine.IoEngine.{IoEngine, Hooks, Leaves, Packet}
use zlnet.Engine.IoEngine.Callbacks.{send}
use zlnet.Engine.IoEngine.Protocols.{listen, connect, confirm_listen, close}
use zlnet.Engine.IoEngine.Dispatch.{bind_packet_handler, on_timer1000ms}
use zlnet.Engine.NetEngine.{
  Node, Nodes, Report, joined, left, NodeMessage, serialized, other_message, Hello, hello_message,
  read_hello, ping, pong,
}

abbrev pub NetEngine : Type 0
NetEngine = IoEngine Nodes NodeMessage

unfoldable pub with_nodes : NetEngine → Nodes → NetEngine
with_nodes e n = record e { user = n }

-- `std::make_shared<Node>`
unfoldable pub make_node : Nodes → Node → ℕ × Nodes
make_node n node =
    (n.next_node, record n { nodes = put n.nodes n.next_node node; next_node = n.next_node + 1 })

unfoldable pub set_uid : Nodes → ℕ → ℕ → Nodes
set_uid n p uid = record n { nodes = put n.nodes p (record (n.nodes p) { uid = uid }) }

unfoldable pub report : Nodes → Report → Nodes
report n r = record n { reports = r ∷ n.reports }

module _ (core : Core) where
  -- `onUnlisten`
  unfoldable pub on_unlisten : ℕ → Nodes → Nodes
  on_unlisten uid n =
      if uid == n.node_uid
      then record n { node_uid = 0; node_code = 0; node_type = 0; node_info = [] }
      else n

  -- The peer of the uid, where there is one, is reported and goes.
  unfoldable pub leave_peer : ℕ → Nodes → Nodes
  unfolding set_uid report
  leave_peer uid n = elim (n.peers uid) [
    | none ↦ n
    | some p ↦
        let n1 = set_uid (report n (left uid)) p 0 in
        record n1 { peers = (core.remove n1.peers uid).0 }
  ]

  -- `onClose`
  unfoldable pub on_close : ℕ → Nodes → Nodes
  unfolding leave_peer
  on_close uid n =
      let accepted =
        if is_some (n.accepted_nodes uid)
        then (core.remove n.accepted_nodes uid).0
        else n.accepted_nodes in
      leave_peer uid (record n { accepted_nodes = accepted })

  -- `onDisconnect`
  unfoldable pub on_disconnect : ℕ → Nodes → Nodes
  unfolding leave_peer set_uid
  on_disconnect uid n = elim (n.connecting_nodes uid) [
    | none ↦ leave_peer uid n
    | some p ↦
        leave_peer uid
          (set_uid (record n { connecting_nodes = (core.remove n.connecting_nodes uid).0 }) p 0)
  ]

  -- The virtual functions that IOEngine::close calls.
  unfoldable pub net_leaves : Leaves Nodes NodeMessage
  unfolding on_unlisten on_close on_disconnect with_nodes
  net_leaves = record {
    on_unlisten = λ uid e. ok (with_nodes e (on_unlisten uid e.user));
    on_close = λ uid e. ok (with_nodes e (on_close uid e.user));
    on_disconnect = λ uid e. ok (with_nodes e (on_disconnect uid e.user));
  }

  unfoldable pub refuse : NetEngine → ℕ → Result NetEngine
  unfolding net_leaves
  refuse e uid = close core net_leaves e uid

  -- `onAccept`
  unfoldable pub on_accept : ℕ → ℕ → NetEngine → Result NetEngine
  unfolding refuse with_nodes
  on_accept uid from e =
      let (t, inserted) = core.insert e.user.accepted_nodes uid uid in
      let e1 = with_nodes e (record e.user { accepted_nodes = t }) in
      if not (e.user.node_uid == from) then ok e else if inserted then ok e1 else refuse e1 uid

  -- `junk` is what new memory holds, and `now` the time.
  module _ (h : Host) (junk : ℕ → ℕ) (now : ℕ) where
    -- A ping or a pong of this node for another, to the uid.
    unfoldable pub send_hello : NetEngine → ℕ → ℕ → ℕ → ℕ → Result NetEngine
    unfolding hello_message
    send_hello e uid cmd code type = do
      m ← hello_message h junk (record {
        from_code = e.user.node_code;
        from_type = e.user.node_type;
        info = e.user.node_info;
        to_code = code;
        to_type = type;
      })
      send core now e none (record {
        uid = uid;
        cmd = cmd;
        callback_id = 0;
        error = 0;
        message = some (serialized m);
      })

    -- The end of `handlerNodePing`, for a ping that is for this node.
    unfoldable pub accept_ping : NetEngine → ℕ → Hello → Result NetEngine
    unfolding refuse send_hello make_node with_nodes report
    accept_ping e uid x =
        let made = make_node e.user (record {
          uid = uid;
          code = x.from_code;
          type = x.from_type;
          host = [];
          port = 0;
          protocol = none;
          info = x.info;
        }) in
        let (t, inserted) = core.insert made.1.peers uid made.0 in
        let e1 = with_nodes e (record made.1 { peers = t }) in
        if not (is_some (e.user.accepted_nodes uid))
        then refuse e uid
        else if not inserted
        then refuse e1 uid
        else (do
          e2 ← send_hello e1 uid pong x.from_code x.from_type
          ok (with_nodes e2 (report e2.user (joined uid x.from_code x.from_type))))

    -- Whether the message is for the node of this engine.
    unfoldable pub for_us : Nodes → Hello → Bool
    for_us n x = x.to_code == n.node_code && x.to_type == n.node_type

    -- `handlerNodePing`
    unfoldable pub handler_node_ping : IoPacket NodeMessage → NetEngine → Result NetEngine
    unfolding accept_ping for_us read_hello
    handler_node_ping packet e = elim packet.message [
      | none ↦ refuse e packet.uid
      | some other_message ↦ refuse e packet.uid
      | some (serialized m) ↦ read_hello h m >>= λ x.
          if not (for_us e.user x) then refuse e packet.uid else accept_ping e packet.uid x
    ]

    -- The end of `handlerNodePong`, for the node that the uid connects to.
    unfoldable pub accept_pong : NetEngine → ℕ → ℕ → Hello → Result NetEngine
    unfolding refuse with_nodes report
    accept_pong e uid p x =
        let e1 =
          with_nodes e
            (record e.user { accepted_nodes = (core.remove e.user.accepted_nodes uid).0 }) in
        let node = e.user.nodes p in
        let (t, inserted) = core.insert e1.user.peers uid p in
        let e2 = with_nodes e1 (record e1.user { peers = t }) in
        if not (node.code == x.from_code && node.type == x.from_type)
        then refuse e1 uid
        else if not inserted
        then refuse e2 uid
        else ok (
            with_nodes e2 (
              report
                (record e2.user { nodes = put e2.user.nodes p (record node { info = x.info }) })
                (joined uid node.code node.type)))

    -- `handlerNodePong`
    unfoldable pub handler_node_pong : IoPacket NodeMessage → NetEngine → Result NetEngine
    unfolding accept_pong for_us read_hello
    handler_node_pong packet e = elim packet.message [
      | none ↦ refuse e packet.uid
      | some other_message ↦ refuse e packet.uid
      | some (serialized m) ↦ read_hello h m >>= λ x.
          if not (for_us e.user x)
          then refuse e packet.uid
          else elim (e.user.connecting_nodes packet.uid) [
            | none ↦ refuse e packet.uid
            | some p ↦ accept_pong e packet.uid p x
          ]
    ]

    -- `onConnect`
    unfoldable pub on_connect : ℕ → Bool → NetEngine → Result NetEngine
    unfolding send_hello
    on_connect uid success e = elim (e.user.connecting_nodes uid) [
      | none ↦ ok e
      | some p ↦
          let node = e.user.nodes p in
          if success then send_hello e node.uid ping node.code node.type else ok e
    ]

  -- The end of `connectNode` and of a round of `onTimer1000ms`: the node at `p` has this uid.
  unfoldable pub connecting : NetEngine → ℕ → ℕ → NetEngine
  unfolding with_nodes set_uid
  connecting e p uid =
      let n = set_uid e.user p uid in
      if uid == 0
      then with_nodes e n
      else with_nodes e (record n { connecting_nodes = put n.connecting_nodes uid (some p) })

  -- `onTimer1000ms` after that of IOEngine: the codes in the order of the map, each with the key that
  -- the pool hands out and the protocol that `create` makes.
  unfoldable pub reconnect_all : NetEngine → List (ℕ × ℕ × ℕ) → Result NetEngine
  unfolding connecting
  reconnect_all e [] = ok e
  reconnect_all e ((code, key, q) ∷ rest) = elim (e.user.connect_nodes code) [
    | none ↦ reconnect_all e rest
    | some p ↦
        let node = e.user.nodes p in
        if not (node.uid == 0) then reconnect_all e rest else (do
          r ← connect core key e node.host node.port q
          reconnect_all (connecting r.1 p r.0) rest)
  ]

  -- `connectNode`
  unfoldable pub connect_node : ℕ → NetEngine → ℕ → ℕ → List ℕ → ℕ → ℕ → Result (ℕ × NetEngine)
  unfolding make_node with_nodes set_uid
  connect_node key e code type ip port q =
      if is_some (e.user.connect_nodes code) then ok (0, e) else do
        let made = make_node e.user (record {
          uid = 0;
          code = code;
          type = type;
          host = ip;
          port = port;
          protocol = some q;
          info = [];
        })
        let t = (core.insert made.1.connect_nodes code made.0).0
        r ← connect core key (with_nodes e (record made.1 { connect_nodes = t })) ip port q
        let n = set_uid r.1.user made.0 r.0
        let t' = (core.insert n.connecting_nodes r.0 made.0).0
        ok (r.0, with_nodes r.1 (if r.0 == 0 then n else record n { connecting_nodes = t' }))

  -- `setupNode`, whose own node no table keeps.
  unfoldable pub setup_node :
      ((Packet NodeMessage → Bool) → NetEngine → Result NetEngine)
      → ℕ
      → NetEngine
      → ℕ
      → ℕ
      → ℕ
      → ℕ
      → List ℕ
      → Result (ℕ × NetEngine)
  unfolding with_nodes
  setup_node poll key e code type port q info = if not (e.user.node_uid == 0) then ok (0, e) else do
    (uid, e1) ← listen core key e port q
    let e2 =
        with_nodes e1
          (record e1.user { node_uid = uid; node_code = code; node_type = type; node_info = info })
    let confirmed = (do
      (good, e3) ← confirm_listen core poll e2 uid
      if good
          then ok (e3.user.node_uid, e3)
          else ok (0, with_nodes e3 (record e3.user { node_uid = 0 })))
    if uid == 0 then ok (0, e2) else confirmed

  -- The virtual functions of NetEngine, and the handlers that `onInit` binds for a ping and a pong; the
  -- handlers at other pointers and those of callbacks are the user's.
  unfoldable pub net_hooks :
      Host → (ℕ → ℕ) → ℕ → ℕ → ℕ → Hooks Nodes NodeMessage → Hooks Nodes NodeMessage
  unfolding net_leaves on_accept on_connect handler_node_ping handler_node_pong
  net_hooks h junk now ping_handler pong_handler user = record {
    leaves = net_leaves;
    on_listen = user.on_listen;
    on_accept = on_accept;
    on_connect = on_connect h junk now;
    on_packet = λ p packet.
        if p == ping_handler
        then handler_node_ping h junk now packet
        else if p == pong_handler
        then handler_node_pong h junk now packet
        else user.on_packet p packet;
    on_callback = user.on_callback;
  }

  -- `onInit`
  unfoldable pub on_init : NetEngine → ℕ → ℕ → NetEngine
  on_init e ping_handler pong_handler =
      (bind_packet_handler (bind_packet_handler e ping ping_handler).1 pong pong_handler).1

  -- `onTimer1000ms`, the whole of it.
  unfoldable pub net_timer1000ms :
      Hooks Nodes NodeMessage → ℕ → ℕ → NetEngine → List (ℕ × ℕ × ℕ) → Result NetEngine
  unfolding reconnect_all
  net_timer1000ms hooks rounds now e nodes =
      on_timer1000ms core hooks rounds now e >>= λ e'. reconnect_all e' nodes
