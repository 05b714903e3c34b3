-- ===== src/Engine/NetEngine/Handshake.antt =====
-- engine/NetEngine.cpp: two NetEngines, one that connects to the other's node, and the ping and the pong
-- between them.
use zlnet.Base.{ℕ, ◌≡◌, refl, ap, ◌∙◌, arith, [], ◌∷◌, ◌++◌, some, none, true, false, ◌==◌, ok}
use zlnet.Base.Core.{Core, put, is_some}
use zlnet.Network.ByteOrder.{Host}
use zlnet.Network.IoEvents.{data_event}
use zlnet.Engine.Messages.{IoPacket, SerializeMessage}
use zlnet.Engine.IoEngine.Callbacks.{send, send_call, ready, network_send}
use zlnet.Engine.NetEngine.{
  Node, Nodes, joined, NodeMessage, serialized, Hello, read_hello, ping, pong,
}
use zlnet.Engine.NetEngine.Handlers.{
  NetEngine, with_nodes, make_node, report, send_hello, accept_ping, for_us, handler_node_ping,
  accept_pong, handler_node_pong, on_connect,
}
use zlnet.Engine.NetEngine.Hellos.{Fits, hello-RoundTrip}

-- What the node of an engine tells another.
abbrev pub hello_of : Nodes → ℕ → ℕ → Hello
hello_of n code type = record {
  from_code = n.node_code;
  from_type = n.node_type;
  info = n.node_info;
  to_code = code;
  to_type = type;
}

-- A packet of a greeting.
abbrev pub hello_packet : ℕ → ℕ → SerializeMessage → IoPacket NodeMessage
hello_packet uid cmd m = record {
  uid = uid;
  cmd = cmd;
  callback_id = 0;
  error = 0;
  message = some (serialized m);
}

module _ (core : Core) (h : Host) (junk : ℕ → ℕ) (now : ℕ) where
  send_hello_lem :
      (e : NetEngine) (uid o cmd code type : ℕ)
      → ready e uid ≡ some o
      → (cmd == 0) ≡ false
      → Fits (hello_of e.user code type)
      → (m : SerializeMessage) × (send_hello core h junk now e uid cmd code type
          ≡ ok (network_send e (hello_packet uid cmd m)))
        × (read_hello h m ≡ ok (hello_of e.user code type))
  unfolding send_hello send send_call
  send_hello_lem e uid o cmd code type usable real f =
      let (m, e1, _, _, back) = hello-RoundTrip h junk (hello_of e.user code type) f in
      (m, rw (e1, real, usable) refl, back)

  -- The one that connects sends a ping.
  on_connect_lem :
      (e : NetEngine) (uid o p : ℕ)
      → e.user.connecting_nodes uid ≡ some p
      → (e.user.nodes p).uid ≡ uid
      → ready e uid ≡ some o
      → Fits (hello_of e.user (e.user.nodes p).code (e.user.nodes p).type)
      → (m : SerializeMessage) × (on_connect core h junk now uid true e
          ≡ ok (network_send e (hello_packet uid ping m)))
        × (read_hello h m ≡ ok (hello_of e.user (e.user.nodes p).code (e.user.nodes p).type))
  unfolding on_connect
  on_connect_lem e uid o p found own usable f =
      let node = e.user.nodes p in
      let (m, s, back) = send_hello_lem e uid o ping node.code node.type usable refl f in
      (m, rw (on_connect, found, own) s, back)

  -- The server's nodes after a ping.
  abbrev pub greeted : Nodes → ℕ → Hello → Nodes
  greeted n uid x =
      let node : Node = record {
        uid = uid;
        code = x.from_code;
        type = x.from_type;
        host = [];
        port = 0;
        protocol = none;
        info = x.info;
      } in
      record (make_node n node).1 {
        peers = put n.peers uid (some n.next_node);
        reports = joined uid x.from_code x.from_type ∷ n.reports;
      }

  pub handler_node_ping_lem :
      (e : NetEngine) (uid o : ℕ) (m : SerializeMessage) (x : Hello)
      → read_hello h m ≡ ok x
      → x.to_code ≡ e.user.node_code
      → x.to_type ≡ e.user.node_type
      → is_some (e.user.accepted_nodes uid) ≡ true
      → e.user.peers uid ≡ none
      → ready e uid ≡ some o
      → Fits (hello_of e.user x.from_code x.from_type)
      → (m' : SerializeMessage) × (handler_node_ping core h junk now (hello_packet uid ping m) e
          ≡ ok (with_nodes (network_send e (hello_packet uid pong m')) (greeted e.user uid x)))
        × (read_hello h m' ≡ ok (hello_of e.user x.from_code x.from_type))
  unfolding handler_node_ping accept_ping for_us make_node with_nodes report network_send ready
  handler_node_ping_lem e uid o m x read code type accepted free usable f =
      let made = make_node e.user (record {
        uid = uid;
        code = x.from_code;
        type = x.from_type;
        host = [];
        port = 0;
        protocol = none;
        info = x.info;
      }) in
      let e1 = with_nodes e (record made.1 { peers = put e.user.peers uid (some made.0) }) in
      let new : core.insert e.user.peers uid e.user.next_node
          ≡ (put e.user.peers uid (some e.user.next_node), true) =
        core.insert_lem e.user.peers uid e.user.next_node ∙ rw free refl in
      let (m', s, back) = send_hello_lem e1 uid o pong x.from_code x.from_type usable refl f in
      (m', rw (read, code, type, accepted, new, s) (ground arith), back)

  -- The client's nodes after the pong.
  abbrev pub met : Nodes → ℕ → ℕ → Hello → Nodes
  met n uid p x = record n {
    accepted_nodes = (core.remove n.accepted_nodes uid).0;
    peers = put n.peers uid (some p);
    nodes = put n.nodes p (record (n.nodes p) { info = x.info });
    reports = joined uid (n.nodes p).code (n.nodes p).type ∷ n.reports;
  }

  handler_node_pong_lem :
      (e : NetEngine) (uid p : ℕ) (m : SerializeMessage) (x : Hello)
      → read_hello h m ≡ ok x
      → x.to_code ≡ e.user.node_code
      → x.to_type ≡ e.user.node_type
      → e.user.connecting_nodes uid ≡ some p
      → (e.user.nodes p).code ≡ x.from_code
      → (e.user.nodes p).type ≡ x.from_type
      → e.user.peers uid ≡ none
      → handler_node_pong core h junk now (hello_packet uid pong m) e
        ≡ ok (with_nodes e (met e.user uid p x))
  unfolding handler_node_pong accept_pong for_us with_nodes report
  handler_node_pong_lem e uid p m x read code type found from_code from_type free =
      let new : core.insert e.user.peers uid p ≡ (put e.user.peers uid (some p), true) =
        core.insert_lem e.user.peers uid p ∙ rw free refl in
      rw (read, code, type, found, from_code, from_type, new) (ground arith)

  put_at {ℓ} : {A : Type ℓ} (t : ℕ → A) (k : ℕ) (a : A) → put t k a k ≡ a
  unfolding put
  put_at t k a = ground (arith)

  -- The ping and the pong, and the nodes of both sides after them. `c` and `s` are the uids of the
  -- connection on the two sides, and `p` is the client's node.
  abbrev pub Greeting : NetEngine → NetEngine → ℕ → ℕ → ℕ → Type 0
  Greeting client server c s p =
      (m m' : SerializeMessage) × (client1 server1 client2 : NetEngine) × (on_connect core h junk
          now c true client
        ≡ ok client1)
      × (client1.events ≡ client.events ++ data_event c (hello_packet c ping m) ∷ [])
      × (handler_node_ping core h junk now (hello_packet s ping m) server ≡ ok server1)
      × (server1.events ≡ server.events ++ data_event s (hello_packet s pong m') ∷ [])
      × (handler_node_pong core h junk now (hello_packet c pong m') client1 ≡ ok client2)
      × (client2.user
          ≡ met client.user c p (hello_of server.user client.user.node_code client.user.node_type))
      × (server1.user
          ≡ greeted server.user s
              (hello_of client.user server.user.node_code server.user.node_type))

  -- Where a client's open connection belongs to a node that it connects to, with the code and the
  -- type of a server's own node, the server has accepted the connection, neither has a peer on it,
  -- and codes, types and infos fit their wire form: onConnect of the client asks the network to
  -- send a ping, the server answers that message with a pong, and the client takes that one;
  -- afterwards the server's peer has the client's code, type and info, the client's peer is the
  -- node, with the server's info, and each side was told of the other by onNodeConnect.
  pub handler_node_pong-ping :
      (client server : NetEngine) (c s oc os p : ℕ)
      → client.user.connecting_nodes c ≡ some p
      → (client.user.nodes p).uid ≡ c
      → (client.user.nodes p).code ≡ server.user.node_code
      → (client.user.nodes p).type ≡ server.user.node_type
      → client.user.peers c ≡ none
      → ready client c ≡ some oc
      → is_some (server.user.accepted_nodes s) ≡ true
      → server.user.peers s ≡ none
      → ready server s ≡ some os
      → Fits (hello_of client.user server.user.node_code server.user.node_type)
      → Fits (hello_of server.user client.user.node_code client.user.node_type)
      → Greeting client server c s p
  unfolding network_send with_nodes
  handler_node_pong-ping client server c s oc os p found own code type new_c usable_c accepted new_s
        usable_s fits_c fits_s =
      let target : hello_of client.user (client.user.nodes p).code (client.user.nodes p).type
          ≡ hello_of client.user server.user.node_code server.user.node_type =
        rw (code, type) refl in
      let (m, sends, read) = on_connect_lem client c oc p found own usable_c (rw target fits_c) in
      let (m', answers, read') =
        handler_node_ping_lem server s os m _ (read ∙ ap ok target) refl refl accepted new_s
          usable_s fits_s in
      (
        m,
        m',
        network_send client (hello_packet c ping m),
        _,
        _,
        sends,
        refl,
        answers,
        refl,
        handler_node_pong_lem (network_send client (hello_packet c ping m)) c p m' _ read' refl refl
            found code type new_c,
        refl,
        refl,
      )
