-- ===== src/Engine/NetEngine/Tests.antt =====
-- Runs of NetEngines on one connection.
use zlnet.Base.{
  ℕ, ◌≡◌, refl, arith, [], ◌∷◌, some, none, Bool, true, ◌==◌, Result, ok, returns, if◌then◌else◌,
}
use zlnet.Base.Core.{plain_core, put, is_some, no_entries}
use zlnet.Network.ByteOrder.{Host, little}
use zlnet.Network.IoEvents.{session}
use zlnet.Engine.Messages.{SerializeMessage}
use zlnet.Engine.IoEngine.{Packet, Object, CallbackHandler}
use zlnet.Engine.IoEngine.Callbacks.{ready, network_send}
use zlnet.Engine.IoEngine.Runs.{start}
use zlnet.Engine.NetEngine.{Node, Nodes, NodeMessage, no_nodes, Hello, read_hello, ping, pong}
use zlnet.Engine.NetEngine.Handlers.{NetEngine, with_nodes, on_accept, on_close, handler_node_ping}
use zlnet.Engine.NetEngine.Hellos.{Fits, hello-RoundTrip}
use zlnet.Engine.NetEngine.Handshake.{
  hello_of, hello_packet, greeted, Greeting, handler_node_ping_lem, handler_node_pong-ping,
}
use zlnet.Engine.NetEngine.Peers.{connected_after}
use zlnet.Engine.NetEngine.Runs.{
  Reachable, begins, calls, accepted, ping_packet, closed, perform, Reachable-Told,
}

abbrev zeros : ℕ → ℕ
zeros _ = 0

abbrev host : Host
host = record { endian = little; long_size = 8 }

abbrev blank : Node
blank = record { uid = 0; code = 0; type = 0; host = []; port = 0; protocol = none; info = [] }

-- Every protocol is available.
abbrev objects : ℕ → Object
objects p = record { key = p; kind = session; available = true; has_queue = true; callbacks = [] }

abbrev handlers : ℕ → CallbackHandler
handlers p = record { uid = 0; cb_id = 0; to_ms = 0; cmd = 0; shared = true }

-- An engine whose connections have the uids 5 and 6.
abbrev engine : Nodes → NetEngine
unfolding start
engine n = record (start objects handlers n) {
  protocols = λ uid. if uid == 5 then some 3 else if uid == 6 then some 4 else none;
}

abbrev nobody : Nodes
unfolding no_nodes
nobody = no_nodes (λ _. blank)

-- The node 7 of type 2 connects, at uid 5, to the node 8 of type 1, which accepted it at uid 6.
abbrev client : NetEngine
client = engine (record nobody {
  node_code = 7;
  node_type = 2;
  node_info = 99 ∷ [];
  connecting_nodes = λ uid. if uid == 5 then some 0 else none;
  nodes = λ _. record blank { uid = 5; code = 8; type = 1 };
  next_node = 1;
})

abbrev server : NetEngine
server = engine (record nobody {
  node_uid = 4;
  node_code = 8;
  node_type = 1;
  node_info = 97 ∷ 98 ∷ [];
  accepted_nodes = λ uid. if uid == 6 then some 6 else none;
})

client-Fits : Fits (hello_of client.user 8 1)
unfolding engine
client-Fits = omega arith

server-Fits : Fits (hello_of server.user 7 2)
unfolding engine
server-Fits = omega arith

handler_node_pong-ping_example : Greeting plain_core host zeros 1000 client server 5 6 0
unfolding ready engine nobody
handler_node_pong-ping_example =
    handler_node_pong-ping plain_core host zeros 1000 client server 5 6 3 4 0 refl refl refl refl
      refl refl refl refl refl client-Fits server-Fits

-- The same client pings a new engine, which has the code 0, and its connection closes.
abbrev called : Hello
called = hello_of client.user 0 0

called-Fits : Fits called
unfolding engine
called-Fits = omega arith

abbrev call : SerializeMessage
call = (hello-RoundTrip host zeros called called-Fits).0

abbrev waiting : NetEngine
waiting = with_nodes (engine nobody) (record nobody { accepted_nodes = put no_entries 6 (some 6) })

answer-Fits : Fits (hello_of waiting.user 7 2)
unfolding engine with_nodes nobody
answer-Fits = omega arith

answered :
    (m : SerializeMessage) × (handler_node_ping plain_core host zeros 1000
        (hello_packet 6 ping call)
        waiting
      ≡ ok (
          with_nodes
            (network_send waiting (hello_packet 6 pong m))
            (greeted plain_core host zeros 1000 waiting.user 6 called)))
    × (read_hello host m ≡ ok (hello_of waiting.user 7 2))
unfolding engine with_nodes nobody ready put
answered =
    handler_node_ping_lem plain_core host zeros 1000 waiting 6 4 call called
      (hello-RoundTrip host zeros called called-Fits).4 refl refl refl refl refl answer-Fits

abbrev talking : NetEngine
talking =
    with_nodes (network_send waiting (hello_packet 6 pong answered.0))
      (greeted plain_core host zeros 1000 waiting.user 6 called)

abbrev over : NetEngine
over = with_nodes talking (on_close plain_core 6 talking.user)

abbrev poll : (Packet NodeMessage → Bool) → NetEngine → Result NetEngine
poll condition e = ok e

over-Reachable : Reachable plain_core host zeros poll over
unfolding engine with_nodes nobody perform on_accept plain_core
over-Reachable =
    calls 3000 talking (closed 6) over
      (calls 1000 waiting (ping_packet (hello_packet 6 ping call)) talking
        (calls 0 (engine nobody) (accepted 6 0) waiting (begins (engine nobody) (λ _. blank) refl)
          refl)
        answered.1)
      refl

Reachable-Told_example : connected_after 6 over.user.reports ≡ some (is_some (over.user.peers 6))
Reachable-Told_example =
    Reachable-Told plain_core host zeros poll (λ condition e t. returns t) over over-Reachable 6
