-- ===== src/Engine/NetEngine/Keeping.antt =====
-- engine/NetEngine.cpp: each handler and each virtual function keeps what is known of the reports.
use zlnet.Base.{
  ℕ, ◌≡◌, refl, sym, subst, List, [], ◌∷◌, Option, none, some, Bool, not, ◌==◌, ◌&&◌, if◌then◌else◌,
  Bool-cases, inl, inr, Result, ◌>>=◌, Ensures, Ensures-any, Ensures-map, returns, if-Ensures,
  >>=-Ensures,
}
use zlnet.Base.Core.{Core, put, is_some}
use zlnet.Network.ByteOrder.{Host}
use zlnet.Engine.Messages.{IoPacket}
use zlnet.Engine.IoEngine.Protocols.{connect}
use zlnet.Engine.IoEngine.User.{KeepsUser, send-user, connect-user, close-user}
use zlnet.Engine.NetEngine.{
  Node, Nodes, joined, NodeMessage, serialized, other_message, Hello, hello_message, read_hello,
  ping, pong,
}
use zlnet.Engine.NetEngine.Handlers.{
  NetEngine, with_nodes, make_node, set_uid, report, net_leaves, refuse, on_accept, send_hello,
  accept_ping, for_us, handler_node_ping, accept_pong, handler_node_pong, on_connect, connecting,
  reconnect_all, connect_node,
}
use zlnet.Engine.NetEngine.Peers.{
  Told, joined-Told, on_unlisten-Told, on_close-Told, on_disconnect-Told, insert_cases,
}

module _ (core : Core) (h : Host) (junk : ℕ → ℕ) where
  abbrev ToldIn : NetEngine → Type 0
  ToldIn e = Told e.user

  pub refuse-Told : (uid : ℕ) → KeepsUser core Told (λ e. refuse core e uid)
  unfolding refuse net_leaves with_nodes
  refuse-Told uid =
      close-user core Told (net_leaves core) (λ k e t. returns (on_unlisten-Told core k e.user t))
        (λ k e t. returns (on_close-Told core k e.user t))
        (λ k e t. returns (on_disconnect-Told core k e.user t)) uid

  pub on_accept-Told : (uid from : ℕ) → KeepsUser core Told (on_accept core uid from)
  unfolding on_accept with_nodes
  on_accept-Told uid from e t = if-Ensures (not (e.user.node_uid == from)) _ _ (returns t) (
      if-Ensures (core.insert e.user.accepted_nodes uid uid).1 _ _ (returns t)
        (refuse-Told uid _ t))

  module _ (now : ℕ) where
    send_hello-user :
        (e : NetEngine) (uid cmd code type : ℕ)
        → Ensures (λ e'. e'.user ≡ e.user) (send_hello core h junk now e uid cmd code type)
    unfolding send_hello
    send_hello-user e uid cmd code type =
        >>=-Ensures _ (Ensures-any (hello_message h junk _)) (λ m _. send-user core now e _)

    kept :
        (e : NetEngine) {m : Result NetEngine}
        → Told e.user
        → Ensures (λ e'. e'.user ≡ e.user) m
        → Ensures ToldIn m
    kept e t k = Ensures-map (λ e' same. subst Told (sym same) t) k

    pub on_connect-Told :
        (uid : ℕ) (success : Bool) → KeepsUser core Told (on_connect core h junk now uid success)
    unfolding on_connect
    on_connect-Told uid success e t = go (e.user.connecting_nodes uid) refl
      where
        go :
            (o : Option ℕ)
            → e.user.connecting_nodes uid ≡ o
            → Ensures ToldIn (on_connect core h junk now uid success e)
        go none f = rw (on_connect, f) (returns t)
        go (some p) f =
            rw (on_connect, f)
              (if-Ensures success _ _
                (kept e t (
                  send_hello-user e (e.user.nodes p).uid ping (e.user.nodes p).code
                    (e.user.nodes p).type))
                (returns t))

    accept_ping-Told :
        (uid : ℕ) (x : Hello) → KeepsUser core Told (λ e. accept_ping core h junk now e uid x)
    unfolding accept_ping make_node with_nodes
    accept_ping-Told uid x e t = elim (insert_cases core e.user.peers uid e.user.next_node) [
      | inl there ↦
          rw (accept_ping, there.1)
            (if-Ensures (not (is_some (e.user.accepted_nodes uid))) _ _ (refuse-Told uid e t)
              (refuse-Told uid _ t))
      | inr free ↦
          rw (accept_ping, free.1)
            (if-Ensures (not (is_some (e.user.accepted_nodes uid))) _ _ (refuse-Told uid e t) (
              >>=-Ensures _ (send_hello-user _ uid pong x.from_code x.from_type)
                (λ e2 same. returns (reported e2 same free.0))))
    ]
      where
        node : Node
        node = record {
          uid = uid;
          code = x.from_code;
          type = x.from_type;
          host = [];
          port = 0;
          protocol = none;
          info = x.info;
        }

        with_peer : Nodes
        with_peer = record (make_node e.user node).1 {
          peers = put e.user.peers uid (some e.user.next_node);
        }

        reported :
            (e2 : NetEngine)
            → e2.user ≡ with_peer
            → e.user.peers uid ≡ none
            → Told (report e2.user (joined uid x.from_code x.from_type))
        reported e2 same free =
            subst (λ n. Told (report n (joined uid x.from_code x.from_type))) (sym same)
              (joined-Told (make_node e.user node).1 uid e.user.next_node x.from_code x.from_type
                free t)

    pub handler_node_ping-Told :
        (packet : IoPacket NodeMessage)
        → KeepsUser core Told (handler_node_ping core h junk now packet)
    unfolding handler_node_ping
    handler_node_ping-Told packet e t = go packet.message refl
      where
        go :
            (o : Option NodeMessage)
            → packet.message ≡ o
            → Ensures ToldIn (handler_node_ping core h junk now packet e)
        go none f = rw (handler_node_ping, f) (refuse-Told packet.uid e t)
        go (some other_message) f = rw (handler_node_ping, f) (refuse-Told packet.uid e t)
        go (some (serialized m)) f =
            rw (handler_node_ping, f)
              (>>=-Ensures _ (Ensures-any (read_hello h m)) (λ x _.
                if-Ensures (not (for_us core h junk now e.user x)) _ _ (refuse-Told packet.uid e t)
                  (accept_ping-Told packet.uid x e t)))

    accept_pong-Told :
        (uid p : ℕ) (x : Hello) → KeepsUser core Told (λ e. accept_pong core h junk now e uid p x)
    unfolding accept_pong with_nodes report
    accept_pong-Told uid p x e t =
        let bad =
          not ((e.user.nodes p).code == x.from_code && (e.user.nodes p).type == x.from_type) in
        elim (insert_cases core e.user.peers uid p) [
          | inl there ↦
              rw (accept_pong, there.1)
                (if-Ensures bad _ _ (refuse-Told uid _ t) (refuse-Told uid _ t))
          | inr free ↦
              rw (accept_pong, free.1)
                (if-Ensures bad _ _ (refuse-Told uid _ t) (
                  returns (
                    joined-Told e.user uid p (e.user.nodes p).code (e.user.nodes p).type free.0 t)))
        ]

    -- The node that the uid connects to, where there is one.
    pong_from-Told :
        (packet : IoPacket NodeMessage) (x : Hello) (e : NetEngine)
        → Told e.user
        → (o : Option ℕ)
        → Ensures ToldIn (elim o [
          | none ↦ refuse core e packet.uid
          | some p ↦ accept_pong core h junk now e packet.uid p x
        ])
    pong_from-Told packet x e t none = refuse-Told packet.uid e t
    pong_from-Told packet x e t (some p) = accept_pong-Told packet.uid p x e t

    pub handler_node_pong-Told :
        (packet : IoPacket NodeMessage)
        → KeepsUser core Told (handler_node_pong core h junk now packet)
    unfolding handler_node_pong
    handler_node_pong-Told packet e t = go packet.message refl
      where
        go :
            (o : Option NodeMessage)
            → packet.message ≡ o
            → Ensures ToldIn (handler_node_pong core h junk now packet e)
        go none f = rw (handler_node_pong, f) (refuse-Told packet.uid e t)
        go (some other_message) f = rw (handler_node_pong, f) (refuse-Told packet.uid e t)
        go (some (serialized m)) f =
            rw (handler_node_pong, f)
              (>>=-Ensures _ (Ensures-any (read_hello h m)) (λ x _.
                if-Ensures (not (for_us core h junk now e.user x)) _ _ (refuse-Told packet.uid e t)
                  (pong_from-Told packet x e t (e.user.connecting_nodes packet.uid))))

  connecting-Told : (e : NetEngine) (p uid : ℕ) → Told e.user → Told (connecting core e p uid).user
  unfolding connecting with_nodes set_uid
  connecting-Told e p uid t = elim (Bool-cases (uid == 0)) [
    | inl failed ↦ rw (connecting, failed) t
    | inr made ↦ rw (connecting, made) t
  ]

  pub reconnect_all-Told :
      (nodes : List (ℕ × ℕ × ℕ)) → KeepsUser core Told (λ e. reconnect_all core e nodes)
  unfolding reconnect_all
  reconnect_all-Told [] e t = returns t
  reconnect_all-Told ((code, key, q) ∷ rest) e t =
      go (reconnect_all-Told rest) (e.user.connect_nodes code)
    where
      go :
          KeepsUser core Told (λ e'. reconnect_all core e' rest)
          → (o : Option ℕ)
          → Ensures ToldIn (elim o [
            | none ↦ reconnect_all core e rest
            | some p ↦
                if not ((e.user.nodes p).uid == 0)
                then reconnect_all core e rest
                else connect core key e (e.user.nodes p).host (e.user.nodes p).port q >>= λ r.
                    reconnect_all core (connecting core r.1 p r.0) rest
          ])
      go later none = later e t
      go later (some p) = if-Ensures (not ((e.user.nodes p).uid == 0)) _ _ (later e t) (
          >>=-Ensures _ (connect-user core key e (e.user.nodes p).host (e.user.nodes p).port q)
            (λ r same. later _ (connecting-Told r.1 p r.0 (subst Told (sym same) t))))

  pub connect_node-Told :
      (key : ℕ) (e : NetEngine) (code type : ℕ) (ip : List ℕ) (port q : ℕ)
      → Told e.user
      → Ensures (λ r. Told r.1.user) (connect_node core key e code type ip port q)
  unfolding connect_node make_node with_nodes set_uid
  connect_node-Told key e code type ip port q t =
      if-Ensures (is_some (e.user.connect_nodes code)) _ _ (returns t) (
        >>=-Ensures _ (connect-user core key _ ip port q) (λ r same.
          returns (elim (Bool-cases (r.0 == 0)) [
            | inl failed ↦ rw failed (subst Told (sym same) t)
            | inr made ↦ rw made (subst Told (sym same) t)
          ])))
