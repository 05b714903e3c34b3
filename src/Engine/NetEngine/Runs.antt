-- ===== src/Engine/NetEngine/Runs.antt =====
-- engine/NetEngine.cpp: the states that a NetEngine reaches, and the reports of its peers there.
use zlnet.Base.{
  ℕ, ◌≡◌, sym, subst, List, some, Bool, not, ◌==◌, Result, ok, ◌>>=◌, Ensures, returns, if-Ensures,
  >>=-Ensures, eq-of-Ensures,
}
use zlnet.Base.Core.{Core, is_some}
use zlnet.Network.ByteOrder.{Host}
use zlnet.Engine.Messages.{IoPacket}
use zlnet.Engine.IoEngine.{Packet}
use zlnet.Engine.IoEngine.User.{KeepsUser, listen-user, confirm_listen-user}
use zlnet.Engine.NetEngine.{Node, no_nodes, NodeMessage}
use zlnet.Engine.NetEngine.Handlers.{
  NetEngine, with_nodes, on_unlisten, on_close, on_disconnect, refuse, on_accept, handler_node_ping,
  handler_node_pong, on_connect, reconnect_all, connect_node, setup_node,
}
use zlnet.Engine.NetEngine.Peers.{
  Told, connected_after, no_nodes-Told, on_unlisten-Told, on_close-Told, on_disconnect-Told,
}
use zlnet.Engine.NetEngine.Keeping.{
  refuse-Told, on_accept-Told, on_connect-Told, handler_node_ping-Told, handler_node_pong-Told,
  reconnect_all-Told, connect_node-Told,
}

-- What calls a NetEngine: the packets of a ping or a pong, the virtual functions, the timer and the
-- owner, each with what the key pool and `create` hand out.
pub data NetCall : Type 0 where
  ping_packet pong_packet : IoPacket NodeMessage → NetCall
  unlistened closed disconnected closing : (uid : ℕ) → NetCall
  accepted : (uid from : ℕ) → NetCall
  connects : (uid : ℕ) (success : Bool) → NetCall
  second_over : List (ℕ × ℕ × ℕ) → NetCall
  connecting_to : (key code type : ℕ) (ip : List ℕ) (port protocol : ℕ) → NetCall
  setting_up : (key code type port protocol : ℕ) (info : List ℕ) → NetCall

module _ (core : Core) (h : Host) (junk : ℕ → ℕ)
    (poll : (Packet NodeMessage → Bool) → NetEngine → Result NetEngine) where
  unfoldable pub perform : ℕ → NetEngine → NetCall → Result NetEngine
  unfolding with_nodes
  perform now e (ping_packet packet) = handler_node_ping core h junk now packet e
  perform now e (pong_packet packet) = handler_node_pong core h junk now packet e
  perform now e (unlistened uid) = ok (with_nodes e (on_unlisten core uid e.user))
  perform now e (closed uid) = ok (with_nodes e (on_close core uid e.user))
  perform now e (disconnected uid) = ok (with_nodes e (on_disconnect core uid e.user))
  perform now e (closing uid) = refuse core e uid
  perform now e (accepted uid from) = on_accept core uid from e
  perform now e (connects uid success) = on_connect core h junk now uid success e
  perform now e (second_over nodes) = reconnect_all core e nodes
  perform now e (connecting_to key code type ip port q) =
      connect_node core key e code type ip port q >>= λ r. ok r.1
  perform now e (setting_up key code type port q info) =
      setup_node core poll key e code type port q info >>= λ r. ok r.1

  -- The states of a NetEngine: new, after a call, or after anything that IOEngine does by itself.
  pub data Reachable : NetEngine → Type 0 where
    begins : (e : NetEngine) (nodes : ℕ → Node) → e.user ≡ no_nodes nodes → Reachable e
    calls :
        (now : ℕ) (e : NetEngine) (call : NetCall) (e' : NetEngine)
        → Reachable e
        → perform now e call ≡ ok e'
        → Reachable e'
    goes_on : (e e' : NetEngine) → Reachable e → e'.user ≡ e.user → Reachable e'

  module _
      (poll_keeps : (condition : Packet NodeMessage → Bool)
        → KeepsUser core Told (poll condition)) where
    setup_node-Told :
        (key : ℕ) (e : NetEngine) (code type port q : ℕ) (info : List ℕ)
        → Told e.user
        → Ensures (λ r. Told r.1.user) (setup_node core poll key e code type port q info)
    unfolding setup_node with_nodes
    setup_node-Told key e code type port q info t =
        if-Ensures (not (e.user.node_uid == 0)) _ _ (returns t) (
          >>=-Ensures _ (listen-user core key e port q) (λ r same.
            let t1 : Told r.1.user = subst Told (sym same) t in
            if-Ensures (r.0 == 0) _ _ (returns t1) (
              >>=-Ensures _ (confirm_listen-user core Told poll poll_keeps _ r.0 t1)
                (λ r3 t3. if-Ensures r3.0 _ _ (returns t3) (returns t3)))))

    perform-Told : (now : ℕ) (call : NetCall) → KeepsUser core Told (λ e. perform now e call)
    unfolding perform with_nodes
    perform-Told now (ping_packet packet) e t = handler_node_ping-Told core h junk now packet e t
    perform-Told now (pong_packet packet) e t = handler_node_pong-Told core h junk now packet e t
    perform-Told now (unlistened uid) e t = returns (on_unlisten-Told core uid e.user t)
    perform-Told now (closed uid) e t = returns (on_close-Told core uid e.user t)
    perform-Told now (disconnected uid) e t = returns (on_disconnect-Told core uid e.user t)
    perform-Told now (closing uid) e t = refuse-Told core h junk uid e t
    perform-Told now (accepted uid from) e t = on_accept-Told core h junk uid from e t
    perform-Told now (connects uid success) e t = on_connect-Told core h junk now uid success e t
    perform-Told now (second_over nodes) e t = reconnect_all-Told core h junk nodes e t
    perform-Told now (connecting_to key code type ip port q) e t =
        >>=-Ensures _ (connect_node-Told core h junk key e code type ip port q t) (λ r j. returns j)
    perform-Told now (setting_up key code type port q info) e t =
        >>=-Ensures _ (setup_node-Told key e code type port q info t) (λ r j. returns j)

    -- In every state that a NetEngine reaches from its constructor by pings, pongs, its virtual
    -- functions, closes, its timer, connectNode and setupNode, and by anything that leaves its own
    -- fields alone, where the polling in confirmListen keeps the same: for each uid, onNodeConnect
    -- and onNodeDisConnect were told in turn, a connect first, and the table of the peers has the
    -- uid where the last was a connect, and only there.
    pub Reachable-Told :
        (e : NetEngine)
        → Reachable e
        → (uid : ℕ) → connected_after uid e.user.reports ≡ some (is_some (e.user.peers uid))
    Reachable-Told e (begins _ nodes new) = subst Told (sym new) (no_nodes-Told nodes)
    Reachable-Told e (calls now e0 call _ r done) =
        eq-of-Ensures (perform-Told now call e0 (Reachable-Told e0 r)) done
    Reachable-Told e (goes_on e0 _ r same) = subst Told (sym same) (Reachable-Told e0 r)
