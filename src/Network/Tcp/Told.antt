-- ===== src/Network/Tcp/Told.antt =====
-- network/TCP_Network.cpp: what a session's protocol is told of its close.
use zlnet.Base.{ℕ, suc, ◌≡◌, refl, List, [], ◌∷◌, ◌++◌, Option, true, ◌==◌, if◌then◌else◌, arith}
use zlnet.Network.IoEvents.{session}
use zlnet.Network.Connections.{
  Connection, ConnectState, disconnected, connecting, connected, disconnecting, same_state, Note,
  on_listen, on_unlisten, on_accept, on_close, on_connect, on_disconnect,
}

-- How often the protocol with the key was told that its connection closed.
unfoldable pub closes : ℕ → List Note → ℕ
closes key [] = 0
closes key (on_close k ∷ notes) = if k == key then suc (closes key notes) else closes key notes
closes key (on_listen k success ∷ notes) = closes key notes
closes key (on_unlisten k ∷ notes) = closes key notes
closes key (on_accept k from ∷ notes) = closes key notes
closes key (on_connect k success ∷ notes) = closes key notes
closes key (on_disconnect k ∷ notes) = closes key notes

pub closes-close :
    (key : ℕ) (notes : List Note) → closes key (notes ++ on_close key ∷ []) ≡ suc (closes key notes)
unfolding closes
closes-close key [] = ground arith
closes-close key (on_close k ∷ notes) = ground (arith, closes-close key notes)
closes-close key (on_listen k success ∷ notes) = closes-close key notes
closes-close key (on_unlisten k ∷ notes) = closes-close key notes
closes-close key (on_accept k from ∷ notes) = closes-close key notes
closes-close key (on_connect k success ∷ notes) = closes-close key notes
closes-close key (on_disconnect k ∷ notes) = closes-close key notes

pub closes-accept :
    (key k from : ℕ) (notes : List Note)
    → closes key (notes ++ on_accept k from ∷ []) ≡ closes key notes
unfolding closes
closes-accept key j from [] = refl
closes-accept key j from (on_close k ∷ notes) = ground (arith, closes-accept key j from notes)
closes-accept key j from (on_listen k success ∷ notes) = closes-accept key j from notes
closes-accept key j from (on_unlisten k ∷ notes) = closes-accept key j from notes
closes-accept key j from (on_accept k f ∷ notes) = closes-accept key j from notes
closes-accept key j from (on_connect k success ∷ notes) = closes-accept key j from notes
closes-accept key j from (on_disconnect k ∷ notes) = closes-accept key j from notes

-- A session: its key and its kind, the times that it was told of its close, its state, and its slot.
pub record Session (key told : ℕ) (state : ConnectState) (slot : Option ℕ) (c : Connection)
    (notes : List Note) (t : Option ℕ) : Type 0 where
  pub keyed : c.io.key ≡ key
  pub kind : c.kind ≡ session
  pub state_is : c.state ≡ state
  pub told_is : closes key notes ≡ told
  pub slot_is : t ≡ slot

pub same_state-eq : (s : ConnectState) → same_state s disconnecting ≡ true → s ≡ disconnecting
unfolding same_state
same_state-eq disconnecting e = refl
same_state-eq disconnected e = cc
same_state-eq connecting e = cc
same_state-eq connected e = cc
