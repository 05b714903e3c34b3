-- ===== src/Engine/NetEngine/Peers.antt =====
-- engine/NetEngine.cpp: the peers, and what onNodeConnect and onNodeDisConnect are told of them.
use zlnet.Base.{
  ℕ, ◌≡◌, refl, ◌∙◌, ◌⊎◌, List, [], ◌∷◌, Option, none, some, Bool, true, false, ◌==◌, if◌then◌else◌,
  Bool-cases, inl, inr, arith,
}
use zlnet.Base.Core.{Core, Table, put, is_some}
use zlnet.Engine.NetEngine.{Node, Nodes, no_nodes, Report, joined, left}
use zlnet.Engine.NetEngine.Handlers.{
  set_uid, report, leave_peer, on_unlisten, on_close, on_disconnect,
}

-- A connect where the uid is not connected, or a disconnect where it is.
step_join : Option Bool → Option Bool
step_join (some false) = some true
step_join (some true) = none
step_join none = none

step_leave : Option Bool → Option Bool
step_leave (some true) = some false
step_leave (some false) = none
step_leave none = none

-- Whether the uid is connected after the reports, latest first; `none` where one was out of turn.
pub connected_after : ℕ → List Report → Option Bool
unfolding step_join step_leave
connected_after uid [] = some false
connected_after uid (joined k code type ∷ rs) =
    let before = connected_after uid rs in if k == uid then step_join before else before
connected_after uid (left k ∷ rs) =
    let before = connected_after uid rs in if k == uid then step_leave before else before

-- The reports of each uid take turns, and the table of the peers has the uids that are connected.
abbrev pub Told : Nodes → Type 0
Told n = (uid : ℕ) → connected_after uid n.reports ≡ some (is_some (n.peers uid))

pub no_nodes-Told : (nodes : ℕ → Node) → Told (no_nodes nodes)
unfolding no_nodes connected_after
no_nodes-Told nodes uid = refl

-- A new peer that is reported.
pub joined-Told :
    (n : Nodes) (uid p code type : ℕ)
    → n.peers uid ≡ none
    → Told n
    → Told
        (record n { peers = put n.peers uid (some p); reports = joined uid code type ∷ n.reports })
unfolding connected_after step_join put
joined-Told n uid p code type free t j = elim (Bool-cases (uid == j)) [
  | inl same ↦
      let at : uid ≡ j = ground (arith) in
      let before : connected_after j n.reports ≡ some false = rw (← at) (t uid ∙ rw free refl) in
      rw (same, before) refl
  | inr other ↦ rw other (t j)
]

module _ (core : Core) where
  left-Told :
      (n : Nodes) (uid p : ℕ)
      → n.peers uid ≡ some p
      → Told n
      → Told (record n { peers = (core.remove n.peers uid).0; reports = left uid ∷ n.reports })
  unfolding connected_after step_leave put
  left-Told n uid p there t j = elim (Bool-cases (uid == j)) [
    | inl same ↦
        let at : uid ≡ j = ground (arith) in
        let before : connected_after j n.reports ≡ some true = rw (← at) (t uid ∙ rw there refl) in
        rw (core.remove_lem n.peers uid, same, before) refl
    | inr other ↦ rw (core.remove_lem n.peers uid, other) (t j)
  ]

  leave_peer-Told : (uid : ℕ) (n : Nodes) → Told n → Told (leave_peer core uid n)
  unfolding leave_peer set_uid report
  leave_peer-Told uid n t = go (n.peers uid) refl
    where
      go : (o : Option ℕ) → n.peers uid ≡ o → Told (leave_peer core uid n)
      go none e = rw (leave_peer, e) t
      go (some p) e = rw (leave_peer, e) (left-Told n uid p e t)

  pub on_unlisten-Told : (uid : ℕ) (n : Nodes) → Told n → Told (on_unlisten core uid n)
  unfolding on_unlisten
  on_unlisten-Told uid n t = elim (Bool-cases (uid == n.node_uid)) [
    | inl own ↦ rw (on_unlisten, own) t
    | inr other ↦ rw (on_unlisten, other) t
  ]

  pub on_close-Told : (uid : ℕ) (n : Nodes) → Told n → Told (on_close core uid n)
  unfolding on_close
  on_close-Told uid n t = leave_peer-Told uid _ t

  pub on_disconnect-Told : (uid : ℕ) (n : Nodes) → Told n → Told (on_disconnect core uid n)
  unfolding on_disconnect set_uid
  on_disconnect-Told uid n t = go (n.connecting_nodes uid) refl
    where
      go : (o : Option ℕ) → n.connecting_nodes uid ≡ o → Told (on_disconnect core uid n)
      go none e = rw (on_disconnect, e) (leave_peer-Told uid n t)
      go (some p) e = rw (on_disconnect, e) (leave_peer-Told uid _ t)

  -- An insertion keeps what is there.
  pub insert_cases :
      (t : Table) (k v : ℕ)
      → ((is_some (t k) ≡ true) × (core.insert t k v ≡ (t, false)))
        ⊎ ((t k ≡ none) × (core.insert t k v ≡ (put t k (some v), true)))
  insert_cases t k v = go (t k) refl
    where
      go :
          (o : Option ℕ)
          → t k ≡ o
          → ((is_some (t k) ≡ true) × (core.insert t k v ≡ (t, false)))
            ⊎ ((t k ≡ none) × (core.insert t k v ≡ (put t k (some v), true)))
      go none e = inr (e, core.insert_lem t k v ∙ rw e refl)
      go (some q) e = inl (rw e refl, core.insert_lem t k v ∙ rw e refl)
