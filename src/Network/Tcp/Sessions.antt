-- ===== src/Network/Tcp/Sessions.antt =====
-- network/TCP_Network.cpp: the life of a session, from handleTcpAccept to removeTcpCon, and what its
-- protocol is told.
use zlnet.Base.{
  ℕ, suc, ◌≡◌, refl, sym, subst, ◌⊎◌, ap, ◌∙◌, some, none, Option, Bool, true, false, not, ◌==◌,
  if◌then◌else◌, Bool-cases, inl, inr, ok, null, assertion, Ensures, returns, stops, if-Ensures,
  >>=-Ensures, ◌>>◌, require, arith,
}
use zlnet.Base.Core.{put}
use zlnet.Network.IoEvents.{session}
use zlnet.Network.Poller.{Epoll, IoObject, deregister_object}
use zlnet.Network.Poller.Keys.{deregister_object-key}
use zlnet.Network.Connections.{
  Connection, ConnectState, disconnected, connected, disconnecting, same_state, on_close, Net,
  key_of, remove_object, get_object,
}
use zlnet.Network.Tcp.Closing.{
  note, change, set_state, start_timer, shutdown_write, polled, remove_con, close_slowly,
  close_connection, close_connector, close_con,
}
use zlnet.Network.Tcp.Told.{closes-close, Session, same_state-eq}

module _ {K : Type 0} (epoll : Epoll K) (index : ℕ → ℕ) (p key : ℕ) where
  -- In a state, with a number of notes, in its slot or not.
  abbrev pub Is : ConnectState → ℕ → Option ℕ → Net K → Type 0
  Is state told slot n = Session key told state slot (n.objects p) n.notes (n.table (index key))

  -- Open and told nothing; closing and told once; or removed and told once.
  pub data Life (n : Net K) : Type 0 where
    living : Is connected 0 (some p) n → Life n
    closing : Is disconnecting 1 (some p) n → Life n
    gone : Is disconnected 1 none n → Life n

  pub put_self : (h : ℕ → Connection) (c : Connection) → put h p c p ≡ c
  unfolding put
  put_self h c = elim (Bool-cases (p == p)) [
    | inl same ↦ rw same refl
    | inr other ↦ absurd (ground arith)
  ]

  change-Is :
      {state state' : ConnectState} {told : ℕ} {slot : Option ℕ} (n : Net K) (c : Connection)
      → Is state told slot n
      → c.io.key ≡ key
      → c.kind ≡ session
      → c.state ≡ state'
      → Is state' told slot (change n p c)
  unfolding change
  change-Is n c i k s e = record {
    keyed = rw (put_self n.objects c) k;
    kind = rw (put_self n.objects c) s;
    state_is = rw (put_self n.objects c) e;
    told_is = i.told_is;
    slot_is = i.slot_is;
  }

  set_state-Is :
      {state : ConnectState} {told : ℕ} {slot : Option ℕ} (n : Net K) (state' : ConnectState)
      → Is state told slot n
      → Is state' told slot (set_state n p state')
  unfolding set_state
  set_state-Is n state' i = change-Is n _ i i.keyed i.kind refl

  pub polled-Is :
      {state : ConnectState} {told : ℕ} {slot : Option ℕ} (n : Net K)
      (call : K → IoObject → K × IoObject)
      → ((k : K) (o : IoObject) → (call k o).1.key ≡ o.key)
      → Is state told slot n
      → Is state told slot (polled n p call)
  unfolding polled
  polled-Is n call keeps i =
      let c = record (n.objects p) { io = (call n.kernel (n.objects p).io).1 } in
      let j = change-Is n c i (keeps n.kernel (n.objects p).io ∙ i.keyed) i.kind i.state_is in
      record {
        keyed = j.keyed;
        kind = j.kind;
        state_is = j.state_is;
        told_is = j.told_is;
        slot_is = j.slot_is;
      }

  removed : Net K → Net K
  removed n = record n { table = put n.table (index key) none }

  remove_object-removed :
      (n : Net K) (k : ℕ)
      → k ≡ key
      → key_of n p ≡ key
      → n.table (index key) ≡ some p
      → remove_object index n k ≡ ok (removed n)
  unfolding remove_object removed
  remove_object-removed n k e own slot = rw e (ground (arith))

  -- The slot is empty afterwards.
  remove_object-Life :
      (n : Net K) (k : ℕ)
      → k ≡ key
      → Is disconnected 1 (some p) n
      → Ensures Life (remove_object index n k)
  unfolding removed put
  remove_object-Life n k e i =
      let self : (index key == index key) ≡ true = ground arith in
      subst (Ensures Life) (sym (remove_object-removed n k e i.keyed i.slot_is)) (
        returns (
          gone (record {
            keyed = i.keyed;
            kind = i.kind;
            state_is = i.state_is;
            told_is = i.told_is;
            slot_is = rw self refl;
          })))

  remove_con-Life :
      {state : ConnectState} (n : Net K)
      → Is state 1 (some p) n
      → Ensures Life (remove_con epoll index n p)
  unfolding remove_con
  remove_con-Life n i =
      let i1 = set_state-Is n disconnected i in
      let i2 =
        polled-Is (set_state n p disconnected) (deregister_object epoll)
          (deregister_object-key epoll) i1 in
      remove_object-Life _ _ i2.keyed i2

  shutdown_write-Is :
      {state : ConnectState} {told : ℕ} {slot : Option ℕ} (n : Net K)
      → Is state told slot n
      → Ensures (Is state told slot) (shutdown_write n p)
  unfolding shutdown_write
  shutdown_write-Is n i = if-Ensures (n.objects p).has_endpoint _ _ (returns i) (stops null)

  -- The write side of the socket is shut, now or once all is written.
  close_slowly-Life :
      {state : ConnectState} (n : Net K)
      → Is state 1 (some p) n
      → Ensures Life (close_slowly epoll index n p)
  unfolding close_slowly start_timer
  close_slowly-Life n i = elim (Bool-cases (same_state (n.objects p).state disconnecting)) [
    | inl e ↦ rw e (
        returns (
          closing (record {
            keyed = i.keyed;
            kind = i.kind;
            state_is = same_state-eq _ e;
            told_is = i.told_is;
            slot_is = i.slot_is;
          })))
    | inr f ↦
        let i1 = set_state-Is n disconnecting i in
        let shut : Ensures (Is disconnecting 1 (some p)) (
            if (n.objects p).writing
            then ok (set_state n p disconnecting)
            else shutdown_write (set_state n p disconnecting) p) =
          if-Ensures (n.objects p).writing _ _ (returns i1)
            (shutdown_write-Is (set_state n p disconnecting) i1) in
        rw f (
          >>=-Ensures _ shut (λ n2 i2. returns (
            closing (record {
              keyed = i2.keyed;
              kind = i2.kind;
              state_is = i2.state_is;
              told_is = i2.told_is;
              slot_is = i2.slot_is;
            }))))
  ]

  end_connection-Life :
      {state : ConnectState} (n : Net K) (force : Bool)
      → Is state 1 (some p) n
      → Ensures Life (if force then remove_con epoll index n p else close_slowly epoll index n p)
  end_connection-Life n true i = remove_con-Life n i
  end_connection-Life n false i = close_slowly-Life n i

  note_close-Is :
      (n : Net K)
      → Is connected 0 (some p) n
      → Is connected 1 (some p) (note n (on_close (key_of n p)))
  unfolding note
  note_close-Is n i = record {
    keyed = i.keyed;
    kind = i.kind;
    state_is = i.state_is;
    told_is = rw (i.keyed) (closes-close key n.notes ∙ ap suc i.told_is);
    slot_is = i.slot_is;
  }

  -- What tcpCloseConnection does in a state.
  abbrev ClosesIn : Net K → Bool → ConnectState → Type 0
  ClosesIn n force s = Ensures Life (
      require (not (same_state s disconnected))
      >> (let n1 = if same_state s connected then note n (on_close (key_of n p)) else n in
          if force then remove_con epoll index n1 p else close_slowly epoll index n1 p))

  pub close_connection-Life :
      (n : Net K) (force : Bool) → Life n → Ensures Life (close_connection epoll index n p force)
  unfolding close_connection same_state
  close_connection-Life n force (living i) =
      subst (ClosesIn n force) (sym i.state_is) (end_connection-Life _ force (note_close-Is n i))
  close_connection-Life n force (closing i) =
      subst (ClosesIn n force) (sym i.state_is) (end_connection-Life n force i)
  close_connection-Life n force (gone i) =
      subst (ClosesIn n force) (sym i.state_is) (stops assertion)

  abbrev Forced : Net K → ConnectState → Type 0
  Forced n s = Ensures Life (require (same_state s disconnecting) >> remove_con epoll index n p)

  -- A change of what is not the session's life.
  pub change-Life :
      (n : Net K) (c : Connection)
      → c.io.key ≡ (n.objects p).io.key
      → c.kind ≡ (n.objects p).kind
      → c.state ≡ (n.objects p).state
      → Life n
      → Life (change n p c)
  change-Life n c k s e (living i) =
      living (change-Is n c i (k ∙ i.keyed) (s ∙ i.kind) (e ∙ i.state_is))
  change-Life n c k s e (closing i) =
      closing (change-Is n c i (k ∙ i.keyed) (s ∙ i.kind) (e ∙ i.state_is))
  change-Life n c k s e (gone i) =
      gone (change-Is n c i (k ∙ i.keyed) (s ∙ i.kind) (e ∙ i.state_is))

  pub polled-Life :
      (n : Net K) (call : K → IoObject → K × IoObject)
      → ((k : K) (o : IoObject) → (call k o).1.key ≡ o.key)
      → Life n
      → Life (polled n p call)
  polled-Life n call keeps (living i) = living (polled-Is n call keeps i)
  polled-Life n call keeps (closing i) = closing (polled-Is n call keeps i)
  polled-Life n call keeps (gone i) = gone (polled-Is n call keeps i)

  -- The session's parts are all that counts.
  pub Life-same :
      (n n' : Net K)
      → n'.objects p ≡ n.objects p
      → n'.notes ≡ n.notes
      → n'.table ≡ n.table
      → Life n
      → Life n'
  Life-same n n' o s t (living i) = living (rw (o, s, t) i)
  Life-same n n' o s t (closing i) = closing (rw (o, s, t) i)
  Life-same n n' o s t (gone i) = gone (rw (o, s, t) i)

  pub Life-kind : (n : Net K) → Life n → (n.objects p).kind ≡ session
  Life-kind n (living i) = i.kind
  Life-kind n (closing i) = i.kind
  Life-kind n (gone i) = i.kind

  pub close_con-Life :
      (n : Net K) (force : Bool) → Life n → Ensures Life (close_con epoll index n p force)
  unfolding close_con
  close_con-Life n force l =
      subst
        (λ k. Ensures Life (elim k [
          | session ↦ close_connection epoll index n p force
          | other ↦ close_connector epoll index n p force
        ]))
        (sym (Life-kind n l)) (close_connection-Life n force l)

  -- The end of the timer that close_slowly started.
  pub forced-Life :
      (n : Net K)
      → Life n
      → Ensures Life
          (require (same_state (n.objects p).state disconnecting) >> remove_con epoll index n p)
  unfolding same_state
  forced-Life n (living i) = subst (Forced n) (sym i.state_is) (stops assertion)
  forced-Life n (closing i) = subst (Forced n) (sym i.state_is) (remove_con-Life n i)
  forced-Life n (gone i) = subst (Forced n) (sym i.state_is) (stops assertion)

  -- What the table has for the key.
  pub get_object-Life :
      (n : Net K) → Life n → (get_object index n key ≡ some p) ⊎ (get_object index n key ≡ none)
  unfolding get_object
  get_object-Life n (living i) = inl (ground (arith, i.keyed, i.slot_is))
  get_object-Life n (closing i) = inl (ground (arith, i.keyed, i.slot_is))
  get_object-Life n (gone i) = inr (ground (arith, i.keyed, i.slot_is))

  pub own_key : (n : Net K) → Life n → key_of n p ≡ key
  own_key n (living i) = i.keyed
  own_key n (closing i) = i.keyed
  own_key n (gone i) = i.keyed
