-- ===== src/Network/Tcp/Calls.antt =====
-- network/TCP_Network.cpp and Network.cpp: the calls that reach a session, in any order, and what its
-- protocol was told after them.
use zlnet.Base.{
  ℕ, ◌≡◌, ◌≢◌, refl, ap, ◌∙◌, List, [], ◌∷◌, some, none, Option, Bool, true, false, ◌==◌, Result,
  ok, Ensures, returns, >>=-Ensures, require-Ensures, eq-of-Ensures, ◌>>=◌, inl, inr, arith,
}
use zlnet.Base.Core.{put}
use zlnet.Network.IoEvents.{session}
use zlnet.Network.RingBuffer.{Ring}
use zlnet.Network.Poller.{Epoll, register_read_handler}
use zlnet.Network.Poller.Keys.{register_read_handler-key}
use zlnet.Network.Connections.{Connection, connected, Net, key_of, get_object, add_object}
use zlnet.Network.Tcp.{Taken}
use zlnet.Network.Tcp.Closing.{note, change, start_timer, on_force_close}
use zlnet.Network.Tcp.Handlers.{
  awake, handle_accept, handle_con_error, handle_con_read, handle_con_write,
}
use zlnet.Network.Tcp.Events.{Answers, process_data_event, close_key, on_second}
use zlnet.Network.Tcp.Sessions.{
  Is, Life, living, put_self, polled-Is, close_con-Life, get_object-Life,
}
use zlnet.Network.Tcp.Told.{closes, closes-accept}
use zlnet.Network.Tcp.Lives.{
  handle_con_read-Lives, handle_con_write-Lives, tcp_send-Lives, by_protocol-Lives, close_key-Lives,
  on_second-Lives, on_force_close-Lives,
}

-- An event of the poller, of the queue, or a timer of the session, with what the system and the
-- protocol answer to it.
pub data SessionCall : Type 0 where
  failing : SessionCall
  readable : (unserialize : Ring → Result (Bool × Ring)) (received : Option (List ℕ)) → SessionCall
  writable : (behind : List ℕ) (taken : Taken) → SessionCall
  sending : (answers : Answers) → SessionCall
  ending : SessionCall
  second_over : (stays : Bool) → SessionCall
  force_over : SessionCall

put_at {ℓ} : {A : Type ℓ} {i j : ℕ} (h : ℕ → A) (a : A) → i ≡ j → put h i a j ≡ a
unfolding put
put_at h a e = ground (arith, e)

module _ (junk : ℕ → ℕ) {K : Type 0} (epoll : Epoll K) (index : ℕ → ℕ) (slots : List ℕ)
    (p key : ℕ) where
  -- The poller calls the object that the table has for the key of the event, if there is one.
  unfoldable pub found : Net K → (ℕ → Result (Net K)) → Result (Net K)
  found n handler = elim (get_object index n key) [ none ↦ ok n | some q ↦ handler q ]

  unfoldable pub perform : Net K → SessionCall → Result (Net K)
  unfolding found
  perform n failing = found n (handle_con_error junk epoll index n)
  perform n (readable unserialize received) =
      found n (λ q. handle_con_read junk epoll index unserialize n q received)
  perform n (writable behind taken) =
      found n (λ q. handle_con_write junk epoll index n q behind taken)
  perform n (sending answers) = process_data_event junk epoll index slots answers n key
  perform n ending = close_key junk epoll index slots n key
  perform n (second_over stays) = on_second junk epoll index slots n p stays
  perform n force_over = on_force_close epoll index n p

  unfoldable pub run : Net K → List SessionCall → Result (Net K)
  unfolding perform
  run n [] = ok n
  run n (call ∷ calls) = perform n call >>= λ n'. run n' calls

  abbrev Lives : Net K → Type 0
  Lives = Life epoll index p key

  found-Lives :
      (n : Net K) (handler : ℕ → Result (Net K))
      → Lives n
      → Ensures Lives (handler p)
      → Ensures Lives (found n handler)
  unfolding found
  found-Lives n handler l h = elim (get_object-Life epoll index p key n l) [
    | inl there ↦ rw (found, there) h
    | inr missing ↦ rw (found, missing) (returns l)
  ]

  process_data_event-Lives :
      (n : Net K) (a : Answers)
      → Lives n
      → Ensures Lives (process_data_event junk epoll index slots a n key)
  unfolding process_data_event
  process_data_event-Lives n a l = elim (get_object-Life epoll index p key n l) [
    | inl there ↦
        rw (process_data_event, there)
          (by_protocol-Lives junk epoll index slots p key _ n _ l
            (tcp_send-Lives junk epoll index slots p key n a.serialized a.taken l))
    | inr missing ↦ rw (process_data_event, missing) (returns l)
  ]

  perform-Lives : (n : Net K) (call : SessionCall) → Lives n → Ensures Lives (perform n call)
  unfolding perform handle_con_error
  perform-Lives n failing l = found-Lives n _ l (close_con-Life epoll index p key n true l)
  perform-Lives n (readable u received) l =
      found-Lives n _ l (handle_con_read-Lives junk epoll index slots p key u n received l)
  perform-Lives n (writable behind taken) l =
      found-Lives n _ l (handle_con_write-Lives junk epoll index slots p key n behind taken l)
  perform-Lives n (sending a) l = process_data_event-Lives n a l
  perform-Lives n ending l = close_key-Lives junk epoll index slots p key n l
  perform-Lives n (second_over stays) l = on_second-Lives junk epoll index slots p key n stays l
  perform-Lives n force_over l = on_force_close-Lives junk epoll index slots p key n l

  run-Lives : (n : Net K) (calls : List SessionCall) → Lives n → Ensures Lives (run n calls)
  unfolding run
  run-Lives n [] l = returns l
  run-Lives n (call ∷ calls) l =
      >>=-Ensures _ (perform-Lives n call l) (λ n' l'. run-Lives n' calls l')

  -- The new session stands in its slot.
  add_object-Is :
      (n : Net K) (c : Connection)
      → c.io.key ≡ key
      → c.kind ≡ session
      → c.state ≡ connected
      → closes key n.notes ≡ 0
      → Ensures (Is epoll index p key connected 0 (some p)) (add_object index (change n p c) p)
  unfolding add_object change
  add_object-Is n c k s e none_yet =
      let own : (put n.objects p c p).io.key ≡ key =
        rw (put_self epoll index p key n.objects c) k in
      require-Ensures _ _ (
        returns (record {
          keyed = own;
          kind = rw (put_self epoll index p key n.objects c) s;
          state_is = rw (put_self epoll index p key n.objects c) e;
          told_is = none_yet;
          slot_is = put_at n.table (some p) (ap index own);
        }))

  handle_accept-Lives :
      (n : Net K) (listener socket : ℕ)
      → key ≢ 0
      → closes key n.notes ≡ 0
      → Ensures Lives (handle_accept junk epoll index n listener (some socket) key true p)
  unfolding handle_accept note start_timer awake
  handle_accept-Lives n listener socket own none_yet =
      let real : (key == 0) ≡ false = ground (arith, own) in
      rw (handle_accept, real)
        (>>=-Ensures _
          (add_object-Is n
            (record (awake (n.objects p) session key socket) {
              established = true;
              state = connected;
            })
            refl refl refl none_yet)
          (λ n1 i.
            let i2 =
              polled-Is epoll index p key n1 (register_read_handler epoll)
                (register_read_handler-key epoll) i in
            returns (
              living (record {
                keyed = i2.keyed;
                kind = i2.kind;
                state_is = i2.state_is;
                told_is = closes-accept key key (key_of n listener) _ ∙ i2.told_is;
                slot_is = i2.slot_is;
              }))))

  -- A session that handleTcpAccept made with a new key, after any sequence of errors, reads,
  -- writes, sends, closes, second timers and close timers of it that the process survives,
  -- whatever the sockets and the protocol answer and however many bytes wait to be written, is in
  -- one of three cases: CONNECTED, in its slot of the object table, and its protocol was never
  -- told onClose; DISCONNECTING, in its slot, and told once; DISCONNECTED, its slot empty, and
  -- told once.
  pub run-Life :
      (n : Net K) {n' : Net K} (listener socket : ℕ) (calls : List SessionCall)
      → key ≢ 0
      → closes key n.notes ≡ 0
      → (handle_accept junk epoll index n listener (some socket) key true p >>= λ n1. run n1 calls)
        ≡ ok n'
      → Life epoll index p key n'
  run-Life n listener socket calls own none_yet e =
      eq-of-Ensures
        (>>=-Ensures _ (handle_accept-Lives n listener socket own none_yet)
          (λ n1 l. run-Lives n1 calls l))
        e
