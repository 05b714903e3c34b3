-- ===== src/Network/Poller.antt =====
-- network/Poller.h, Poller.cpp, EPoller.h and EPoller.cpp: which events the kernel watches for an
-- object, and what a round of CEPoller::poll calls. The kernel is the parameter `Epoll`.
pub mod Laws
pub mod Rounds
pub mod Lost
pub mod Keys
pub mod Tables
mod Tests
use Prim.Native.Nat.{bit_and, bit_or, bit_xor}
use zlnet.Base.{
  ℕ, ◌≡◌, ◌≢◌, List, [], ◌∷◌, Option, none, some, Bool, true, false, not, ◌&&◌, ◌||◌, ◌==◌,
  if◌then◌else◌, Result, ok, fault, assertion, ◌>>=◌,
}

abbrev pub read_event : ℕ
read_event = 1

abbrev pub write_event : ℕ
write_event = 2

-- What the poller uses of an IOObject: `_key`, the socket of `_endpoint` and `_events`.
pub record IoObject : Type 0 where
  pub key : ℕ
  pub socket : ℕ
  pub events : ℕ

abbrev pub has_reading : IoObject → Bool
has_reading o = not (bit_and read_event o.events == 0)

abbrev pub has_writing : IoObject → Bool
has_writing o = not (bit_and write_event o.events == 0)

abbrev pub update_events : IoObject → ℕ → IoObject
update_events o events = record o { events = events }

-- `epoll_event`, as far as `updateObject` fills it in: EPOLLIN, EPOLLOUT and `data.u32`.
pub record EpollEvent : Type 0 where
  pub input : Bool
  pub output : Bool
  pub data_key : ℕ

-- EPOLL_CTL_ADD, EPOLL_CTL_MOD and EPOLL_CTL_DEL.
pub data Ctl : Type 0 where
  add : EpollEvent → Ctl
  modify : EpollEvent → Ctl
  delete : Ctl

-- The kernel: whether `epoll_ctl` succeeds on a socket, and the event that is registered for each. It may
-- fail at any call, and then changes nothing; it does fail to add what is registered (EEXIST) and to
-- modify or delete what is not (ENOENT).
pub record Epoll (K : Type 0) : Type 1 where
  pub ctl : K → Ctl → ℕ → Bool × K
  pub registered : K → ℕ → Option EpollEvent
  pub add_lem :
      (k : K) (s : ℕ) (e : EpollEvent)
      → (ctl k (add e) s).0 ≡ true
      → (registered k s ≡ none) × (registered (ctl k (add e) s).1 s ≡ some e)
  pub modify_lem :
      (k : K) (s : ℕ) (e : EpollEvent)
      → (ctl k (modify e) s).0 ≡ true
      → (registered k s ≢ none) × (registered (ctl k (modify e) s).1 s ≡ some e)
  pub delete_lem :
      (k : K) (s : ℕ)
      → (ctl k delete s).0 ≡ true
      → (registered k s ≢ none) × (registered (ctl k delete s).1 s ≡ none)
  pub failed_lem :
      (k : K) (c : Ctl) (s : ℕ)
      → (ctl k c s).0 ≡ false
      → registered (ctl k c s).1 s ≡ registered k s
  pub other_lem : (k : K) (c : Ctl) (s t : ℕ) → s ≢ t → registered (ctl k c s).1 t ≡ registered k t

module _ {K : Type 0} (epoll : Epoll K) where
  unfoldable pub remove_object : K → IoObject → K × IoObject
  remove_object k o = ((epoll.ctl k delete o.socket).1, update_events o 0)

  unfoldable pub update_object : K → IoObject → ℕ → K × IoObject
  update_object k o events =
      let event : EpollEvent = record {
        input = not (bit_and events read_event == 0);
        output = not (bit_and events write_event == 0);
        data_key = o.key;
      } in
      let request = if o.events == 0 then add event else modify event in
      if events == 0
      then remove_object k o
      else ((epoll.ctl k request o.socket).1, update_events o events)

  unfoldable pub register_read_handler : K → IoObject → K × IoObject
  register_read_handler k o = update_object k o (bit_or o.events read_event)

  unfoldable pub register_write_handler : K → IoObject → K × IoObject
  register_write_handler k o = update_object k o (bit_or o.events write_event)

  pub deregister_read_handler : K → IoObject → K × IoObject
  deregister_read_handler k o = update_object k o (bit_xor o.events read_event)

  unfoldable pub deregister_write_handler : K → IoObject → K × IoObject
  deregister_write_handler k o = update_object k o (bit_xor o.events write_event)

  unfoldable pub deregister_object : K → IoObject → K × IoObject
  deregister_object k o = remove_object k o

-- An event that `epoll_wait` returned: EPOLLIN, EPOLLOUT, EPOLLERR, EPOLLHUP and `data.u32`.
pub record Ready : Type 0 where
  pub input : Bool
  pub output : Bool
  pub error : Bool
  pub hang_up : Bool
  pub data_key : ℕ

-- The server's state, as a round sees it: the object in each slot of `objects`, by a reference; the
-- object and its callbacks behind a reference, `none` for an empty std::function; and
-- `ObjecKeyPool::index`, which is core's.
pub record Server (W : Type 0) : Type 0 where
  pub slot : W → ℕ → Option ℕ
  pub object : W → ℕ → IoObject
  pub error_callback : W → ℕ → Option (W → W)
  pub read_callback : W → ℕ → Option (W → W)
  pub write_callback : W → ℕ → Option (W → W)
  pub index : ℕ → ℕ

-- `if (callback) callback(object);`
abbrev call_if : {W : Type 0} → Option (W → W) → W → W
call_if none w = w
call_if (some f) w = f w

-- `assert(callback); callback(object);`
abbrev call_asserted : {W : Type 0} → Option (W → W) → W → Result W
call_asserted none w = fault assertion
call_asserted (some f) w = ok (f w)

module _ {W : Type 0} (server : Server W) where
  -- One turn of the loop for the object `o`: the write test looks at the object as the read callback
  -- left it.
  pub notify : W → ℕ → Ready → Result W
  notify w o ev =
      let reading = (ev.input || ev.hang_up) && has_reading (server.object w o) in
      let w' = if reading then call_if (server.read_callback w o) w else w in
      let writing = (ev.output || ev.hang_up) && has_writing (server.object w' o) in
      let w'' = if writing then call_if (server.write_callback w' o) w' else w' in
      if ev.error then call_asserted (server.error_callback w o) w else ok w''

  -- Events of a slot that is empty, or that another object has, are passed over.
  pub poll_event : W → Ready → Result W
  unfolding notify
  poll_event w ev = elim (server.slot w (server.index ev.data_key)) [
    | none ↦ ok w
    | some o ↦ if (server.object w o).key == ev.data_key then notify w o ev else ok w
  ]

  pub poll : W → List Ready → Result W
  unfolding poll_event
  poll w [] = ok w
  poll w (ev ∷ evs) = do w' ← poll_event w ev; poll w' evs
