-- ===== src/Network/Tcp/Tests.antt =====
-- Runs of the handlers of network/TCP_Network.cpp on one session.
use zlnet.Base.{
  ℕ, ◌≡◌, refl, arith, ◌≤◌, List, [], ◌∷◌, ◌++◌, Result, none, some, true, false, ok, fault, ◌>>=◌,
}
use zlnet.Network.IoEvents.{session}
use zlnet.Network.RingBuffer.{Ring, null_vec, get_writeable_vec}
use zlnet.Network.RingBuffer.Valid.{IsValid, contents}
use zlnet.Network.Poller.{update_object, register_read_handler, deregister_object}
use zlnet.Network.Poller.Tables.{Table, table, no_events}
use zlnet.Network.Connections.{
  Connection, Net, tcp, connected, enable_send, enable_write, add_object, remove_object, get_object,
  same_state,
}
use zlnet.Network.Tcp.{took, read_in, offered, send_out}
use zlnet.Network.Tcp.Handlers.{handle_accept, handle_con_write, tcp_send, awake, sent}
use zlnet.Network.Tcp.Reads.{read_in-contents, sum}
use zlnet.Network.Tcp.Writes.{tcp_send_lem}
use zlnet.Network.Tcp.Flush.{handle_con_write_lem}
use zlnet.Network.Tcp.Events.{Answers, process_data_event, on_second, close_key, by_protocol}
use zlnet.Network.Tcp.Closing.{
  note, change, set_state, start_timer, shutdown_write, polled, remove_con, close_slowly,
  close_connection, close_kind, tcp_close, on_force_close,
}
use zlnet.Base.Core.{put}
use zlnet.Network.Tcp.Sessions.{Life}
use zlnet.Network.Tcp.Told.{closes}
use zlnet.Network.Tcp.Calls.{
  SessionCall, sending, second_over, ending, force_over, run, perform, found, run-Life,
}

abbrev zeros : ℕ → ℕ
zeros _ = 0

-- 7, 8 and 9, at the front of an array of 5 bytes.
abbrev three : Ring
three = record {
  capacity = 5;
  front = 0;
  end = 3;
  size = 3;
  buff = 7 ∷ 8 ∷ 9 ∷ 0 ∷ 0 ∷ [];
  writerv0 = null_vec;
  writerv1 = null_vec;
  readerv0 = null_vec;
  readerv1 = null_vec;
}

three-IsValid : IsValid three
three-IsValid = omega arith

-- An open session on the socket 4, which waits to write what is queued.
abbrev talking : Connection
talking = record {
  io = record { key = 9; socket = 4; events = 1 };
  kind = session;
  group = 0;
  protocol_group = 0;
  protocol_type = tcp;
  has_endpoint = true;
  state = connected;
  writing = true;
  established = true;
  input = three;
  output = three;
}

abbrev net : Net Table
net = record {
  kernel = no_events;
  table = λ _. none;
  objects = λ _. talking;
  notes = [];
  wire = [];
  shutdowns = [];
  timers = [];
}

abbrev slot_of : ℕ → ℕ
slot_of key = key

four_fit : 4 ≤ sum (offered (get_writeable_vec three))
unfolding offered get_writeable_vec
four_fit = omega arith

read_in-contents_example :
    (q : Ring) × (read_in zeros three (1 ∷ 2 ∷ 3 ∷ 4 ∷ []) ≡ ok q)
    × IsValid q
    × (contents q ≡ contents three ++ (1 ∷ 2 ∷ 3 ∷ 4 ∷ []))
read_in-contents_example =
    read_in-contents zeros (1 ∷ 2 ∷ 3 ∷ 4 ∷ []) three-IsValid (omega arith) (omega arith) four_fit

-- Two bytes behind the array go out with the three in the buffer, which stay there.
handle_con_write_lem_example :
    (n' : Net Table) × (handle_con_write zeros table slot_of net 0 (70 ∷ 71 ∷ []) (took 5) ≡ ok n')
    × (n'.wire ≡ (4, 7 ∷ 8 ∷ 9 ∷ 70 ∷ 71 ∷ []) ∷ [])
    × (contents (n'.objects 0).output ≡ 7 ∷ 8 ∷ 9 ∷ [])
    × ((n'.objects 0).writing ≡ true)
    × (n'.notes ≡ [])
unfolding enable_write
handle_con_write_lem_example =
    handle_con_write_lem zeros table slot_of net 0 (70 ∷ 71 ∷ []) 5 refl refl refl three-IsValid
      (omega arith) (omega arith) (omega arith) (omega arith)

tcp_send_lem_example :
    (n' : Net Table) × (tcp_send zeros table slot_of net 0 (some (1 ∷ 2 ∷ [])) (took 1) ≡ ok n')
    × (n'.wire ≡ (4, 1 ∷ []) ∷ [])
    × (contents (n'.objects 0).output ≡ contents three ++ 2 ∷ [])
    × ((n'.objects 0).writing ≡ true)
    × (n'.notes ≡ [])
unfolding enable_send
tcp_send_lem_example =
    tcp_send_lem zeros table slot_of net 0 (1 ∷ 2 ∷ []) 1 refl three-IsValid (omega arith)
      (omega arith) (omega arith) (omega arith)

-- The protocol sends two bytes, of which the socket takes all; a second is over; the engine closes the
-- session; and the timer of its close is over.
abbrev two_bytes : Answers
two_bytes = record {
  socket = 0;
  has_socket = false;
  bound = 0;
  listening = 0;
  serialized = some (1 ∷ 2 ∷ []);
  taken = took 2;
  fresh = 0;
}

abbrev calls : List SessionCall
calls = sending two_bytes ∷ second_over true ∷ ending ∷ force_over ∷ []

value : Result (Net Table) → Net Table
value (ok n) = n
value (fault e) = net

abbrev outcome : Result (Net Table)
outcome = handle_accept zeros table slot_of net 3 (some 4) 9 true 7 >>= λ n.
    run zeros table slot_of [] 7 9 n calls

abbrev ended : Net Table
ended = value outcome

outcome_lem : outcome ≡ ok ended
unfolding value handle_accept run perform found add_object remove_object get_object same_state
    process_data_event on_second close_key by_protocol note change set_state start_timer
    shutdown_write polled remove_con close_slowly close_connection close_kind tcp_close
    on_force_close put awake sent send_out tcp_send update_object zlnet.Network.Poller.remove_object
    register_read_handler deregister_object enable_send
outcome_lem = refl

run-Life_example : Life table slot_of 7 9 ended
unfolding closes
run-Life_example = run-Life zeros table slot_of [] 7 9 net 3 4 calls (omega arith) refl outcome_lem
