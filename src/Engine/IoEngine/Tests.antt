-- ===== src/Engine/IoEngine/Tests.antt =====
-- Runs of an IOEngine whose handlers write down that they were called.
use zlnet.Base.{
  ℕ, ◌≤◌, ◌<◌, ◌≡◌, refl, List, [], ◌∷◌, ◌++◌, length, none, some, Bool, true, false, ◌==◌, Result,
  ok, fault, assertion, dangling, returns, ok-injective, subst, sym, arith,
}
use mathlib.Core.List.{append-nil}
use zlnet.Base.Core.{plain_core, put, no_entries}
use zlnet.Network.IoEvents.{data_event, connector}
use zlnet.Engine.Messages.{IoPacket}
use zlnet.Engine.IoEngine.{
  IoEngine, Object, CallbackHandler, Hooks, Packet, notify, message, packet_connect,
}
use zlnet.Engine.IoEngine.Callbacks.{
  bind_callback_handler, waits_first, ready, send, dispatch_callback, on_timer_callback_timeout,
}
use zlnet.Engine.IoEngine.Protocols.{connect}
use zlnet.Engine.IoEngine.Dispatch.{on_timer1000ms, dispatch_io_packet, base_leaves}
use zlnet.Engine.IoEngine.Ids.{next_id, has, age}
use zlnet.Engine.IoEngine.Waiting.{Inv}
use zlnet.Engine.IoEngine.Timer.{expired, Adds, Grows, on_timer-expire_all, expire_all}
use zlnet.Engine.IoEngine.Freed.{timer_dangling}
use zlnet.Engine.IoEngine.Answers.{send-dispatch_callback, dispatch_io_packet-send}
use zlnet.Engine.IoEngine.Keeping.{HooksKeep}
use zlnet.Engine.IoEngine.Runs.{
  Call, start-Inv, connect_to, take_packet, send_packet, tick, start, run, run-Inv,
}

abbrev State : Type 0
State = IoEngine (List ℕ) ℕ

-- The handlers write their pointers down.
abbrev log : ℕ → IoPacket ℕ → State → Result State
log p packet e = ok (record e { user = p ∷ e.user })

abbrev hooks : Hooks (List ℕ) ℕ
hooks = record {
  leaves = base_leaves;
  on_listen = λ uid success e. ok e;
  on_accept = λ uid from e. ok e;
  on_connect = λ uid success e. ok e;
  on_packet = log;
  on_callback = log;
}

hooks-HooksKeep : HooksKeep hooks
unfolding base_leaves
hooks-HooksKeep = record {
  leaves_keep = record {
    unlisten_keeps = λ uid now e i. returns i;
    close_keeps = λ uid now e i. returns i;
    disconnect_keeps = λ uid now e i. returns i;
  };
  listen_keeps = λ uid success now e i. returns i;
  accept_keeps = λ uid from now e i. returns i;
  connect_keeps = λ uid success now e i. returns i;
  packet_keeps = λ p packet now e i. returns i;
  callback_keeps = λ p packet now e i. returns i;
}

-- The protocols at 3 and 4 are those of two open connections; the user keeps the handler at 1.
abbrev objects : ℕ → Object
objects p = record {
  key = 0;
  kind = connector;
  available = false;
  has_queue = false;
  callbacks = [];
}

abbrev handlers : ℕ → CallbackHandler
handlers p = record { uid = 0; cb_id = 0; to_ms = 0; cmd = 0; shared = p == 1 }

abbrev packet : IoPacket ℕ
packet = record { uid = 5; cmd = 9; callback_id = 0; error = 0; message = some 40 }

abbrev answer : IoPacket ℕ
answer = record { uid = 5; cmd = 0; callback_id = 1; error = 0; message = some 41 }

-- A connection opens, a call goes out, and its answer comes in; a second call waits.
abbrev calls : List (ℕ × Call ℕ)
calls =
    (0, connect_to 5 (49 ∷ []) 80 3)
    ∷ (10, take_packet (notify packet_connect 5 3 none true))
    ∷ (10, send_packet (some 1) packet)
    ∷ (10, take_packet (message answer))
    ∷ (10, send_packet (some 2) packet)
    ∷ (10, tick 5)
    ∷ []

abbrev poll : (Packet ℕ → Bool) → State → Result State
poll condition e = ok e

abbrev begin : State
unfolding start
begin = start objects handlers []

final : Result (ℕ × State)
unfolding run
final = run plain_core hooks poll 1000 begin calls

abbrev value : Result (ℕ × State) → ℕ × State
value (ok r) = r
value (fault x) = (0, begin)

run_log : (value final).1.user ≡ 1 ∷ []
unfolding final base_leaves begin plain_core connect dispatch_io_packet send bind_callback_handler
    on_timer1000ms
run_log = refl

final_lem : run plain_core hooks poll 1000 begin calls ≡ ok ((value final).0, (value final).1)
unfolding final base_leaves begin plain_core connect dispatch_io_packet send bind_callback_handler
    on_timer1000ms
final_lem = refl

run-Inv_example : Inv (value final).0 (value final).1
unfolding begin
run-Inv_example =
    run-Inv plain_core hooks poll hooks-HooksKeep (λ condition now e i. returns i) 1000 objects
      handlers [] calls (value final).0 (value final).1 final_lem

-- Two open connections, with the uids 5 and 6.
abbrev opened : State
unfolding begin put
opened = record begin {
  protocols = put (put no_entries 5 (some 3)) 6 (some 4);
  objects = λ p. record (objects p) { available = true };
}

opened-Inv : Inv 1000 opened
unfolding begin opened
opened-Inv = start-Inv {U = List ℕ} ℕ objects handlers [] 1000

ready-opened : ready opened 5 ≡ some 3
unfolding ready opened
ready-opened = refl

waits_first-opened : waits_first opened (next_id opened.next_callback_id) ≡ false
unfolding waits_first opened
waits_first-opened = refl

send-dispatch_callback_example :
    (sent done : State) × (send plain_core 1010 opened (some 1) packet ≡ ok sent)
    × (sent.events ≡ opened.events ++ data_event 5 (record packet { callback_id = 1 }) ∷ [])
    × (0 < 1)
    × (dispatch_callback plain_core hooks sent answer ≡ log 1 answer done)
    × (done.callback_handlers ≡ opened.callback_handlers)
    × (done.timeouts ≡ opened.timeouts)
    × (dispatch_callback plain_core hooks done answer ≡ ok done)
unfolding opened
send-dispatch_callback_example =
    send-dispatch_callback plain_core hooks 1000 1010 opened 3 1 packet answer opened-Inv
      (omega arith) ready-opened refl waits_first-opened refl refl

-- Two calls wait, from the uids 5 and 6; the second handler is held by the table alone.
abbrev waiting : State
unfolding opened put
waiting = record opened {
  next_callback_id = 2;
  timeouts = 1 ∷ 2 ∷ [];
  callback_handlers = put (put no_entries 1 (some 1)) 2 (some 2);
  handlers =
      put (put handlers 1 (record { uid = 5; cb_id = 1; to_ms = 11000; cmd = 9; shared = true })) 2
        (record { uid = 6; cb_id = 2; to_ms = 12000; cmd = 9; shared = false });
}

waiting-Inv : (now : ℕ) → 2000 ≤ now → Inv now waiting
unfolding waiting put has age
waiting-Inv now h = record {
  next_fits = omega arith;
  ordered = omega arith;
  listed = λ p m. ground arith;
  found = λ id p f. ground arith;
}

hooks-Adds : (now : ℕ) → Adds hooks now
hooks-Adds now p given s s' i h =
    let e : record s { user = p ∷ s.user } ≡ s' = ok-injective h in
    subst (λ t. Inv now t × Grows now s t) e
      (
        i,
        record {
          added = [];
          grown = sym (append-nil s.timeouts);
          added_late = tt;
          kept = λ q m. (refl, refl);
        },
      )

-- The first callback is over at 11500, the second is not.
first_over : expired 11500 waiting.handlers waiting.timeouts ≡ 1 ∷ []
unfolding expired waiting put
first_over = refl

expired_few : length (expired 11500 waiting.handlers waiting.timeouts) < 3
expired_few = rw first_over (omega arith)

second_waits : has 2 waiting.timeouts ≡ true
unfolding has waiting
second_waits = refl

second_over : (waiting.handlers 2).to_ms ≤ 12000
unfolding waiting put
second_over = omega arith

second_alone : (waiting.handlers 2).shared ≡ false
unfolding waiting put
second_alone = refl

on_timer-expire_all_example :
    on_timer_callback_timeout plain_core hooks 3 11500 waiting
    ≡ expire_all plain_core hooks waiting (expired 11500 waiting.handlers waiting.timeouts)
on_timer-expire_all_example =
    on_timer-expire_all plain_core hooks 3 11500 waiting (hooks-Adds 11500)
      (waiting-Inv 11500 (omega arith)) expired_few

both_few : length (expired 12000 waiting.handlers waiting.timeouts) < 3
unfolding expired waiting put
both_few = omega arith

timer_dangling_example : on_timer_callback_timeout plain_core hooks 3 12000 waiting ≡ fault dangling
timer_dangling_example =
    timer_dangling plain_core hooks 3 12000 waiting 2 (hooks-Adds 12000) (λ p given s. (_, refl))
      (waiting-Inv 12000 (omega arith)) second_waits second_over second_alone both_few

ready_other : ready opened 6 ≡ some 4
unfolding ready opened put
ready_other = refl

dispatch_io_packet-send_example :
    (sent done : State) × (send plain_core 1010 opened (some 1) packet ≡ ok sent)
    × (dispatch_io_packet plain_core hooks sent (message answer) ≡ log 1 answer done)
    × (done.callback_handlers ≡ opened.callback_handlers)
    × (dispatch_io_packet plain_core hooks sent (message (record answer { uid = 6 }))
        ≡ fault assertion)
unfolding opened
dispatch_io_packet-send_example =
    dispatch_io_packet-send plain_core hooks 1000 1010 opened 3 4 1 packet
      (record answer { uid = 6 }) opened-Inv (omega arith) ready-opened refl waits_first-opened refl
      refl ready_other (omega arith)
