-- ===== src/Network/Poller/Tests.antt =====
-- Runs of the poller on a kernel that is a table.
use zlnet.Base.{
  ℕ, suc, ◌%◌, ◌≡◌, ◌≤◌, ◌<◌, ◌≢◌, Bool, Option, subst, refl, arith, List, [], ◌∷◌, none, some,
  true, false, ◌==◌, if◌then◌else◌, inl, inr,
}
use zlnet.Network.Poller.{
  IoObject, Ready, Server, poll, register_read_handler, register_write_handler, update_object,
}
use zlnet.Network.Poller.Tables.{table, no_events, full}
use zlnet.Network.Poller.Laws.{
  Request, apply_all, directions, watching, watched, register_read, register_write,
  deregister_write, event_of, registered-apply_all,
}
use zlnet.Network.Poller.Lost.{apply_all-Lost}
use zlnet.Network.Poller.Rounds.{Kept, Safe, poll-Safe}

abbrev idle : IoObject
idle = record { key = 65541; socket = 4; events = 0 }

-- The second `deregister_write` waits for the write event again.
abbrev requests : List Request
requests = register_read ∷ register_write ∷ deregister_write ∷ deregister_write ∷ []

registered-apply_all_example :
    let t = apply_all table requests (no_events, idle) in
    (watching table t ≡ watched table requests (no_events, idle) none)
    × (directions table t ≡ (true, true))
    × (t.1.events < 4)
    × (t.1.key ≡ 65541)
    × (t.1.socket ≡ 4)
    × (t.0 6 ≡ none)
registered-apply_all_example =
    registered-apply_all table requests {s = (no_events, idle)} 6 (omega arith)
      (λ e. ground (arith, e))

-- After two of them the kernel watches both directions.
both_watched :
    (apply_all table (register_read ∷ register_write ∷ []) (no_events, idle)).0 4
    ≡ some (event_of 3 65541)
unfolding register_read_handler register_write_handler update_object
both_watched = refl

abbrev unlucky : IoObject
unlucky = record idle { socket = full }

apply_all-Lost_example :
    let t =
      apply_all table (register_read ∷ register_write ∷ register_read ∷ []) (no_events, unlucky) in
    (t.0 full ≡ none) × ((t.1.events == 0) ≡ false)
unfolding register_read_handler register_write_handler update_object
apply_all-Lost_example =
    apply_all-Lost table register_read (register_write ∷ register_read ∷ []) (no_events, unlucky)
      refl (omega arith) refl refl

-- The state counts the calls. One object is in slot 5, and its read callback stops the writing; the
-- other, in slot 3, is the wakeup object, which has no error callback.
abbrev busy : ℕ → IoObject
busy calls = record { key = 65541; socket = 4; events = if calls == 0 then 3 else 1 }

abbrev counting : Server ℕ
counting = record {
  slot = λ w i. if i == 5 then some 0 else if i == 3 then some 1 else none;
  object = λ w o. if o == 0 then busy w else record { key = 3; socket = 6; events = 1 };
  error_callback = λ w o. if o == 0 then some suc else none;
  read_callback = λ w o. some suc;
  write_callback = λ w o. if o == 0 then some suc else none;
  index = λ key. key % 65536;
}

abbrev ready : ℕ → Ready
ready key = record { input = true; output = true; error = false; hang_up = false; data_key = key }

abbrev failing : ℕ → Ready
failing key = record (ready key) { error = true }

counts : (w : ℕ) (f : ℕ → ℕ) → some suc ≡ some f → 1 ≤ f w
counts w f e = let same : suc ≡ f = cc in subst (λ (g : ℕ → ℕ). 1 ≤ g w) same (omega arith)

counts_if : (b : Bool) (w : ℕ) (f : ℕ → ℕ) → (if b then some suc else none) ≡ some f → 1 ≤ f w
counts_if true w f e = counts w f e
counts_if false w f e = cc

called_if : (b : Bool) → b ≡ true → if◌then◌else◌ {A = Option (ℕ → ℕ)} b (some suc) none ≢ none
called_if true e = λ n. cc
called_if false e = cc

counting-Kept : Kept counting (λ w. 1 ≤ w) 3
counting-Kept = record {
  read_kept = λ w o f i s r e. counts w f e;
  write_kept = λ w o f i r e. counts_if (o == 0) w f e;
  error_kept = λ w o f i s e. counts_if (o == 0) w f e;
  present = λ w o i s other. called_if (o == 0) (ground (arith, other));
}

poll-Safe_example :
    Safe counting (λ w. 1 ≤ w) 3 (poll counting 1 (failing 65541 ∷ ready 3 ∷ ready 7 ∷ []))
poll-Safe_example =
    poll-Safe counting (λ w. 1 ≤ w) 3 counting-Kept 1 (failing 65541 ∷ ready 3 ∷ ready 7 ∷ [])
      (omega arith) (inr (λ e. ground (arith, e)), (inl refl, (inl refl, tt)))
