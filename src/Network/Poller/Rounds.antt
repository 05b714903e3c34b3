-- ===== src/Network/Poller/Rounds.antt =====
-- A round of CEPoller::poll: which callbacks it calls, and where its assertion holds.
use zlnet.Base.{
  ℕ, ◌≡◌, ◌≢◌, ◌⊎◌, inl, inr, refl, arith, List, [], ◌∷◌, Option, none, some, Bool, true, false,
  ◌||◌, ◌&&◌, ◌==◌, if◌then◌else◌, ok, Bool-cases, Result,
}
use zlnet.Network.Poller.{
  Ready, Server, has_reading, has_writing, notify, poll_event, poll, call_asserted, call_if,
}

module _ {W : Type 0} (server : Server W) (P : W → Type 0) (wakeup : ℕ) where
  -- The object is in the slot of its key.
  abbrev pub InSlot : W → ℕ → Type 0
  InSlot w o = server.slot w (server.index (server.object w o).key) ≡ some o

  -- The callbacks keep `P`, each where a round calls it, and only the object with the key `wakeup` may
  -- have no error callback.
  pub record Kept : Type 0 where
    pub read_kept :
        (w : W) (o : ℕ) (f : W → W)
        → P w
        → InSlot w o
        → has_reading (server.object w o) ≡ true
        → server.read_callback w o ≡ some f
        → P (f w)
    pub write_kept :
        (w : W) (o : ℕ) (f : W → W)
        → P w
        → has_writing (server.object w o) ≡ true
        → server.write_callback w o ≡ some f
        → P (f w)
    pub error_kept :
        (w : W) (o : ℕ) (f : W → W)
        → P w
        → InSlot w o
        → server.error_callback w o ≡ some f
        → P (f w)
    pub present :
        (w : W) (o : ℕ)
        → P w
        → InSlot w o
        → (server.object w o).key ≢ wakeup
        → server.error_callback w o ≢ none

  -- No event is an error of the object with the key `wakeup`.
  abbrev pub NoWakeupError : List Ready → Type 0
  NoWakeupError [] = Unit {0}
  NoWakeupError (ev ∷ evs) = ((ev.error ≡ false) ⊎ (ev.data_key ≢ wakeup)) × NoWakeupError evs

  -- The call returns a state with `P`.
  abbrev pub Safe : Result W → Type 0
  Safe m = (w : W) × (m ≡ ok w) × P w

  module _ (k : Kept) where
    called :
        (c : Option (W → W)) (w : W) → ((f : W → W) → c ≡ some f → P (f w)) → P w → P (call_if c w)
    called none w h i = i
    called (some f) w h i = h f refl

    asserted :
        (c : Option (W → W)) (w : W)
        → c ≢ none
        → ((f : W → W) → c ≡ some f → P (f w))
        → Safe (call_asserted c w)
    asserted none w there h = absurd (there refl)
    asserted (some f) w there h = (f w, refl, h f refl)

    read_if :
        (b : Bool) (w : W) (o : ℕ)
        → P w
        → InSlot w o
        → P (
            if b && has_reading (server.object w o)
            then call_if (server.read_callback w o) w
            else w)
    read_if false w o i s = i
    read_if true w o i s = elim (Bool-cases (has_reading (server.object w o))) [
      | inl r ↦ rw r (called _ w (λ f e. k.read_kept w o f i s r e) i)
      | inr r ↦ rw r i
    ]

    write_if :
        (b : Bool) (w : W) (o : ℕ)
        → P w
        → P (
            if b && has_writing (server.object w o)
            then call_if (server.write_callback w o) w
            else w)
    write_if false w o i = i
    write_if true w o i = elim (Bool-cases (has_writing (server.object w o))) [
      | inl r ↦ rw r (called _ w (λ f e. k.write_kept w o f i r e) i)
      | inr r ↦ rw r i
    ]

    notify-Safe :
        (w : W) (o : ℕ) (ev : Ready)
        → P w
        → InSlot w o
        → (server.object w o).key ≡ ev.data_key
        → (ev.error ≡ false) ⊎ (ev.data_key ≢ wakeup)
        → Safe (notify server w o ev)
    unfolding notify
    notify-Safe w o ev i s key fine = elim (Bool-cases ev.error) [
      | inl bad ↦
          let other : (server.object w o).key ≢ wakeup = ground (arith) in
          rw (notify, bad)
            (asserted (server.error_callback w o) w (k.present w o i s other)
              (λ f e. k.error_kept w o f i s e))
      | inr good ↦
          let after = read_if (ev.input || ev.hang_up) w o i s in
          rw (notify, good) (_, refl, write_if (ev.output || ev.hang_up) _ o after)
    ]

    poll_event-Safe :
        (w : W) (ev : Ready)
        → P w
        → (ev.error ≡ false) ⊎ (ev.data_key ≢ wakeup)
        → Safe (poll_event server w ev)
    unfolding poll_event
    poll_event-Safe w ev i fine = go (server.slot w (server.index ev.data_key)) refl
      where
        go :
            (c : Option ℕ)
            → server.slot w (server.index ev.data_key) ≡ c
            → Safe (poll_event server w ev)
        go none e = rw (poll_event, e) (w, refl, i)
        go (some o) e = elim (Bool-cases ((server.object w o).key == ev.data_key)) [
          | inl own ↦
              let key : (server.object w o).key ≡ ev.data_key = ground (arith) in
              rw (poll_event, e, own) (notify-Safe w o ev i (rw key e) key fine)
          | inr other ↦ rw (poll_event, e, other) (w, refl, i)
        ]

    -- For a property of the state that read callbacks keep where the object is in the slot of its
    -- key and waits for reading, write callbacks where the object waits for writing, and error
    -- callbacks where it is in its slot, and under which every object in its slot has an error
    -- callback, but for one key, such as that of the wakeup object: a round of poll whose events
    -- are no error of that key fails no assertion and keeps the property, whatever else epoll_wait
    -- returns.
    pub poll-Safe : (w : W) (evs : List Ready) → P w → NoWakeupError evs → Safe (poll server w evs)
    unfolding poll
    poll-Safe w [] i fine = (w, refl, i)
    poll-Safe w (ev ∷ evs) i (one, rest) =
        let (v, e, j) = poll_event-Safe w ev i one in
        let (w', e', j') = poll-Safe v evs j rest in (w', rw e e', j')
