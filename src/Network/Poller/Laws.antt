-- ===== src/Network/Poller/Laws.antt =====
-- What the kernel watches for an object, after calls of the poller.
use Prim.Native.Nat.{bit_and, bit_or, bit_xor}
use zlnet.Base.{
  ℕ, ◌<◌, ◌≡◌, ◌≢◌, ◌⊎◌, inl, inr, refl, sym, ap, ◌∙◌, arith, List, [], ◌∷◌, Option, none, some,
  Bool, true, false, not, ◌==◌, if◌then◌else◌, Bool-cases,
}
use zlnet.Network.Poller.{
  IoObject, EpollEvent, Epoll, Ctl, update_events, add, modify, delete, update_object,
  remove_object, has_reading, has_writing, read_event, write_event, register_read_handler,
  register_write_handler, deregister_read_handler, deregister_write_handler, deregister_object,
}

abbrev pub event_of : ℕ → ℕ → EpollEvent
event_of events key = record {
  input = not (bit_and events read_event == 0);
  output = not (bit_and events write_event == 0);
  data_key = key;
}

-- What the kernel is to watch for an object with these events.
abbrev pub wanted : ℕ → ℕ → Option EpollEvent
wanted events key = if events == 0 then none else some (event_of events key)

pub four_cases : (e : ℕ) → e < 4 → (e ≡ 0) ⊎ (e ≡ 1) ⊎ (e ≡ 2) ⊎ (e ≡ 3)
four_cases e h = omega arith

-- A call of the poller on the object.
pub data Request : Type 0 where
  register_read register_write deregister_read deregister_write deregister : Request

-- What a call does to the pair of `hasReading` and `hasWriting`.
abbrev pub effect : Request → Bool × Bool → Bool × Bool
effect register_read (r, w) = (true, w)
effect register_write (r, w) = (r, true)
effect deregister_read (r, w) = (not r, w)
effect deregister_write (r, w) = (r, not w)
effect deregister (r, w) = (false, false)

abbrev pub effects : List Request → Bool × Bool → Bool × Bool
effects [] b = b
effects (r ∷ rs) b = effects rs (effect r b)

abbrev bits : ℕ → Bool × Bool
bits e = (not (bit_and read_event e == 0), not (bit_and write_event e == 0))

-- The object's events after a call.
abbrev pub new_events : Request → ℕ → ℕ
new_events register_read e = bit_or e read_event
new_events register_write e = bit_or e write_event
new_events deregister_read e = bit_xor e read_event
new_events deregister_write e = bit_xor e write_event
new_events deregister e = 0

abbrev Effected : Request → ℕ → Type 0
Effected r e = (new_events r e < 4) × (bits (new_events r e) ≡ effect r (bits e))

effected : (r : Request) → Effected r 0 × Effected r 1 × Effected r 2 × Effected r 3
effected register_read =
    ((omega arith, refl), (omega arith, refl), (omega arith, refl), (omega arith, refl))
effected register_write =
    ((omega arith, refl), (omega arith, refl), (omega arith, refl), (omega arith, refl))
effected deregister_read =
    ((omega arith, refl), (omega arith, refl), (omega arith, refl), (omega arith, refl))
effected deregister_write =
    ((omega arith, refl), (omega arith, refl), (omega arith, refl), (omega arith, refl))
effected deregister =
    ((omega arith, refl), (omega arith, refl), (omega arith, refl), (omega arith, refl))

pub new_events_lem : (r : Request) (e : ℕ) → e < 4 → Effected r e
new_events_lem r e h =
    let (a, b, c, d) = effected r in
    elim (four_cases e h) [
      | inl z ↦ rw z a
      | inr (inl z) ↦ rw z b
      | inr (inr (inl z)) ↦ rw z c
      | inr (inr (inr z)) ↦ rw z d
    ]

-- The call of `epoll_ctl` that updates an object to these events.
abbrev pub control : IoObject → ℕ → Ctl
control o events =
    if events == 0
    then delete
    else if o.events == 0
    then add (event_of events o.key)
    else modify (event_of events o.key)

module _ {K : Type 0} (epoll : Epoll K) where
  abbrev pub apply : Request → K × IoObject → K × IoObject
  apply register_read (k, o) = register_read_handler epoll k o
  apply register_write (k, o) = register_write_handler epoll k o
  apply deregister_read (k, o) = deregister_read_handler epoll k o
  apply deregister_write (k, o) = deregister_write_handler epoll k o
  apply deregister (k, o) = deregister_object epoll k o

  abbrev pub apply_all : List Request → K × IoObject → K × IoObject
  apply_all [] s = s
  apply_all (r ∷ rs) s = apply_all rs (apply r s)

  abbrev pub directions : K × IoObject → Bool × Bool
  directions s = (has_reading s.1, has_writing s.1)

  -- The call of `epoll_ctl` for a request, and whether it succeeds.
  abbrev pub answer : Request → K × IoObject → Bool × K
  answer r s = epoll.ctl s.0 (control s.1 (new_events r s.1.events)) s.1.socket

  update_lem :
      (k : K) (o : IoObject) (events : ℕ)
      → update_object epoll k o events
        ≡ ((epoll.ctl k (control o events) o.socket).1, update_events o events)
  unfolding update_object remove_object
  update_lem k o events = elim (Bool-cases (events == 0)) [
    | inl z ↦ let zero : events ≡ 0 = ground (arith) in rw (update_object, zero) refl
    | inr z ↦ rw (update_object, z) refl
  ]

  pub apply_lem :
      (r : Request) (s : K × IoObject)
      → apply r s ≡ ((answer r s).1, update_events s.1 (new_events r s.1.events))
  unfolding register_read_handler register_write_handler deregister_read_handler
      deregister_write_handler deregister_object remove_object
  apply_lem register_read (k, o) = update_lem k o _
  apply_lem register_write (k, o) = update_lem k o _
  apply_lem deregister_read (k, o) = update_lem k o _
  apply_lem deregister_write (k, o) = update_lem k o _
  apply_lem deregister (k, o) = refl

  abbrev pub watching : K × IoObject → Option EpollEvent
  watching s = epoll.registered s.0 s.1.socket

  -- What the kernel watches, by the calls of `epoll_ctl` that succeed: what the events said at the last.
  abbrev pub watched : List Request → K × IoObject → Option EpollEvent → Option EpollEvent
  watched [] s w = w
  watched (r ∷ rs) s w =
      watched rs (apply r s)
        (if (answer r s).0 then wanted (new_events r s.1.events) s.1.key else w)

  -- A call of `epoll_ctl` that succeeds sets `w`, and one that fails nothing.
  settles :
      (k : K) (c : Ctl) (u : ℕ) (w : Option EpollEvent)
      → ((epoll.ctl k c u).0 ≡ true → epoll.registered (epoll.ctl k c u).1 u ≡ w)
      → epoll.registered (epoll.ctl k c u).1 u
        ≡ (if (epoll.ctl k c u).0 then w else epoll.registered k u)
  settles k c u w h = elim (Bool-cases (epoll.ctl k c u).0) [
    | inl done ↦ h done ∙ rw done refl
    | inr failed ↦ epoll.failed_lem k c u failed ∙ rw failed refl
  ]

  controlled :
      (k : K) (o : IoObject) (events : ℕ)
      → epoll.registered (epoll.ctl k (control o events) o.socket).1 o.socket ≡ (
          if (epoll.ctl k (control o events) o.socket).0
          then wanted events o.key
          else epoll.registered k o.socket)
  controlled k o events = elim (Bool-cases (events == 0)) [
    | inl z ↦ rw z (settles k delete o.socket none (λ h. (epoll.delete_lem k o.socket h).1))
    | inr z ↦ elim (Bool-cases (o.events == 0)) [
      | inl old ↦
          let e = event_of events o.key in
          rw (z, old) (settles k (add e) o.socket (some e) (λ h. (epoll.add_lem k o.socket e h).1))
      | inr old ↦
          let e = event_of events o.key in
          rw (z, old)
            (settles k (modify e) o.socket (some e) (λ h. (epoll.modify_lem k o.socket e h).1))
    ]
  ]

  -- The object and the kernel after a request, whether its call of `epoll_ctl` succeeds or not.
  pub record Updated (r : Request) (s t : K × IoObject) : Type 0 where
    pub events_now : t.1.events ≡ new_events r s.1.events
    pub same_key : t.1.key ≡ s.1.key
    pub same_socket : t.1.socket ≡ s.1.socket
    pub watching_now :
        watching t
        ≡ (if (answer r s).0 then wanted (new_events r s.1.events) s.1.key else watching s)
    pub others : (u : ℕ) → s.1.socket ≢ u → epoll.registered t.0 u ≡ epoll.registered s.0 u

  pub apply-Updated : (r : Request) (s : K × IoObject) → Updated r s (apply r s)
  apply-Updated r s = rw (apply_lem r s) (record {
    events_now = refl;
    same_key = refl;
    same_socket = refl;
    watching_now = controlled s.0 s.1 (new_events r s.1.events);
    others = λ u d. epoll.other_lem s.0 (control s.1 (new_events r s.1.events)) s.1.socket u d;
  })

  -- For an object with the events READ and WRITE or fewer, and any sequence of calls of the poller
  -- on it, whichever of their epoll_ctl calls fail: what the kernel watches for the object's
  -- socket is what the object's events said, with its key, at the last call whose epoll_ctl
  -- succeeded, and what it watched before where none did; what is watched for another socket, the
  -- object's key and its socket stay; and the object's own events change as if all had succeeded:
  -- a register call sets its event, deregisterReadHandler and deregisterWriteHandler turn theirs
  -- over, and deregisterObject clears both.
  pub registered-apply_all :
      (rs : List Request) {s : K × IoObject} (u : ℕ)
      → s.1.events < 4
      → s.1.socket ≢ u
      → let t = apply_all rs s in
        (watching t ≡ watched rs s (watching s))
        × (directions t ≡ effects rs (directions s))
        × (t.1.events < 4)
        × (t.1.key ≡ s.1.key)
        × (t.1.socket ≡ s.1.socket)
        × (epoll.registered t.0 u ≡ epoll.registered s.0 u)
  registered-apply_all [] u small other = (refl, refl, small, refl, refl, refl)
  registered-apply_all (r ∷ rs) {s} u small other =
      let one = apply-Updated r s in
      let (fits, turned) = new_events_lem r s.1.events small in
      let (w, d, e, k, so, oth) =
        registered-apply_all rs {s = apply r s} u (rw (one.events_now) fits)
          (λ e. other (sym one.same_socket ∙ e)) in
      let now : directions (apply r s) ≡ effect r (directions s) =
        ap bits one.events_now ∙ turned in
      (
        w ∙ ap (watched rs (apply r s)) one.watching_now,
        d ∙ ap (effects rs) now,
        e,
        k ∙ one.same_key,
        so ∙ one.same_socket,
        oth ∙ one.others u other,
      )
