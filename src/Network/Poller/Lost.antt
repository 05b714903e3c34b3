-- ===== src/Network/Poller/Lost.antt =====
-- An object whose `epoll_ctl` fails, after the calls of the poller that follow.
use zlnet.Base.{
  ℕ, ◌<◌, ◌≡◌, inl, inr, refl, sym, ap, ◌∙◌, arith, List, [], ◌∷◌, none, Bool, true, false, ◌==◌,
  ◌&&◌, Bool-cases,
}
use zlnet.Network.Poller.{IoObject, Epoll, modify}
use zlnet.Network.Poller.Laws.{
  Request, register_read, register_write, deregister_read, deregister_write, deregister, new_events,
  control, event_of, apply, apply_all, answer, watching, apply-Updated, four_cases, new_events_lem,
}

-- Whether a request registers an event.
abbrev pub registers : Request → Bool
registers register_read = true
registers register_write = true
registers deregister_read = false
registers deregister_write = false
registers deregister = false

abbrev pub all_register : List Request → Bool
all_register [] = true
all_register (r ∷ rs) = registers r && all_register rs

-- An object that waits for something still does after a registration.
registers_lem : (r : Request) (e : ℕ) → registers r ≡ true → e < 4 → (new_events r e == 0) ≡ false
registers_lem register_read e h b = elim (four_cases e b) [
  | inl z ↦ rw z refl
  | inr (inl z) ↦ rw z refl
  | inr (inr (inl z)) ↦ rw z refl
  | inr (inr (inr z)) ↦ rw z refl
]
registers_lem register_write e h b = elim (four_cases e b) [
  | inl z ↦ rw z refl
  | inr (inl z) ↦ rw z refl
  | inr (inr (inl z)) ↦ rw z refl
  | inr (inr (inr z)) ↦ rw z refl
]
registers_lem deregister_read e h b = cc
registers_lem deregister_write e h b = cc
registers_lem deregister e h b = cc

module _ {K : Type 0} (epoll : Epoll K) where
  -- The object waits for something, of which the kernel knows nothing.
  pub record Lost (s : K × IoObject) : Type 0 where
    pub small : s.1.events < 4
    pub waits : (s.1.events == 0) ≡ false
    pub unknown : watching epoll s ≡ none

  -- What is not registered cannot be modified.
  refused :
      (r : Request) (s : K × IoObject) → registers r ≡ true → Lost s → (answer epoll r s).0 ≡ false
  refused r s h l =
      let events = new_events r s.1.events in
      let asks : control s.1 events ≡ modify (event_of events s.1.key) =
        rw (registers_lem r s.1.events h l.small, l.waits) refl in
      elim (Bool-cases (answer epoll r s).0) [
        | inl done ↦
            let modified : (epoll.ctl s.0 (modify (event_of events s.1.key)) s.1.socket).0 ≡ true =
              ap (λ c. (epoll.ctl s.0 c s.1.socket).0) (sym asks) ∙ done in
            absurd ((epoll.modify_lem s.0 s.1.socket _ modified).0 l.unknown)
        | inr failed ↦ failed
      ]

  -- After a call of `epoll_ctl` that fails.
  failed-Lost :
      (r : Request) (s : K × IoObject)
      → registers r ≡ true
      → s.1.events < 4
      → watching epoll s ≡ none
      → (answer epoll r s).0 ≡ false
      → Lost (apply epoll r s)
  failed-Lost r s h small unknown failed =
      let one = apply-Updated epoll r s in
      record {
        small = rw (one.events_now) (new_events_lem r s.1.events small).0;
        waits = rw (one.events_now) (registers_lem r s.1.events h small);
        unknown = one.watching_now ∙ rw failed unknown;
      }

  all-Lost :
      (rs : List Request) (s : K × IoObject)
      → all_register rs ≡ true
      → Lost s
      → Lost (apply_all epoll rs s)
  all-Lost [] s h l = l
  all-Lost (r ∷ rs) s h l =
      let first : registers r ≡ true = ground arith in
      all-Lost rs (apply epoll r s) (ground arith)
        (failed-Lost r s first l.small l.unknown (refused r s first l))

  -- Where the kernel watches nothing for an object's socket and the epoll_ctl of a register call
  -- fails, then after that call and any number of further register calls the object's events say
  -- that it waits and the kernel still watches nothing.
  pub apply_all-Lost :
      (r : Request) (rs : List Request) (s : K × IoObject)
      → all_register (r ∷ rs) ≡ true
      → s.1.events < 4
      → watching epoll s ≡ none
      → (answer epoll r s).0 ≡ false
      → let t = apply_all epoll (r ∷ rs) s in
        (watching epoll t ≡ none) × ((t.1.events == 0) ≡ false)
  apply_all-Lost r rs s h small unknown failed =
      let first : registers r ≡ true = ground arith in
      let l =
        all-Lost rs (apply epoll r s) (ground arith) (failed-Lost r s first small unknown failed) in
      (l.unknown, l.waits)
