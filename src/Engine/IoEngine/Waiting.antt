-- ===== src/Engine/IoEngine/Waiting.antt =====
-- The invariant of the waiting callbacks: the table and the list hold the same handlers, under ids
-- that no two share, in the order of their times.
use zlnet.Base.{
  ℕ, ◌+◌, ◌≤◌, ◌<◌, ◌≡◌, ◌≢◌, List, [], ◌∷◌, ◌++◌, none, some, true, ◌==◌, Bool-cases, inl, inr,
  Ensures, arith,
}
use zlnet.Base.Core.{Table, put, without}
use zlnet.Engine.IoEngine.{IoEngine, Handler}
use zlnet.Engine.IoEngine.Callbacks.{last_id}
use zlnet.Engine.IoEngine.Ids.{
  Handlers, next_id, has, SameTimes, Ordered, Ordered-at, Ordered-same, Ordered-without, has-append,
  has-without, not-has-without,
}
use zlnet.Engine.IoEngine.NextId.{
  FirstIsNot, Ordered-fresh, Ordered-step, Ordered-later, Ordered-push,
}

-- `last` bounds the times, `n` is the last id that was handed out.
pub record Waits (last n : ℕ) (l : List ℕ) (t : Table) (h : Handlers) : Type 0 where
  pub next_fits : n ≤ last_id
  pub ordered : Ordered h n last l
  pub listed : (p : ℕ) → has p l ≡ true → t (h p).cb_id ≡ some p
  pub found : (id p : ℕ) → t id ≡ some p → (has p l ≡ true) × ((h p).cb_id ≡ id)

abbrev pub Inv : {U M : Type 0} → ℕ → IoEngine U M → Type 0
Inv now e =
    Waits (now + e.callback_timeout_ms) e.next_callback_id e.timeouts e.callback_handlers e.handlers

-- A part of the engine keeps the invariant in what it returns.
abbrev pub Keeps : {U M : Type 0} → Handler U M → Type 0
Keeps {U} {M} f = (now : ℕ) (e : IoEngine U M) → Inv now e → Ensures (Inv now) (f e)

pub Waits-later :
    (last last' n : ℕ) (l : List ℕ) (t : Table) (h : Handlers)
    → last ≤ last'
    → Waits last n l t h
    → Waits last' n l t h
Waits-later last last' n l t h b w = record {
  next_fits = w.next_fits;
  ordered = Ordered-later h n last last' l b w.ordered;
  listed = w.listed;
  found = w.found;
}

-- A change of a handler's `_uid` and `_cmd` is none of the ids and times.
pub Waits-same :
    (last n : ℕ) (l : List ℕ) (t : Table) (h h' : Handlers)
    → ((p : ℕ) → ((h' p).cb_id ≡ (h p).cb_id) × ((h' p).to_ms ≡ (h p).to_ms))
    → Waits last n l t h
    → Waits last n l t h'
Waits-same last n l t h h' s w = record {
  next_fits = w.next_fits;
  ordered = Ordered-same h h' n last l (λ p m. s p) w.ordered;
  listed = λ p m. rw ((s p).0) (w.listed p m);
  found = λ id p e. rw ((s p).0) (w.found id p e);
}

-- The handler of an entry leaves the table and the list.
pub Waits-without :
    (last n : ℕ) (l : List ℕ) (t : Table) (h : Handlers) (id p : ℕ)
    → t id ≡ some p
    → Waits last n l t h
    → Waits last n (without p l) (put t id none) h
unfolding put
Waits-without last n l t h id p e w = record {
  next_fits = w.next_fits;
  ordered = Ordered-without h n last p l w.ordered;
  listed = λ q m. elim (Bool-cases (p == q)) [
    | inl same ↦ absurd (ground (arith, not-has-without h n last p l w.ordered))
    | inr other ↦
        let ne : p ≢ q = ground arith in
        ground (arith, has-without p q l ne, w.listed q, w.listed p, w.found id p e, w.found)
  ];
  found = λ k q f.
      ground (arith, w.found k q, w.found id p e, has-without p q l, not-has-without h n last p l);
}

next_id_fits : (n : ℕ) → n ≤ last_id → (0 < next_id n) × (next_id n ≤ last_id)
next_id_fits n h = ground arith

-- A bound handler: it has the new id and the time at which its callback ends.
abbrev pub bind_at : Handlers → ℕ → ℕ → ℕ → Handlers
bind_at h p id to = put h p (record (h p) { cb_id = id; to_ms = to })

module _ (h : Handlers) (p id to : ℕ) where
  bind_at_self : ((bind_at h p id to p).cb_id ≡ id) × ((bind_at h p id to p).to_ms ≡ to)
  unfolding put
  bind_at_self = ground arith

  -- The handler had no id, so no list had it.
  bind_at_others :
      (last n : ℕ) (l : List ℕ)
      → (h p).cb_id ≡ 0
      → Ordered h n last l
      → SameTimes h (bind_at h p id to) l
  unfolding put
  bind_at_others last n l z o q m = ground (arith, Ordered-at h n last l q o m)

  -- A new callback, under the next id and behind the others.
  pub Waits-bind :
      (last n : ℕ) (l : List ℕ) (t : Table)
      → id ≡ next_id n
      → (h p).cb_id ≡ 0
      → last ≤ to
      → FirstIsNot h (next_id n) l
      → Waits last n l t h
      → Waits to id (l ++ p ∷ []) (put t id (some p)) (bind_at h p id to)
  unfolding put has
  Waits-bind last n l t e z b f w =
      let h' = bind_at h p id to in
      let self = bind_at_self in
      let others = bind_at_others last n l z w.ordered in
      let fits = next_id_fits n w.next_fits in
      let fresh = Ordered-fresh h n w.next_fits last l w.ordered f in
      let fresh' : (q : ℕ) → has q l ≡ true → (h' q).cb_id ≢ id =
        λ q m. ground (arith, others q m, fresh q m) in
      let before : Ordered h id to l = rw e (
        Ordered-later h (next_id n) last to l b
          (Ordered-step h n w.next_fits last l w.ordered f)) in
      let behind : Ordered h' id (h' p).to_ms l =
        rw (self.1) (Ordered-same h h' id to l others before) in
      record {
        next_fits = omega arith;
        ordered =
            rw (self.1) at
              (Ordered-push h' id p self.0 l (omega arith) (omega arith) fresh' behind);
        listed = λ q m. elim (Bool-cases (p == q)) [
          | inl same ↦ ground (arith)
          | inr other ↦ ground (arith, has-append q p l, w.listed q, fresh q, others q)
        ];
        found = λ k q g. ground (arith, has-append q p l, w.found k q, others q, self.0);
      }
