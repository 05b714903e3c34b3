-- ===== src/Engine/IoEngine/Timer.antt =====
-- `onTimerCallbackTimeout`: its loop against a pass over the callbacks whose time has come.
use zlnet.Base.{
  ℕ, zero, suc, ◌+◌, ◌≤◌, ◌<◌, ◌≡◌, refl, ◌∙◌, List, [], ◌∷◌, ◌++◌, length, some, true, ltb,
  if◌then◌else◌, Bool-cases, inl, inr, Result, ok, fault, ◌>>=◌, arith,
}
use zlnet.Base.Core.{Core, without}
use zlnet.Engine.Messages.{IoPacket}
use zlnet.Engine.IoEngine.{IoEngine, Hooks}
use zlnet.Engine.IoEngine.Callbacks.{forget, time_out, timeout_packet, on_timer_callback_timeout}
use zlnet.Engine.IoEngine.Ids.{Handlers, has, Later, Ordered}
use zlnet.Engine.IoEngine.Waiting.{Inv, Waits-without}

-- The callbacks of the list whose time has come.
unfoldable pub expired : ℕ → Handlers → List ℕ → List ℕ
expired now h [] = []
expired now h (p ∷ l) = if ltb now (h p).to_ms then expired now h l else p ∷ expired now h l

-- None of the callbacks' times has come.
abbrev pub AllLate : ℕ → Handlers → List ℕ → Type 0
AllLate now h [] = Unit
AllLate now h (p ∷ l) = (now < (h p).to_ms) × AllLate now h l

-- What a handler does to the waiting callbacks: it adds some whose time has not come.
pub record Grows {U M : Type 0} (now : ℕ) (s s' : IoEngine U M) : Type 0 where
  pub added : List ℕ
  pub grown : s'.timeouts ≡ s.timeouts ++ added
  pub added_late : AllLate now s'.handlers added
  pub kept :
      (p : ℕ)
      → has p s.timeouts ≡ true
      → ((s'.handlers p).to_ms ≡ (s.handlers p).to_ms)
        × ((s'.handlers p).shared ≡ (s.handlers p).shared)

-- A handler keeps the invariant, and only adds callbacks.
abbrev pub Adds : {U M : Type 0} → Hooks U M → ℕ → Type 0
Adds {U} {M} hooks now =
    (p : ℕ) (packet : IoPacket M) (s s' : IoEngine U M)
    → Inv now s
    → hooks.on_callback p packet s ≡ ok s'
    → Inv now s' × Grows now s s'

expired_late : (now : ℕ) (h : Handlers) (l : List ℕ) → AllLate now h l → expired now h l ≡ []
unfolding expired
expired_late now h [] a = refl
expired_late now h (p ∷ l) a = ground (arith, expired_late now h l)

-- Behind a callback whose time has not come none has.
expired-Later :
    (now n a from : ℕ) (h : Handlers) (l : List ℕ)
    → now < from
    → Later h n a from l
    → expired now h l ≡ []
unfolding expired
expired-Later now n a from h [] b w = refl
expired-Later now n a from h (p ∷ l) b w = ground (arith, expired-Later now n a from h l)

expired-append :
    (now : ℕ) (h h' : Handlers) (l added : List ℕ)
    → ((p : ℕ) → has p l ≡ true → (h' p).to_ms ≡ (h p).to_ms)
    → AllLate now h' added
    → expired now h' (l ++ added) ≡ expired now h l
unfolding expired has
expired-append now h h' [] added s a = expired_late now h' added a
expired-append now h h' (p ∷ l) added s a =
    let e : (h' p).to_ms ≡ (h p).to_ms = s p (ground arith) in
    ground (arith, expired-append now h h' l added (λ q m. s q (ground arith)) a)

module _ (core : Core) {U M : Type 0} where
  pub forget-Inv :
      (now id : ℕ) (e : IoEngine U M) (p : ℕ)
      → e.callback_handlers id ≡ some p
      → Inv now e
      → Inv now (forget core e id p)
  unfolding forget
  forget-Inv now id e p f i =
      rw (core.remove_lem, core.leave_lem) (Waits-without _ _ _ _ _ id p f i)

  module _ (hooks : Hooks U M) where
    -- The rounds of the timer for these callbacks, one after the other.
    pub expire_all : IoEngine U M → List ℕ → Result (IoEngine U M)
    expire_all e [] = ok e
    expire_all e (p ∷ l) = time_out core hooks e p >>= λ e'. expire_all e' l

    -- `forget` takes the first callback off the list.
    pub forget-first :
        (id : ℕ) (e : IoEngine U M) (p : ℕ) (rest : List ℕ)
        → e.timeouts ≡ p ∷ rest
        → (forget core e id p).timeouts ≡ rest
    unfolding forget without
    forget-first id e p rest f = rw (core.leave_lem, f) (ground arith)

    pub forget-handlers :
        (id : ℕ) (e : IoEngine U M) (p : ℕ) → (forget core e id p).handlers ≡ e.handlers
    unfolding forget
    forget-handlers id e p = refl

    pub time_out-ok :
        (e : IoEngine U M) (p : ℕ) {e' : IoEngine U M}
        → time_out core hooks e p ≡ ok e'
        → hooks.on_callback p
            (timeout_packet core hooks (e.handlers p))
            (forget core e (e.handlers p).cb_id p)
          ≡ ok e'
    unfolding time_out
    time_out-ok e p h = elim (Bool-cases (e.handlers p).shared) [
      | inl s ↦ rw s at h
      | inr n ↦ absurd (ground arith)
    ]

    pub time_out-expired :
        (now : ℕ) (e : IoEngine U M) (p : ℕ) (rest : List ℕ) {e' : IoEngine U M}
        → Adds hooks now
        → e.timeouts ≡ p ∷ rest
        → Inv now e
        → time_out core hooks e p ≡ ok e'
        → Inv now e' × (expired now e'.handlers e'.timeouts ≡ expired now e.handlers rest)
    unfolding has
    time_out-expired now e p rest {e'} adds f i h =
        let id = (e.handlers p).cb_id in
        let s = forget core e id p in
        let first : has p e.timeouts ≡ true = rw f (ground arith) in
        let left : s.timeouts ≡ rest = forget-first id e p rest f in
        let (i', g) =
          adds p _ s e' (forget-Inv now id e p (i.listed p first) i) (time_out-ok e p h) in
        let same : (q : ℕ) → has q rest ≡ true → (e'.handlers q).to_ms ≡ (e.handlers q).to_ms =
          λ q m. ground (arith, g.kept q (rw left m), forget-handlers id e p) in
        (
          i',
          rw (g.grown, left)
              (expired-append now e.handlers e'.handlers rest g.added same g.added_late),
        )

    -- The three ways of a round.
    pub timer_empty :
        (rounds now : ℕ) (e : IoEngine U M)
        → e.timeouts ≡ []
        → on_timer_callback_timeout core hooks (suc rounds) now e ≡ ok e
    unfolding on_timer_callback_timeout
    timer_empty rounds now e f = ground (arith)

    pub timer_late :
        (rounds now : ℕ) (e : IoEngine U M) (p : ℕ) (rest : List ℕ)
        → e.timeouts ≡ p ∷ rest
        → now < (e.handlers p).to_ms
        → on_timer_callback_timeout core hooks (suc rounds) now e ≡ ok e
    unfolding on_timer_callback_timeout
    timer_late rounds now e p rest f b = ground (arith)

    pub timer_come :
        (rounds now : ℕ) (e : IoEngine U M) (p : ℕ) (rest : List ℕ)
        → e.timeouts ≡ p ∷ rest
        → (e.handlers p).to_ms ≤ now
        → on_timer_callback_timeout core hooks (suc rounds) now e
          ≡ (time_out core hooks e p >>= λ e'. on_timer_callback_timeout core hooks rounds now e')
    unfolding on_timer_callback_timeout
    timer_come rounds now e p rest f b = ground (arith)

    abbrev Agrees : ℕ → ℕ → IoEngine U M → Type 0
    Agrees rounds now e =
        on_timer_callback_timeout core hooks rounds now e
        ≡ expire_all e (expired now e.handlers e.timeouts)

    -- After a round that ends well the rest of the pass is left.
    timer_rest :
        (rounds now : ℕ) (e : IoEngine U M) (p : ℕ) (rest : List ℕ)
        → ((e' : IoEngine U M)
            → time_out core hooks e p ≡ ok e'
            → on_timer_callback_timeout core hooks rounds now e'
              ≡ expire_all e' (expired now e.handlers rest))
        → (time_out core hooks e p >>= λ e'. on_timer_callback_timeout core hooks rounds now e')
          ≡ expire_all e (p ∷ expired now e.handlers rest)
    unfolding expire_all
    timer_rest rounds now e p rest again = go (time_out core hooks e p) again
      where
        go :
            (m : Result (IoEngine U M))
            → ((e' : IoEngine U M)
                → m ≡ ok e'
                → on_timer_callback_timeout core hooks rounds now e'
                  ≡ expire_all e' (expired now e.handlers rest))
            → (m >>= λ e'. on_timer_callback_timeout core hooks rounds now e')
              ≡ (m >>= λ e'. expire_all e' (expired now e.handlers rest))
        go (ok e') again = again e' refl
        go (fault x) again = refl

    timer_step :
        (rounds now : ℕ) (e : IoEngine U M) (l : List ℕ)
        → ((e' : IoEngine U M)
            → Inv now e'
            → length (expired now e'.handlers e'.timeouts) < rounds
            → Agrees rounds now e')
        → Adds hooks now
        → Inv now e
        → e.timeouts ≡ l
        → length (expired now e.handlers l) < suc rounds
        → Ordered e.handlers e.next_callback_id (now + e.callback_timeout_ms) l
        → on_timer_callback_timeout core hooks (suc rounds) now e
          ≡ expire_all e (expired now e.handlers l)
    unfolding expired expire_all
    timer_step rounds now e [] again adds i f b o = timer_empty rounds now e f
    timer_step rounds now e (p ∷ rest) again adds i f b o =
        elim (Bool-cases (ltb now (e.handlers p).to_ms)) [
          | inl late ↦
              rw (late, expired-Later now _ _ _ e.handlers rest (ground arith) o.3)
                (timer_late rounds now e p rest f (ground arith))
          | inr come ↦ rw come (
              timer_come rounds now e p rest f (ground arith)
              ∙ timer_rest rounds now e p rest (λ e' h.
                let (i', same) = time_out-expired now e p rest adds f i h in
                rw same at (again e' i' (rw same (ground (arith, b, come))))))
        ]

    -- On an engine whose waiting callbacks are in order, where a handler that is called only adds
    -- callbacks that end later than now, the timer's loop, on more rounds than there are callbacks
    -- whose time has come, does the same as one pass over those callbacks, oldest first, which
    -- takes each out of the table and the lists and then gives its handler the timeout packet; it
    -- calls no other handler.
    pub on_timer-expire_all :
        (rounds now : ℕ) (e : IoEngine U M)
        → Adds hooks now
        → Inv now e
        → length (expired now e.handlers e.timeouts) < rounds
        → Agrees rounds now e
    on_timer-expire_all zero now e adds i b = absurd (omega arith)
    on_timer-expire_all (suc rounds) now e adds i b =
        timer_step rounds now e e.timeouts (λ e'. on_timer-expire_all rounds now e' adds) adds i
          refl b i.ordered
