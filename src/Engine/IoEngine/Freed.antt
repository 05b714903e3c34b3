-- ===== src/Engine/IoEngine/Freed.antt =====
-- `onTimerCallbackTimeout` on a handler that only the engine's table holds.
use zlnet.Base.{
  ℕ, zero, suc, ◌+◌, ◌≤◌, ◌<◌, ◌≡◌, refl, ap, ◌∙◌, List, [], ◌∷◌, ◌++◌, length, true, false, ◌==◌,
  Bool-cases, inl, inr, Result, ok, fault, dangling, ◌>>=◌, arith,
}
use zlnet.Base.Core.{Core}
use zlnet.Engine.Messages.{IoPacket}
use zlnet.Engine.IoEngine.{IoEngine, Hooks}
use zlnet.Engine.IoEngine.Callbacks.{forget, time_out, timeout_packet, on_timer_callback_timeout}
use zlnet.Engine.IoEngine.Ids.{has, Ordered, Later-at}
use zlnet.Engine.IoEngine.Waiting.{Inv}
use zlnet.Engine.IoEngine.Timer.{
  Adds, expired, time_out-ok, time_out-expired, forget-Inv, forget-first, forget-handlers,
  timer_come,
}

has-append_left : (p : ℕ) (xs ys : List ℕ) → has p xs ≡ true → has p (xs ++ ys) ≡ true
unfolding has
has-append_left p [] ys h = cc
has-append_left p (x ∷ xs) ys h = ground (arith, has-append_left p xs ys)

module _ (core : Core) {U M : Type 0} (hooks : Hooks U M) where
  -- Every handler that is called returns.
  abbrev pub Returns : Type 0
  Returns =
      (p : ℕ) (packet : IoPacket M) (s : IoEngine U M)
      → (s' : IoEngine U M) × (hooks.on_callback p packet s ≡ ok s')

  time_out-shared :
      (e : IoEngine U M) (p : ℕ)
      → Returns
      → (e.handlers p).shared ≡ true
      → (e' : IoEngine U M) × (time_out core hooks e p ≡ ok e')
  unfolding time_out
  time_out-shared e p all h =
      let (e', c) =
        all p (timeout_packet core hooks (e.handlers p)) (forget core e (e.handlers p).cb_id p) in
      (e', rw (time_out, h) c)

  time_out-alone :
      (e : IoEngine U M) (p : ℕ)
      → (e.handlers p).shared ≡ false
      → time_out core hooks e p ≡ fault dangling
  unfolding time_out
  time_out-alone e p h = rw (time_out, h) refl

  -- A callback behind the first waits on after the first was timed out.
  time_out-rest :
      (now : ℕ) (e : IoEngine U M) (q p : ℕ) (rest : List ℕ) {e' : IoEngine U M}
      → Adds hooks now
      → e.timeouts ≡ q ∷ rest
      → Inv now e
      → time_out core hooks e q ≡ ok e'
      → has p rest ≡ true
      → (has p e'.timeouts ≡ true)
        × ((e'.handlers p).to_ms ≡ (e.handlers p).to_ms)
        × ((e'.handlers p).shared ≡ (e.handlers p).shared)
  unfolding has
  time_out-rest now e q p rest {e'} adds f i h m =
      let id = (e.handlers q).cb_id in
      let s = forget core e id q in
      let first : has q e.timeouts ≡ true = rw f (ground arith) in
      let left : s.timeouts ≡ rest = forget-first core hooks id e q rest f in
      let (i', g) =
        adds q _ s e' (forget-Inv core now id e q (i.listed q first) i)
          (time_out-ok core hooks e q h) in
      let here : has p s.timeouts ≡ true = rw left m in
      (
        rw (g.grown) (has-append_left p s.timeouts g.added here),
        ground (arith, g.kept p here, forget-handlers core hooks id e q),
        ground (arith, g.kept p here, forget-handlers core hooks id e q),
      )

  abbrev Dangles : ℕ → ℕ → Type 0
  Dangles rounds now =
      (e : IoEngine U M) (p : ℕ)
      → Inv now e
      → has p e.timeouts ≡ true
      → (e.handlers p).to_ms ≤ now
      → (e.handlers p).shared ≡ false
      → length (expired now e.handlers e.timeouts) < rounds
      → on_timer_callback_timeout core hooks rounds now e ≡ fault dangling

  -- The round of the first callback: it is the one, or the one is behind it.
  first_step :
      (rounds now : ℕ) (e : IoEngine U M) (p q : ℕ) (rest : List ℕ)
      → Dangles rounds now
      → Adds hooks now
      → Returns
      → Inv now e
      → e.timeouts ≡ q ∷ rest
      → (e.handlers q).to_ms ≤ now
      → has p (q ∷ rest) ≡ true
      → (e.handlers p).to_ms ≤ now
      → (e.handlers p).shared ≡ false
      → length (expired now e.handlers (q ∷ rest)) < suc rounds
      → on_timer_callback_timeout core hooks (suc rounds) now e ≡ fault dangling
  unfolding has expired
  first_step rounds now e p q rest again adds all i f first m b alone few =
      let next : Result (IoEngine U M) → Result (IoEngine U M) =
        λ t. t >>= λ e'. on_timer_callback_timeout core hooks rounds now e' in
      let round = timer_come core hooks rounds now e q rest f first in
      elim (Bool-cases (e.handlers q).shared) [
        | inl s ↦
            let (e', t) = time_out-shared e q all s in
            let here : has p rest ≡ true = ground (arith) in
            let (m', same, kept) = time_out-rest now e q p rest adds f i t here in
            let (i', left) = time_out-expired core hooks now e q rest adds f i t in
            let fewer : length (expired now e.handlers rest) < rounds = ground (arith) in
            round ∙ ap next t ∙ again e' p i' m' (rw same b) (kept ∙ alone) (rw left fewer)
        | inr a ↦ round ∙ ap next (time_out-alone e q a)
      ]

  dangling_step :
      (rounds now : ℕ) (e : IoEngine U M) (p : ℕ) (l : List ℕ)
      → Dangles rounds now
      → Adds hooks now
      → Returns
      → Inv now e
      → e.timeouts ≡ l
      → Ordered e.handlers e.next_callback_id (now + e.callback_timeout_ms) l
      → has p l ≡ true
      → (e.handlers p).to_ms ≤ now
      → (e.handlers p).shared ≡ false
      → length (expired now e.handlers l) < suc rounds
      → on_timer_callback_timeout core hooks (suc rounds) now e ≡ fault dangling
  unfolding has
  dangling_step rounds now e p [] again adds all i f o m b alone few = cc
  dangling_step rounds now e p (q ∷ rest) again adds all i f o m b alone few =
      let first : (e.handlers q).to_ms ≤ now = elim (Bool-cases (p == q)) [
        | inl s ↦ ground (arith)
        | inr n ↦ omega (arith, Later-at e.handlers _ _ _ rest p o.3 (ground arith))
      ] in
      first_step rounds now e p q rest again adds all i f first m b alone few

  -- On an engine whose waiting callbacks are in order, where every handler that is called returns
  -- and only adds callbacks that end later than now: if some callback whose time has come has a
  -- handler that only the engine's table holds, as the overload of send for a function makes it,
  -- the timer, on more rounds than there are callbacks whose time has come, comes to use a handler
  -- that it has freed.
  pub timer_dangling :
      (rounds now : ℕ) (e : IoEngine U M) (p : ℕ)
      → Adds hooks now
      → Returns
      → Inv now e
      → has p e.timeouts ≡ true
      → (e.handlers p).to_ms ≤ now
      → (e.handlers p).shared ≡ false
      → length (expired now e.handlers e.timeouts) < rounds
      → on_timer_callback_timeout core hooks rounds now e ≡ fault dangling
  timer_dangling zero now e p adds all i m b alone few = absurd (omega arith)
  timer_dangling (suc rounds) now e p adds all i m b alone few =
      dangling_step rounds now e p e.timeouts (λ e' p'. timer_dangling rounds now e' p' adds all)
        adds all i refl i.ordered m b alone few
