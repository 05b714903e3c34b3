-- ===== src/Engine/IoEngine/Ticks.antt =====
-- The invariant of the waiting callbacks across `onTimerCallbackTimeout`.
use zlnet.Base.{
  ℕ, zero, suc, ◌≡◌, refl, sym, subst, List, [], ◌∷◌, true, lt_cases, inl, inr, fuel, dangling,
  Ensures, returns, stops, if-Ensures, >>=-Ensures, arith,
}
use zlnet.Base.Core.{Core}
use zlnet.Engine.IoEngine.{IoEngine, Hooks}
use zlnet.Engine.IoEngine.Callbacks.{time_out, on_timer_callback_timeout}
use zlnet.Engine.IoEngine.Ids.{has}
use zlnet.Engine.IoEngine.Waiting.{Inv, Keeps}
use zlnet.Engine.IoEngine.Timer.{forget-Inv, timer_empty, timer_late, timer_come}
use zlnet.Engine.IoEngine.Keeping.{HooksKeep}

module _ (core : Core) {U M : Type 0} (hooks : Hooks U M) (k : HooksKeep hooks) where
  time_out-Ensures :
      (now : ℕ) (e : IoEngine U M) (p : ℕ)
      → has p e.timeouts ≡ true
      → Inv now e
      → Ensures (Inv now) (time_out core hooks e p)
  unfolding time_out
  time_out-Ensures now e p m i =
      if-Ensures _ _ _ (k.callback_keeps p _ now _ (forget-Inv core now _ e p (i.listed p m) i))
        (stops dangling)

  tick_step :
      (rounds clock now : ℕ) (e : IoEngine U M) (l : List ℕ)
      → Keeps (on_timer_callback_timeout core hooks rounds clock)
      → e.timeouts ≡ l
      → Inv now e
      → Ensures (Inv now) (on_timer_callback_timeout core hooks (suc rounds) clock e)
  unfolding has
  tick_step rounds clock now e [] again f i =
      subst (Ensures (Inv now)) (sym (timer_empty core hooks rounds clock e f)) (returns i)
  tick_step rounds clock now e (p ∷ rest) again f i = elim (lt_cases clock (e.handlers p).to_ms) [
    | inl late ↦
        subst (Ensures (Inv now)) (sym (timer_late core hooks rounds clock e p rest f late))
          (returns i)
    | inr come ↦
        subst (Ensures (Inv now)) (sym (timer_come core hooks rounds clock e p rest f come)) (
          >>=-Ensures _ (time_out-Ensures now e p (rw f (ground arith)) i) (λ e' j. again now e' j))
  ]

  pub timer-Keeps : (rounds clock : ℕ) → Keeps (on_timer_callback_timeout core hooks rounds clock)
  unfolding on_timer_callback_timeout
  timer-Keeps zero clock now e i = stops fuel
  timer-Keeps (suc rounds) clock now e i =
      tick_step rounds clock now e e.timeouts (timer-Keeps rounds clock) refl i
