-- ===== src/Network/Poller/Tables.antt =====
-- A kernel for tests of what stands on network/EPoller.cpp: `epoll_ctl` on a table, which has no room for
-- the socket `full`.
use zlnet.Base.{
  ℕ, ◌≡◌, ◌≢◌, refl, arith, Option, none, some, Bool, true, false, ◌==◌, if◌then◌else◌,
}
use zlnet.Network.Poller.{EpollEvent, Epoll, Ctl, add, modify, delete}

abbrev pub Table : Type 0
Table = ℕ → Option EpollEvent

abbrev pub set_at : Table → ℕ → Option EpollEvent → Table
set_at k s e t = if t == s then e else k t

abbrev pub full : ℕ
full = 1000

-- `epoll_ctl`, by what stands at the socket.
abbrev pub table_ctl : Table → Option EpollEvent → Ctl → ℕ → Bool × Table
table_ctl k none (add e) s = if s == full then (false, k) else (true, set_at k s (some e))
table_ctl k none (modify e) s = (false, k)
table_ctl k none delete s = (false, k)
table_ctl k (some d) (add e) s = (false, k)
table_ctl k (some d) (modify e) s = (true, set_at k s (some e))
table_ctl k (some d) delete s = (true, set_at k s none)

pub add_table :
    (k : Table) (o : Option EpollEvent) (s : ℕ) (e : EpollEvent)
    → (table_ctl k o (add e) s).0 ≡ true
    → (o ≡ none) × ((table_ctl k o (add e) s).1 s ≡ some e)
add_table k none s e h = ground (arith)
add_table k (some d) s e h = cc

pub modify_table :
    (k : Table) (o : Option EpollEvent) (s : ℕ) (e : EpollEvent)
    → (table_ctl k o (modify e) s).0 ≡ true
    → (o ≢ none) × ((table_ctl k o (modify e) s).1 s ≡ some e)
modify_table k none s e h = cc
modify_table k (some d) s e h = (λ n. cc, ground (arith))

pub delete_table :
    (k : Table) (o : Option EpollEvent) (s : ℕ)
    → (table_ctl k o delete s).0 ≡ true
    → (o ≢ none) × ((table_ctl k o delete s).1 s ≡ none)
delete_table k none s h = cc
delete_table k (some d) s h = (λ n. cc, ground (arith))

pub failed_table :
    (k : Table) (o : Option EpollEvent) (c : Ctl) (s : ℕ)
    → (table_ctl k o c s).0 ≡ false
    → (table_ctl k o c s).1 s ≡ k s
failed_table k none (add e) s h = ground (arith)
failed_table k none (modify e) s h = refl
failed_table k none delete s h = refl
failed_table k (some d) (add e) s h = refl
failed_table k (some d) (modify e) s h = cc
failed_table k (some d) delete s h = cc

pub other_table :
    (k : Table) (o : Option EpollEvent) (c : Ctl) (s t : ℕ) → s ≢ t → (table_ctl k o c s).1 t ≡ k t
other_table k none (add e) s t d = ground (arith)
other_table k none (modify e) s t d = refl
other_table k none delete s t d = refl
other_table k (some _) (add e) s t d = refl
other_table k (some _) (modify e) s t d = ground (arith)
other_table k (some _) delete s t d = ground (arith)

abbrev pub table : Epoll Table
table = record {
  ctl = λ k c s. table_ctl k (k s) c s;
  registered = λ k s. k s;
  add_lem = λ k s e h. add_table k (k s) s e h;
  modify_lem = λ k s e h. modify_table k (k s) s e h;
  delete_lem = λ k s h. delete_table k (k s) s h;
  failed_lem = λ k c s h. failed_table k (k s) c s h;
  other_lem = λ k c s t d. other_table k (k s) c s t d;
}

abbrev pub no_events : Table
no_events _ = none
