-- ===== src/Base/Core.antt =====
-- What the sources use of the submodule core, which the repository does not hold: the helpers
-- `core::insert`, `core::remove` and `core::exist` on maps, and the intrusive lists. They are the
-- parameter Core, with what the sources rely on as its laws. A map from numbers to pointers is the
-- function that `find` computes, an intrusive list the pointers of its nodes, and a heap of objects
-- the function from a pointer to what it points at.
use Prim.Native.Nat.{ℕ}
use mathlib.Core.Path.{◌≡◌, refl}
use mathlib.Core.Bool.{Bool, true, false}
use mathlib.Core.Option.{Option, none, some}
use mathlib.Core.List.{List, [], ◌∷◌, ◌++◌}
use zlnet.Base.Tests.{◌==◌, if◌then◌else◌}

abbrev pub Table : Type 0
Table = ℕ → Option ℕ

abbrev pub no_entries : Table
no_entries _ = none

abbrev pub is_some {ℓ} : {A : Type ℓ} → Option A → Bool
is_some none = false
is_some (some a) = true

-- The heap or the map with one place changed.
unfoldable pub put {ℓ} : {A : Type ℓ} → (ℕ → A) → ℕ → A → ℕ → A
put h k v j = if k == j then v else h j

-- The list without its first `p`; a node is in one list at most once.
unfoldable pub without : ℕ → List ℕ → List ℕ
without p [] = []
without p (q ∷ l) = if p == q then l else q ∷ without p l

pub record Core : Type 0 where
  pub insert : Table → ℕ → ℕ → Table × Bool
  pub remove : Table → ℕ → Table × Bool
  pub push_back : List ℕ → ℕ → List ℕ
  pub leave : List ℕ → ℕ → List ℕ
  -- An insertion keeps the entry that the key has, and says whether it made one.
  pub insert_lem :
      (t : Table) (k v : ℕ)
      → insert t k v ≡ (if is_some (t k) then (t, false) else (put t k (some v), true))
  -- A removal says whether there was an entry.
  pub remove_lem : (t : Table) (k : ℕ) → remove t k ≡ (put t k none, is_some (t k))
  pub push_back_lem : (l : List ℕ) (p : ℕ) → push_back l p ≡ l ++ p ∷ []
  pub leave_lem : (l : List ℕ) (p : ℕ) → leave l p ≡ without p l

-- These helpers, as the laws say them.
unfoldable pub plain_core : Core
unfolding put without
plain_core = record {
  insert = λ t k v. if is_some (t k) then (t, false) else (put t k (some v), true);
  remove = λ t k. (put t k none, is_some (t k));
  push_back = λ l p. l ++ p ∷ [];
  leave = λ l p. without p l;
  insert_lem = λ t k v. refl;
  remove_lem = λ t k. refl;
  push_back_lem = λ l p. refl;
  leave_lem = λ l p. refl;
}
