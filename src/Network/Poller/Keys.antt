-- ===== src/Network/Poller/Keys.antt =====
-- network/EPoller.cpp: the poller's calls leave the key of the object alone.
use zlnet.Base.{ℕ, ◌≡◌, refl, ◌==◌, Bool-cases, inl, inr}
use zlnet.Network.Poller.{
  Epoll, IoObject, update_object, remove_object, register_read_handler, deregister_write_handler,
  deregister_object,
}

module _ {K : Type 0} (epoll : Epoll K) (k : K) (o : IoObject) where
  update_object-key : (events : ℕ) → (update_object epoll k o events).1.key ≡ o.key
  unfolding update_object remove_object
  update_object-key events = elim (Bool-cases (events == 0)) [
    | inl none_left ↦ rw none_left refl
    | inr some_left ↦ rw some_left refl
  ]

  pub deregister_object-key : (deregister_object epoll k o).1.key ≡ o.key
  unfolding deregister_object remove_object
  deregister_object-key = refl

  pub register_read_handler-key : (register_read_handler epoll k o).1.key ≡ o.key
  unfolding register_read_handler
  register_read_handler-key = update_object-key _

  pub deregister_write_handler-key : (deregister_write_handler epoll k o).1.key ≡ o.key
  unfolding deregister_write_handler
  deregister_write_handler-key = update_object-key _
