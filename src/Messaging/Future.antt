-- ===== src/Messaging/Future.antt =====
-- The futures that a caller of `route_and_wait` waits on, as objects on a store: the index of a
-- future is the object that a waiter holds.
use teleautomation_messaging.Prelude.{ℕ, String, Bool, true, false, Option, List, [], ◌∷◌}

-- Exceptions, as far as the program tells them apart. `raised` is one of a called service: its text,
-- and its attribute `seconds` where it has one.
pub data Error : Type 0 where
  value_error key_error runtime_error : (text : String) → Error
  backpressure : (account_id : String) (depth max_size : ℕ) → Error
  raised : (text : String) (seconds : Option ℕ) → Error

-- What a future is set to. `auto_reply_cancelled` is `{"ok": False, "reason": "cancelled"}`.
pub data Reply : Type 0 where
  text : String → Reply
  object : ℕ → Reply
  auto_reply_cancelled cycle_busy nothing : Reply

pub data Future : Type 0 where
  waiting cancelled : Future
  result : Reply → Future
  exception : Error → Future

abbrev pub done : Future → Bool
done waiting = false
done _ = true

-- `if not fut.done(): fut.set_…`: a future that is done keeps its value.
abbrev pub settle : Future → Future → Future
settle new waiting = new
settle new old = old

-- The store after future number `i` was settled.
abbrev pub settle_at : List Future → ℕ → Future → List Future
settle_at [] i new = []
settle_at (f ∷ fs) ℕ.zero new = settle new f ∷ fs
settle_at (f ∷ fs) (ℕ.suc i) new = f ∷ settle_at fs i new
