-- ===== src/Todo/Fifo.antt =====
-- The queue (persistent-todo/src/queue.rs).
use q2_26_accel_v1c70ryg0d.Prelude.{
  ℕ, Bool, true, false, Option, none, some, List, [], ◌∷◌, ◌++◌, length,
}

-- `VecDeque`, front first.
pub record Queue {ℓ} (T : Type ℓ) : Type ℓ where
  pub items : List T

module _ {ℓ} {T : Type ℓ} where
  abbrev pub new : Queue T
  new = record { items = [] }

  abbrev pub enqueue : Queue T → T → Queue T
  enqueue q value = record { items = q.items ++ (value ∷ []) }

  abbrev pub pop_front : List T → Option (T × Queue T)
  pop_front [] = none
  pop_front (x ∷ xs) = some (x, record { items = xs })

  abbrev pub dequeue : Queue T → Option (T × Queue T)
  dequeue q = pop_front q.items

  abbrev pub front : List T → Option T
  front [] = none
  front (x ∷ xs) = some x

  abbrev pub peek : Queue T → Option T
  peek q = front q.items

  abbrev pub len : Queue T → ℕ
  len q = length q.items

  abbrev pub empty_list : List T → Bool
  empty_list [] = true
  empty_list (x ∷ xs) = false

  abbrev pub is_empty : Queue T → Bool
  is_empty q = empty_list q.items

  abbrev pub iter : Queue T → List T
  iter q = q.items
