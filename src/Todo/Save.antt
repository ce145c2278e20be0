-- ===== src/Todo/Save.antt =====
-- The stored file (`load` and `save` of persistent-todo/src/main.rs).
use q2_26_accel_v1c70ryg0d.Prelude.{
  ℕ, ◌≡◌, ◌≢◌, inl, inr, sym, ◌∙◌, some, List, [], ◌∷◌, ◌++◌, ok, err, arith, Option-cases,
}
use mathlib.Core.List.{append-nil, append_assoc}
use q2_26_accel_v1c70ryg0d.Prelude.Words.{Bytes}
use q2_26_accel_v1c70ryg0d.Todo.{
  Todo, StoreFile, Failure, FilePath, Disk, Host, enqueue_all, load, save, Queue, new, enqueue,
  iter,
}

-- A stored file reads back as it was written.
abbrev pub Decodes : Host → Type 0
Decodes host =
    (s : StoreFile) (bytes : Bytes) → host.encode s ≡ some bytes → host.decode bytes ≡ some s

enqueue_all_lem : (q : Queue Todo) (ts : List Todo) → (enqueue_all q ts).items ≡ q.items ++ ts
enqueue_all_lem q [] = sym (append-nil q.items)
enqueue_all_lem q (t ∷ ts) = enqueue_all_lem (enqueue q t) ts ∙ append_assoc q.items (t ∷ []) ts

-- A save that succeeds is what the next load returns. Laws: Decodes.
pub save-load :
    (host : Host) (path : FilePath) (queue : Queue Todo) (next_id : ℕ) (d : Disk)
    → Decodes host
    → (save host path queue next_id d).0 ≡ ok tt
    → load host path (save host path queue next_id d).1 ≡ ok (queue, next_id)
unfolding save load
save-load host path queue next_id d decodes h =
    elim (Option-cases (host.encode (record { next_id = next_id; todos = iter queue }))) [
      | inl fails ↦ absurd (ground arith)
      | inr (bytes, written) ↦ ground (
        arith,
        decodes (record { next_id = next_id; todos = iter queue }) bytes written,
        enqueue_all_lem new queue.items,
      )
    ]

-- A save that fails, at whatever step, leaves the stored file as it was: it writes only the
-- temporary file before the rename.
pub save-fails :
    (host : Host) (path : FilePath) (queue : Queue Todo) (next_id : ℕ) (d : Disk) (e : Failure)
    → host.temporary path ≢ path
    → (save host path queue next_id d).0 ≡ err e
    → ((save host path queue next_id d).1.at path ≡ d.at path)
unfolding save
save-fails host path queue next_id d e apart h =
    elim (Option-cases (host.encode (record { next_id = next_id; todos = iter queue }))) [
      | inl fails ↦ ground arith
      | inr (bytes, written) ↦ ground arith
    ]
