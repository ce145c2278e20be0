-- ===== src/Todo.antt =====
-- The todo command line (persistent-todo/src): the queue of queue.rs, and in main.rs the stored
-- file, `load`, `save` and `main`.
mod Fifo
pub mod Save
pub mod Log
pub mod Sessions
pub mod Liveness
mod Tests
pub use Fifo.*
use q2_26_accel_v1c70ryg0d.Prelude.{
  ℕ, suc, ◌+◌, ◌%◌, ◌^◌, Bool, true, false, Option, none, some, List, [], ◌∷◌, Result, ok, err,
  ◌>>=◌, if◌then◌else◌, ◌==◌,
}
use q2_26_accel_v1c70ryg0d.Prelude.Words.{Bytes, checked_u64}

abbrev pub Text : Type 0
Text = List ℕ

pub record Todo : Type 0 where
  pub id : ℕ
  pub description : Text
  pub created_at : ℕ

pub record StoreFile : Type 0 where
  pub next_id : ℕ
  pub todos : List Todo

pub data Command : Type 0 where
  add : Text → Command
  list_all : Command
  done : Command

pub data Failure : Type 0 where
  decode_failed encode_failed read_failed write_failed rename_failed overflowed : Failure

-- The file system: what is at a path, and whether a write and a rename to it succeed.
abbrev pub FilePath : Type 0
FilePath = ℕ

pub data Entry : Type 0 where
  not_found unreadable : Entry
  file : Bytes → Entry

pub record Disk : Type 0 where
  pub at : FilePath → Entry
  pub is_writable : FilePath → Bool
  pub is_target : FilePath → Bool

abbrev pub put : Disk → FilePath → Entry → Disk
put d p e = record {
  at = λ q. if q == p then e else d.at q;
  is_writable = d.is_writable;
  is_target = d.is_target;
}

-- The crate borsh, the sibling path of the temporary file, and whether the build checks overflow.
pub record Host : Type 0 where
  pub encode : StoreFile → Option Bytes
  pub decode : Bytes → Option StoreFile
  pub temporary : FilePath → FilePath
  pub overflow_checks : Bool

abbrev pub enqueue_all : Queue Todo → List Todo → Queue Todo
enqueue_all q [] = q
enqueue_all q (t ∷ ts) = enqueue_all (enqueue q t) ts

abbrev pub load_bytes : Option StoreFile → Result Failure (Queue Todo × ℕ)
load_bytes none = err decode_failed
load_bytes (some store) = ok (enqueue_all new store.todos, store.next_id)

abbrev pub load_entry : Host → Entry → Result Failure (Queue Todo × ℕ)
load_entry host (file bytes) = load_bytes (host.decode bytes)
load_entry host not_found = ok (new, 0)
load_entry host unreadable = err read_failed

unfoldable pub load : Host → FilePath → Disk → Result Failure (Queue Todo × ℕ)
load host path d = load_entry host (d.at path)

-- `fs::write`, then `fs::rename`, which moves the entry.
abbrev pub write_then_rename : FilePath → FilePath → Bytes → Disk → Result Failure (Unit {0}) × Disk
write_then_rename tmp path bytes d =
    if d.is_writable tmp
    then (let written = put d tmp (file bytes) in
        if d.is_target path
        then (ok tt, put (put written tmp not_found) path (file bytes))
        else (err rename_failed, written))
    else (err write_failed, d)

unfoldable pub save : Host → FilePath → Queue Todo → ℕ → Disk → Result Failure (Unit {0}) × Disk
save host path queue next_id d =
    elim (host.encode (record { next_id = next_id; todos = iter queue })) [
      | none ↦ (err encode_failed, d)
      | some bytes ↦ write_then_rename (host.temporary path) path bytes d
    ]

-- A line of output.
pub data Line : Type 0 where
  added completed : ℕ → Text → Line
  no_tasks nothing_to_complete : Line
  task : ℕ → ℕ → Text → Line

-- What a run prints, how it ends, and what it leaves on the disk.
pub record Outcome : Type 0 where
  pub lines : List Line
  pub exit : Result Failure (Unit {0})
  pub disk : Disk

-- `next_id += 1`
unfoldable pub increment : Bool → ℕ → Option ℕ
increment true n = checked_u64 (n + 1)
increment false n = some ((n + 1) % 2 ^ 64)

abbrev pub tasks_from : ℕ → List Todo → List Line
tasks_from i [] = []
tasks_from i (t ∷ ts) = task i t.id t.description ∷ tasks_from (suc i) ts

abbrev pub outcome : List Line → Result Failure (Unit {0}) × Disk → Outcome
outcome lines (exit, d) = record { lines = lines; exit = exit; disk = d }

abbrev pub failed : Failure → Disk → Outcome
failed e d = record { lines = []; exit = err e; disk = d }

unfoldable pub add_task : Host → FilePath → ℕ → Text → Queue Todo → ℕ → Disk → Outcome
add_task host path now description queue next_id d =
    let todo : Todo = record { id = next_id; description = description; created_at = now } in
    elim (increment host.overflow_checks next_id) [
      | none ↦ failed overflowed d
      | some next ↦
          outcome (added todo.id todo.description ∷ []) (save host path (enqueue queue todo) next d)
    ]

unfoldable pub list_tasks : Queue Todo → Disk → Outcome
list_tasks queue d =
    if is_empty queue
    then outcome (no_tasks ∷ []) (ok tt, d)
    else outcome (tasks_from 1 (iter queue)) (ok tt, d)

unfoldable pub complete_task : Host → FilePath → Queue Todo → ℕ → Disk → Outcome
complete_task host path queue next_id d = elim (dequeue queue) [
  | none ↦ outcome (nothing_to_complete ∷ []) (ok tt, d)
  | some (t, rest) ↦ outcome (completed t.id t.description ∷ []) (save host path rest next_id d)
]

abbrev pub command : Host → FilePath → ℕ → Command → Queue Todo → ℕ → Disk → Outcome
command host path now (add description) queue next_id d =
    add_task host path now description queue next_id d
command host path now list_all queue next_id d = list_tasks queue d
command host path now done queue next_id d = complete_task host path queue next_id d

-- `main`, with the time that `now_unix` returns.
unfoldable pub main : Host → FilePath → ℕ → Command → Disk → Outcome
main host path now c d = elim (load host path d) [
  | err e ↦ failed e d
  | ok (queue, next_id) ↦ command host path now c queue next_id d
]
