-- ===== src/Todo/Liveness.antt =====
-- When a run of the todo command line succeeds (persistent-todo/src/main.rs).
use q2_26_accel_v1c70ryg0d.Prelude.{
  ℕ, ◌+◌, ◌<◌, ◌≡◌, refl, true, some, List, [], ◌∷◌, ok, arith, length,
}
use q2_26_accel_v1c70ryg0d.Prelude.Words.{Bytes, u64_max}
use q2_26_accel_v1c70ryg0d.Todo.Save.{Decodes}
use q2_26_accel_v1c70ryg0d.Todo.Sessions.{session, report_all}
use q2_26_accel_v1c70ryg0d.Todo.Log.{
  main-loaded, add_task_lem, Log, pending, Stores, advance, main-refines, advance-length,
}
use q2_26_accel_v1c70ryg0d.Todo.{
  Todo, StoreFile, Command, add, list_all, done, FilePath, Disk, Host, Queue, enqueue, iter, save,
  list_tasks, complete_task, command, main,
}

-- The disk and the crate accept every write of the stored file.
pub record IsWorking (host : Host) (path : FilePath) (d : Disk) : Type 0 where
  pub encodes : (s : StoreFile) → (bytes : Bytes) × (host.encode s ≡ some bytes)
  pub writable : d.is_writable (host.temporary path) ≡ true
  pub target : d.is_target path ≡ true

save-succeeds :
    (host : Host) (path : FilePath) (q : Queue Todo) (n : ℕ) (d : Disk)
    → IsWorking host path d
    → ((save host path q n d).0 ≡ ok tt) × IsWorking host path (save host path q n d).1
unfolding save
save-succeeds host path q n d works =
    let (bytes, e) = works.encodes (record { next_id = n; todos = iter q }) in
    rw (e, works.writable, works.target, save)
      (refl, record { encodes = works.encodes; writable = works.writable; target = works.target })

complete-succeeds :
    (host : Host) (path : FilePath) (ts : List Todo) (n : ℕ) (d : Disk)
    → IsWorking host path d
    → let ran = complete_task host path (record { items = ts }) n d in
      (ran.exit ≡ ok tt) × IsWorking host path ran.disk
unfolding complete_task
complete-succeeds host path [] n d works = (refl, works)
complete-succeeds host path (t ∷ ts) n d works =
    save-succeeds host path (record { items = ts }) n d works

list-succeeds :
    (host : Host) (path : FilePath) (ts : List Todo) (d : Disk)
    → IsWorking host path d
    → let ran = list_tasks (record { items = ts }) d in
      (ran.exit ≡ ok tt) × IsWorking host path ran.disk
unfolding list_tasks
list-succeeds host path [] d works = (refl, works)
list-succeeds host path (t ∷ ts) d works = (refl, works)

command-succeeds :
    (host : Host) (path : FilePath) (now : ℕ) (c : Command) (q : Queue Todo) (n : ℕ) (d : Disk)
    → n < u64_max
    → IsWorking host path d
    → let ran = command host path now c q n d in (ran.exit ≡ ok tt) × IsWorking host path ran.disk
command-succeeds host path now (add text) q n d small works =
    rw (add_task_lem host path now text q n d small) (
      save-succeeds host path (enqueue q (record { id = n; description = text; created_at = now }))
        (n + 1) d works)
command-succeeds host path now list_all q n d small works = list-succeeds host path q.items d works
command-succeeds host path now done q n d small works =
    complete-succeeds host path q.items n d works

-- A run on a working disk whose stored file loads does not fail, while the counter can still grow,
-- and leaves the disk working.
pub main-succeeds :
    (host : Host) (path : FilePath) (now : ℕ) (c : Command) (d : Disk) (l : Log)
    → length l.history < u64_max
    → Stores host path d l
    → IsWorking host path d
    → ((main host path now c d).exit ≡ ok tt) × IsWorking host path (main host path now c d).disk
main-succeeds host path now c d l small (loads, inside) works =
    rw (main-loaded host path now c d loads) (
      command-succeeds host path now c (record { items = pending l }) (length l.history) d small
        works)

-- On a working disk a session of any length does not fail, from any file that stores a log,
-- while the counter cannot overflow. Laws: Decodes.
pub session-succeeds :
    (host : Host) (path : FilePath) (cs : List (ℕ × Command)) (d : Disk) (l : Log)
    → Decodes host
    → length l.history + length cs < u64_max
    → Stores host path d l
    → IsWorking host path d
    → (last : Disk) × (session host path cs d ≡ ok (report_all cs l, last))
session-succeeds host path [] d l decodes small st works = (d, refl)
session-succeeds host path ((now, c) ∷ cs) d l decodes small st works =
    let (fine, works1) = main-succeeds host path now c d l (omega arith) st works in
    let (st1, printed) = main-refines host path now c d l decodes (omega arith) st fine in
    let (last, rest) =
      session-succeeds host path cs (main host path now c d).disk (advance now c l) decodes
        (omega (arith, advance-length now c l)) st1 works1 in
    (last, rw (fine, rest, printed) refl)
