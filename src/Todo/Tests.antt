-- ===== src/Todo/Tests.antt =====
-- Runs of the todo command line on a small file system.
use q2_26_accel_v1c70ryg0d.Prelude.{
  ℕ, zero, suc, ◌+◌, ◌≡◌, refl, ap, subst, true, false, Option, none, some, List, [], ◌∷◌, Result,
  ok, err, arith,
}
use q2_26_accel_v1c70ryg0d.Prelude.Words.{Bytes}
use q2_26_accel_v1c70ryg0d.Todo.{
  Text, Todo, StoreFile, Command, add, list_all, done, not_found, Disk, Host, load, save, Line,
  main, Queue, Failure, add_task, complete_task, list_tasks, increment,
}
use q2_26_accel_v1c70ryg0d.Todo.Save.{Decodes}
use q2_26_accel_v1c70ryg0d.Todo.Log.{Stores}
use q2_26_accel_v1c70ryg0d.Todo.Sessions.{
  session, advance_all, report_all, session-refines, empty_log,
}
use q2_26_accel_v1c70ryg0d.Todo.Liveness.{IsWorking, session-succeeds}

-- A format that is read in one walk: 0 in front of a character, 1 in front of the number and the
-- time of a task, whose characters follow, and 2 at the end.
abbrev put_text : Text → Bytes → Bytes
put_text [] rest = rest
put_text (c ∷ cs) rest = 0 ∷ c ∷ put_text cs rest

abbrev put_todos : List Todo → Bytes
put_todos [] = 2 ∷ []
put_todos (t ∷ ts) = 1 ∷ t.id ∷ t.created_at ∷ put_text t.description (put_todos ts)

abbrev add_char : ℕ → Option (Text × List Todo) → Option (Text × List Todo)
add_char c none = none
add_char c (some (cs, ts)) = some (c ∷ cs, ts)

abbrev add_todo : ℕ → ℕ → Option (Text × List Todo) → Option (Text × List Todo)
add_todo id at none = none
add_todo id at (some (cs, ts)) =
    some ([], record { id = id; description = cs; created_at = at } ∷ ts)

abbrev read_todos : Bytes → Option (Text × List Todo)
read_todos (zero ∷ c ∷ bs) = add_char c (read_todos bs)
read_todos (suc zero ∷ id ∷ at ∷ bs) = add_todo id at (read_todos bs)
read_todos (suc (suc zero) ∷ []) = some ([], [])
read_todos _ = none

abbrev store_of : ℕ → Option (Text × List Todo) → Option StoreFile
store_of n (some ([], ts)) = some (record { next_id = n; todos = ts })
store_of n _ = none

abbrev read_store : Bytes → Option StoreFile
read_store [] = none
read_store (n ∷ bs) = store_of n (read_todos bs)

abbrev host : Host
host = record {
  encode = λ s. some (s.next_id ∷ put_todos s.todos);
  decode = read_store;
  temporary = λ p. p + 100;
  overflow_checks = false;
}

read-put_text :
    (cs : Text) (rest : Bytes) (ts : List Todo)
    → read_todos rest ≡ some ([], ts)
    → read_todos (put_text cs rest) ≡ some (cs, ts)
read-put_text [] rest ts h = h
read-put_text (c ∷ cs) rest ts h = ap (add_char c) (read-put_text cs rest ts h)

read-put_todos : (ts : List Todo) → read_todos (put_todos ts) ≡ some ([], ts)
read-put_todos [] = refl
read-put_todos (t ∷ ts) =
    ap (add_todo t.id t.created_at)
      (read-put_text t.description (put_todos ts) ts (read-put_todos ts))

host-Decodes : Decodes host
host-Decodes s bytes h =
    let e : s.next_id ∷ put_todos s.todos ≡ bytes = cc in
    subst (λ b. read_store b ≡ some s) e (ap (store_of s.next_id) (read-put_todos s.todos))

abbrev disk : Disk
disk = record { at = λ p. not_found; is_writable = λ p. true; is_target = λ p. true }

abbrev commands : List (ℕ × Command)
commands = (50, add (65 ∷ [])) ∷ (51, add (66 ∷ [])) ∷ (52, done) ∷ (53, list_all) ∷ []

disk-Stores : Stores host 1 disk empty_log
unfolding load
disk-Stores = (refl, omega arith)

abbrev lines_and_disk : Result Failure (List Line × Disk) → List Line × Disk
lines_and_disk (ok out) = out
lines_and_disk (err e) = ([], disk)

out : List Line × Disk
out = lines_and_disk (session host 1 commands disk)

session_runs : session host 1 commands disk ≡ ok out
unfolding out load save main add_task complete_task list_tasks increment
session_runs = refl

session-refines_example :
    Stores host 1 out.1 (advance_all commands empty_log) × (out.0 ≡ report_all commands empty_log)
session-refines_example =
    session-refines host 1 host-Decodes commands disk empty_log out (omega arith) disk-Stores
      session_runs

disk-IsWorking : IsWorking host 1 disk
disk-IsWorking = record {
  encodes = λ s. (s.next_id ∷ put_todos s.todos, refl);
  writable = refl;
  target = refl;
}

session-succeeds_example :
    (last : Disk) × (session host 1 commands disk ≡ ok (report_all commands empty_log, last))
session-succeeds_example =
    session-succeeds host 1 commands disk empty_log host-Decodes (omega arith) disk-Stores
      disk-IsWorking

abbrev queue : Queue Todo
queue = record { items = record { id = 4; description = 65 ∷ []; created_at = 50 } ∷ [] }
