-- ===== src/Todo/Log.antt =====
-- What the todo list promises (persistent-todo/src/main.rs): a log of the tasks in the order they
-- were added, of which the oldest ones are completed.
use q2_26_accel_v1c70ryg0d.Prelude.{
  ℕ, zero, suc, ◌+◌, ◌≤◌, ◌<◌, ◌≡◌, ◌⊎◌, inl, inr, refl, ap, ◌∙◌, Bool, true, false, some, List, [],
  ◌∷◌, ◌++◌, ok, if◌then◌else◌, ltb, arith, length, drop, length-append, length-drop,
  drop-append_le,
}
use q2_26_accel_v1c70ryg0d.Prelude.Words.{checked_u64, u64_max}
use q2_26_accel_v1c70ryg0d.Todo.Save.{Decodes, save-load}
use q2_26_accel_v1c70ryg0d.Todo.{
  Text, Todo, Command, add, list_all, done, FilePath, Disk, Host, load, save, Line, added,
  completed, no_tasks, nothing_to_complete, increment, tasks_from, outcome, add_task, list_tasks,
  complete_task, command, main, Queue, enqueue,
}

-- All tasks that were ever added, and how many of them are completed.
pub record Log : Type 0 where
  pub history : List Todo
  pub completions : ℕ

abbrev pub pending : Log → List Todo
pending l = drop l.completions l.history

-- The stored file holds the pending tasks, and the counter is the number of all tasks.
abbrev pub Stores : Host → FilePath → Disk → Log → Type 0
Stores host path d l =
    (load host path d ≡ ok (record { items = pending l }, length l.history))
    × (l.completions ≤ length l.history)

abbrev pub numbered : Log → Text → ℕ → Todo
numbered l text now = record { id = length l.history; description = text; created_at = now }

-- What a command does to the log.
unfoldable pub advance : ℕ → Command → Log → Log
advance now (add text) l = record {
  history = l.history ++ (numbered l text now ∷ []);
  completions = l.completions;
}
advance now list_all l = l
advance now done l =
    if ltb l.completions (length l.history)
    then record { history = l.history; completions = suc l.completions }
    else l

-- What a command prints.
unfoldable pub report : ℕ → Command → Log → List Line
report now (add text) l = added (length l.history) text ∷ []
report now list_all l =
    if ltb l.completions (length l.history) then tasks_from 1 (pending l) else no_tasks ∷ []
report now done l = elim (pending l) [
  | [] ↦ nothing_to_complete ∷ []
  | t ∷ ts ↦ completed t.id t.description ∷ []
]

pub main-loaded :
    (host : Host) (path : FilePath) (now : ℕ) (c : Command) (d : Disk) {q : Queue Todo} {n : ℕ}
    → load host path d ≡ ok (q, n)
    → main host path now c d ≡ command host path now c q n d
unfolding main
main-loaded host path now c d h = rw (h, main)

pub increment_lem : (b : Bool) (n : ℕ) → n < u64_max → increment b n ≡ some (n + 1)
unfolding increment checked_u64
increment_lem true n h = ground arith
increment_lem false n h = ground arith

pub add_task_lem :
    (host : Host) (path : FilePath) (now : ℕ) (text : Text) (q : Queue Todo) (n : ℕ) (d : Disk)
    → n < u64_max
    → add_task host path now text q n d
      ≡ outcome (added n text ∷ []) (
          save host path
            (enqueue q (record { id = n; description = text; created_at = now }))
            (n + 1)
            d)
unfolding add_task
add_task_lem host path now text q n d h = rw (increment_lem host.overflow_checks n h, add_task)

drop-cons :
    (k : ℕ) (xs : List Todo) {t : Todo} {ts : List Todo}
    → drop k xs ≡ t ∷ ts
    → (drop (suc k) xs ≡ ts) × (k < length xs)
drop-cons zero [] h = cc
drop-cons zero (x ∷ xs) h = (cc, omega arith)
drop-cons (suc k) [] h = cc
drop-cons (suc k) (x ∷ xs) h = let (rest, inside) = drop-cons k xs h in (rest, omega arith)

drop-nil : (k : ℕ) (xs : List Todo) → drop k xs ≡ [] → length xs ≤ k
drop-nil k xs h = omega (arith, length-drop k xs, ap length h)

pub List-cases : (xs : List Todo) → (xs ≡ []) ⊎ ((t : Todo) × (ts : List Todo) × (xs ≡ t ∷ ts))
List-cases [] = inl refl
List-cases (t ∷ ts) = inr (t, ts, refl)

add-refines :
    (host : Host) (path : FilePath) (now : ℕ) (text : Text) (d : Disk) (l : Log)
    → Decodes host
    → length l.history < u64_max
    → Stores host path d l
    → (main host path now (add text) d).exit ≡ ok tt
    → Stores host path (main host path now (add text) d).disk (advance now (add text) l)
      × ((main host path now (add text) d).lines ≡ report now (add text) l)
unfolding advance report
add-refines host path now text d l decodes small (loads, some_left) h =
    let q : Queue Todo = record { items = pending l } in
    let next : Queue Todo = enqueue q (numbered l text now) in
    let ran =
      main-loaded host path now (add text) d loads
      ∙ add_task_lem host path now text q (length l.history) d small in
    let saved = save-load host path next (length l.history + 1) d decodes (rw ran at h) in
    let size = length-append l.history (numbered l text now ∷ []) in
    (
      (
        rw
            (
              ran,
              saved,
              drop-append_le l.completions l.history (numbered l text now ∷ []) some_left,
              size,
            )
            refl,
        omega (arith, size),
      ),
      rw ran refl,
    )

list-refines :
    (host : Host) (path : FilePath) (now : ℕ) (d : Disk) (l : Log)
    → Stores host path d l
    → Stores host path (main host path now list_all d).disk (advance now list_all l)
      × ((main host path now list_all d).lines ≡ report now list_all l)
unfolding list_tasks advance report
list-refines host path now d l (loads, some_left) =
    let ran = main-loaded host path now list_all d loads in
    elim (List-cases (pending l)) [
      | inl e ↦ ground (arith, ran, drop-nil l.completions l.history e)
      | inr (t, ts, e) ↦ ground (arith, ran, drop-cons l.completions l.history e)
    ]

done-refines :
    (host : Host) (path : FilePath) (now : ℕ) (d : Disk) (l : Log)
    → Decodes host
    → Stores host path d l
    → (main host path now done d).exit ≡ ok tt
    → Stores host path (main host path now done d).disk (advance now done l)
      × ((main host path now done d).lines ≡ report now done l)
unfolding complete_task advance report
done-refines host path now d l decodes (loads, some_left) h =
    let ran = main-loaded host path now done d loads in
    elim (List-cases (pending l)) [
      | inl e ↦ ground (arith, ran, drop-nil l.completions l.history e)
      | inr (t, ts, e) ↦
          let (rest, inside) = drop-cons l.completions l.history e in
          ground
            (arith, ran, save-load host path (record { items = ts }) (length l.history) d decodes)
    ]

-- Any command that succeeds does to the stored file and prints what the log says, from any file
-- that stores a log, while the counter can still grow.
pub main-refines :
    (host : Host) (path : FilePath) (now : ℕ) (c : Command) (d : Disk) (l : Log)
    → Decodes host
    → length l.history < u64_max
    → Stores host path d l
    → (main host path now c d).exit ≡ ok tt
    → Stores host path (main host path now c d).disk (advance now c l)
      × ((main host path now c d).lines ≡ report now c l)
main-refines host path now (add text) d l decodes small st h =
    add-refines host path now text d l decodes small st h
main-refines host path now list_all d l decodes small st h = list-refines host path now d l st
main-refines host path now done d l decodes small st h = done-refines host path now d l decodes st h

pub advance-length :
    (now : ℕ) (c : Command) (l : Log) → length (advance now c l).history ≤ length l.history + 1
unfolding advance
advance-length now (add text) l = omega (arith, length-append l.history (numbered l text now ∷ []))
advance-length now list_all l = omega arith
advance-length now done l = ground arith
