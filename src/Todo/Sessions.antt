-- ===== src/Todo/Sessions.antt =====
-- Runs of the todo command line one after the other (persistent-todo/src/main.rs), each a process
-- of its own that shares only the stored file.
use q2_26_accel_v1c70ryg0d.Prelude.{
  ok-inj, ℕ, suc, ◌+◌, ◌<◌, ◌≡◌, refl, subst, List, [], ◌∷◌, ◌++◌, Result, ok, ◌>>=◌, arith,
  through, via, length,
}
use q2_26_accel_v1c70ryg0d.Prelude.Words.{u64_max}
use q2_26_accel_v1c70ryg0d.Todo.Save.{Decodes}
use q2_26_accel_v1c70ryg0d.Todo.Log.{Log, Stores, advance, report, main-refines, advance-length}
use q2_26_accel_v1c70ryg0d.Todo.{Todo, Command, Failure, FilePath, Disk, Host, Line, main}

-- The commands with the times they are given at. The session stops at the first failure.
abbrev pub session : Host → FilePath → List (ℕ × Command) → Disk → Result Failure (List Line × Disk)
session host path [] d = ok ([], d)
session host path ((now, c) ∷ cs) d =
    let first = main host path now c d in
    first.exit >>= λ _.
    session host path cs first.disk >>= λ (lines, last). ok (first.lines ++ lines, last)

abbrev pub advance_all : List (ℕ × Command) → Log → Log
advance_all [] l = l
advance_all ((now, c) ∷ cs) l = advance_all cs (advance now c l)

abbrev pub report_all : List (ℕ × Command) → Log → List Line
report_all [] l = []
report_all ((now, c) ∷ cs) l = report now c l ++ report_all cs (advance now c l)

module _ (host : Host) (path : FilePath) (decodes : Decodes host) where
  -- Any number of runs, none of which fails, leave in the stored file exactly what the log
  -- says: the tasks in the order they were added less those completed, oldest first, and print
  -- what it says, from any file that stores a log, while the counter cannot overflow. Laws:
  -- Decodes.
  pub session-refines :
      (cs : List (ℕ × Command)) (d : Disk) (l : Log) (out : List Line × Disk)
      → length l.history + length cs < u64_max
      → Stores host path d l
      → session host path cs d ≡ ok out
      → Stores host path out.1 (advance_all cs l) × (out.0 ≡ report_all cs l)
  session-refines [] d l out small st h =
      subst (λ o. Stores host path o.1 l × (o.0 ≡ [])) (ok-inj h) (st, refl)
  session-refines ((now, c) ∷ cs) d l out small st h =
      let here = main host path now c d in
      let finish : List Line × Disk → Result Failure (List Line × Disk) =
        λ (later, last). ok (here.lines ++ later, last) in
      elim (through here.exit (λ _. session host path cs here.disk >>= finish) h) [
        | via u fine h1 ↦ elim (through (session host path cs here.disk) finish h1) [
          | via r rest h2 ↦
              let (st1, printed) = main-refines host path now c d l decodes (omega arith) st fine in
              let (st2, later) =
                session-refines cs here.disk (advance now c l) r
                  (omega (arith, advance-length now c l)) st1 rest in
              subst
                (λ o.
                  Stores host path o.1 (advance_all ((now, c) ∷ cs) l)
                  × (o.0 ≡ report_all ((now, c) ∷ cs) l))
                (ok-inj h2) (st2, rw (printed, later) refl)
        ]
      ]

-- The i-th task that was ever added has the number i.
abbrev pub NumberedFrom : ℕ → List Todo → Type 0
NumberedFrom n [] = Unit {0}
NumberedFrom n (t ∷ ts) = (t.id ≡ n) × NumberedFrom (suc n) ts

abbrev pub empty_log : Log
empty_log = record { history = []; completions = 0 }
