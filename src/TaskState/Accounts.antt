-- ===== src/TaskState/Accounts.antt =====
-- The account of the tasks that ended: rows in the files of `TaskLogWriter`, and reported errors.
use amr_fleet_system.Prelude.{
  ℕ, suc, ◌+◌, ℤ, ◌≡◌, refl, ap, ◌∙◌, inl, inr, true, Option, none, some, List, [], ◌∷◌, ◌++◌,
  String, arith, length, length-append, if◌then◌else◌, Option-cases, Bool-cases,
}
use amr_fleet_system.Prelude.Dict.{Dict, lookup, insert}
use amr_fleet_system.Task.{Status, pending, in_progress, completed, failed}
use amr_fleet_system.TaskState.Types.{TaskEvent, TaskRecord, is_terminal}
use amr_fleet_system.TaskState.Log.{Line, header, row, row_for, with_header, Writer, Disk, write}
use amr_fleet_system.TaskState.Methods.{
  Machine, write_log, add, start, complete, fail, retry, update_pose, check_deadlines, append_event,
  event_of, moved, assigned, requeued, new_record, finished, broken_off, store,
}
use amr_fleet_system.TaskState.Runs.{Call, perform, run, new_machine}

-- The events that end a task.
abbrev pub ended : List TaskEvent → ℕ
ended [] = 0
ended (ev ∷ evs) = if is_terminal ev.new_status then ended evs + 1 else ended evs

ended-snoc :
    (evs : List TaskEvent) (ev : TaskEvent)
    → ended (evs ++ ev ∷ []) ≡ (if is_terminal ev.new_status then ended evs + 1 else ended evs)
ended-snoc [] ev = refl
ended-snoc (x ∷ evs) ev = ground (arith, ended-snoc evs ev)

-- The rows of a file, without its header.
abbrev pub rows_in : List Line → ℕ
rows_in [] = 0
rows_in (header ∷ ls) = rows_in ls
rows_in (row _ _ _ _ _ _ _ ∷ ls) = suc (rows_in ls)

-- The rows of all files.
abbrev pub rows_of : Dict (List Line) → ℕ
rows_of [] = 0
rows_of ((day, ls) ∷ files) = rows_in ls + rows_of files

abbrev rows_at : Option (List Line) → ℕ
rows_at none = 0
rows_at (some ls) = rows_in ls

rows_in-snoc : (ls : List Line) (r : TaskRecord) → rows_in (ls ++ row_for r ∷ []) ≡ rows_in ls + 1
rows_in-snoc [] r = refl
rows_in-snoc (header ∷ ls) r = rows_in-snoc ls r
rows_in-snoc (row a b c d e f g ∷ ls) r = omega (arith, rows_in-snoc ls r)

rows_in-with_header :
    (o : Option (List Line)) (r : TaskRecord)
    → rows_in (with_header o ++ row_for r ∷ []) ≡ rows_at o + 1
rows_in-with_header none r = refl
rows_in-with_header (some []) r = refl
rows_in-with_header (some (l ∷ ls)) r = rows_in-snoc (l ∷ ls) r

rows_of-insert :
    (day : ℕ) (ls : List Line) (files : Dict (List Line))
    → rows_of (insert day ls files) + rows_at (lookup day files) ≡ rows_of files + rows_in ls
rows_of-insert day ls [] = omega arith
rows_of-insert day ls ((k, x) ∷ files) = ground (arith, rows_of-insert day ls files)

rows_of-written :
    (day : ℕ) (r : TaskRecord) (files : Dict (List Line))
    → rows_of (insert day (with_header (lookup day files) ++ row_for r ∷ []) files)
      ≡ rows_of files + 1
rows_of-written day r files =
    let ls = with_header (lookup day files) ++ row_for r ∷ [] in
    omega (arith, rows_of-insert day ls files, rows_in-with_header (lookup day files) r)

-- With a log and a handler for its errors: the rows that came to the files, beside the `old` ones, and the
-- reported errors are together as many as the ended tasks; the writer has counted its rows.
pub record IsAccounted (old : ℕ) (m : Machine) : Type 0 where
  pub writer : Writer
  pub logged : m.log ≡ some writer
  pub handled : m.has_error_handler ≡ true
  pub account : rows_of writer.files + length m.log_errors ≡ old + ended m.events
  pub counted : old + writer.rows_written ≡ rows_of writer.files

write_log-IsAccounted :
    (old : ℕ) (disk : Disk) (r : TaskRecord) (m : Machine) (w : Writer) (t : ℤ)
    → r.end_time ≡ some t
    → m.log ≡ some w
    → m.has_error_handler ≡ true
    → rows_of w.files + length m.log_errors + 1 ≡ old + ended m.events
    → old + w.rows_written ≡ rows_of w.files
    → IsAccounted old (write_log disk r m).1
unfolding write_log write
write_log-IsAccounted old disk r m w t timed logged handled account counted =
    elim (Bool-cases disk.writable) [
      | inl fine ↦ record {
        writer = record w {
          files = insert disk.day (with_header (lookup disk.day w.files) ++ row_for r ∷ []) w.files;
          rows_written = w.rows_written + 1;
        };
        logged = ground arith;
        handled = ground arith;
        account = ground (arith, rows_of-written disk.day r w.files);
        counted = omega (arith, rows_of-written disk.day r w.files);
      }
      | inr full ↦ record {
        writer = w;
        logged = ground arith;
        handled = ground arith;
        account = ground (arith, length-append m.log_errors (r ∷ []));
        counted = counted;
      }
    ]

-- What does not touch the log and ends no task.
quiet-IsAccounted :
    (old : ℕ) (m m' : Machine)
    → IsAccounted old m
    → m'.log ≡ m.log
    → m'.has_error_handler ≡ m.has_error_handler
    → m'.log_errors ≡ m.log_errors
    → ended m'.events ≡ ended m.events
    → IsAccounted old m'
quiet-IsAccounted old m m' h log handler errors events = record {
  writer = h.writer;
  logged = log ∙ h.logged;
  handled = handler ∙ h.handled;
  account = omega (arith, ap length errors, h.account);
  counted = h.counted;
}

ending-IsAccounted :
    (old : ℕ) (disk : Disk) (r : TaskRecord) (from new : Status) (now : ℤ) (reason : String) (t : ℤ)
    (m : Machine)
    → r.end_time ≡ some t
    → is_terminal new ≡ true
    → IsAccounted old m
    → IsAccounted old
        (write_log disk r (append_event (event_of r from new now reason) (store r m))).1
ending-IsAccounted old disk r from new now reason t m timed ends h =
    write_log-IsAccounted old disk r (append_event (event_of r from new now reason) (store r m))
      h.writer t timed h.logged h.handled
      (ground (arith, h.account, ended-snoc m.events (event_of r from new now reason))) h.counted

module _ (hypot : ℤ → ℤ → ℤ) (old : ℕ) where
  perform-IsAccounted :
      (c : Call) (m : Machine) → IsAccounted old m → IsAccounted old (perform hypot c m)
  unfolding add start complete fail retry update_pose check_deadlines
  perform-IsAccounted (Call.add_task spec now) m h =
      elim (Option-cases (lookup spec.task_id m.records)) [
        | inl absent ↦ ground (
          arith,
          quiet-IsAccounted old m (perform hypot (Call.add_task spec now) m) h,
          ended-snoc m.events (event_of (new_record spec now) pending pending now "created"),
        )
        | inr (x, found) ↦ ground arith
      ]
  perform-IsAccounted (Call.start_task t robot now ct) m h =
      elim (Option-cases (lookup t m.records)) [
        | inl absent ↦ ground arith
        | inr (x, found) ↦
            let r' = moved in_progress (assigned robot now ct x) in
            ground (
              arith,
              quiet-IsAccounted old m
                  (append_event (event_of r' x.status in_progress now "assigned") (store r' m)) h,
              ended-snoc m.events (event_of r' x.status in_progress now "assigned"),
            )
      ]
  perform-IsAccounted (Call.complete_task disk t now result) m h =
      elim (Option-cases (lookup t m.records)) [
        | inl absent ↦ ground arith
        | inr (x, found) ↦ ground (
          arith,
          ending-IsAccounted old disk (moved completed (finished now result x)) x.status completed
              now result now m,
        )
      ]
  perform-IsAccounted (Call.fail_task disk t now reason) m h =
      elim (Option-cases (lookup t m.records)) [
        | inl absent ↦ ground arith
        | inr (x, found) ↦ ground (
          arith,
          ending-IsAccounted old disk (moved failed (broken_off now reason x)) x.status failed now
              reason now m,
        )
      ]
  perform-IsAccounted (Call.retry_task t now) m h = elim (Option-cases (lookup t m.records)) [
    | inl absent ↦ ground arith
    | inr (x, found) ↦
        let r' = moved pending (requeued x) in
        ground (
          arith,
          quiet-IsAccounted old m
              (append_event (event_of r' x.status pending now "retry") (store r' m)) h,
          ended-snoc m.events (event_of r' x.status pending now "retry"),
        )
  ]
  perform-IsAccounted (Call.pose robot x y) m h =
      quiet-IsAccounted old m (perform hypot (Call.pose robot x y) m) h (ground arith)
        (ground arith) (ground arith) (ground arith)
  perform-IsAccounted (Call.deadlines now) m h = quiet-IsAccounted old m _ h refl refl refl refl

  run_from-IsAccounted :
      (cs : List Call) (m : Machine) → IsAccounted old m → IsAccounted old (run hypot cs m)
  unfolding run
  run_from-IsAccounted [] m h = h
  run_from-IsAccounted (c ∷ cs) m h =
      run_from-IsAccounted cs (perform hypot c m) (perform-IsAccounted c m h)

-- A machine with a fresh log and a handler for its errors loses no ended task: after any sequence of
-- calls the rows that its files have gained and the errors reported are together as many as the events that
-- end a task, and the writer's counter is the number of rows gained.
pub run-IsAccounted :
    (hypot : ℤ → ℤ → ℤ) (cs : List Call) (w : Writer) (max_retries : ℕ) (max_pose_step_m : ℤ)
    → w.rows_written ≡ 0
    → IsAccounted
        (rows_of w.files)
        (run hypot cs (new_machine (some w) true max_retries max_pose_step_m))
run-IsAccounted hypot cs w max_retries max_pose_step_m fresh =
    run_from-IsAccounted hypot (rows_of w.files) cs
      (new_machine (some w) true max_retries max_pose_step_m)
      (record {
        writer = w;
        logged = refl;
        handled = refl;
        account = omega arith;
        counted = omega arith;
      })
