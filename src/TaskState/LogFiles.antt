-- ===== src/TaskState/LogFiles.antt =====
-- The files that `TaskLogWriter` leaves.
use amr_fleet_system.Prelude.{
  ℤ, ◌≡◌, refl, subst, inl, inr, Option, none, some, List, [], ◌∷◌, ◌++◌, arith, All, All-append,
  Option-cases,
}
use amr_fleet_system.Prelude.Dict.{lookup, Entries, Entries-lookup, Entries-insert}
use amr_fleet_system.Task.{completed, failed}
use amr_fleet_system.TaskState.Types.{TaskRecord}
use amr_fleet_system.TaskState.Log.{Line, header, row, row_for, with_header, Writer, Disk, write}
use amr_fleet_system.TaskState.Methods.{
  Machine, write_log, add, start, complete, fail, retry, update_pose, check_deadlines, append_event,
  event_of, moved, finished, broken_off, store,
}
use amr_fleet_system.TaskState.Runs.{Call, perform, run}

abbrev pub IsRow : Line → Type 0
IsRow header = ⊥
IsRow (row _ _ _ _ _ _ _) = Unit

-- One header, first, and rows below it. An empty file has neither.
abbrev pub IsLogFile : List Line → Type 0
IsLogFile [] = Unit
IsLogFile (header ∷ ls) = All IsRow ls
IsLogFile (row _ _ _ _ _ _ _ ∷ ls) = ⊥

abbrev pub LogFiles : Option Writer → Type 0
LogFiles none = Unit
LogFiles (some w) = Entries (λ _ ls. IsLogFile ls) w.files

row_added :
    (o : Option (List Line)) (r : TaskRecord)
    → ((ls : List Line) → o ≡ some ls → IsLogFile ls)
    → IsLogFile (with_header o ++ row_for r ∷ [])
row_added none r h = (tt, tt)
row_added (some []) r h = (tt, tt)
row_added (some (header ∷ ls)) r h =
    All-append IsRow ls (row_for r ∷ []) (h (header ∷ ls) refl) (tt, tt)
row_added (some (row a b c d e f g ∷ ls)) r h = h (row a b c d e f g ∷ ls) refl

write-LogFiles :
    (disk : Disk) (r : TaskRecord) (w : Writer)
    → Entries (λ _ ls. IsLogFile ls) w.files
    → Entries (λ _ ls. IsLogFile ls) (write disk r w).1.files
unfolding write
write-LogFiles disk r w h = elim (Option-cases r.end_time) [
  | inl e ↦ ground arith
  | inr (t, e) ↦ ground (
    arith,
    Entries-insert (λ _ ls. IsLogFile ls) disk.day _ w.files h
        (row_added (lookup disk.day w.files) r
          (λ ls found. Entries-lookup _ disk.day ls w.files h found)),
  )
]

write_log-LogFiles :
    (disk : Disk) (r : TaskRecord) (m : Machine)
    → LogFiles m.log
    → LogFiles (write_log disk r m).1.log
unfolding write_log
write_log-LogFiles disk r m h = elim (Option-cases m.log) [
  | inl e ↦ ground arith
  | inr (w, e) ↦ ground (arith, write-LogFiles disk r w (subst LogFiles e h))
]

module _ (hypot : ℤ → ℤ → ℤ) where
  perform-LogFiles : (c : Call) (m : Machine) → LogFiles m.log → LogFiles (perform hypot c m).log
  unfolding add start complete fail retry update_pose check_deadlines
  perform-LogFiles (Call.add_task spec now) m h = ground arith
  perform-LogFiles (Call.start_task t robot now ct) m h = ground arith
  perform-LogFiles (Call.complete_task disk t now result) m h =
      elim (Option-cases (lookup t m.records)) [
        | inl absent ↦ ground arith
        | inr (x, found) ↦
            let r' = moved completed (finished now result x) in
            ground (
              arith,
              write_log-LogFiles disk r'
                  (append_event (event_of r' x.status completed now result) (store r' m)),
            )
      ]
  perform-LogFiles (Call.fail_task disk t now reason) m h =
      elim (Option-cases (lookup t m.records)) [
        | inl absent ↦ ground arith
        | inr (x, found) ↦
            let r' = moved failed (broken_off now reason x) in
            ground (
              arith,
              write_log-LogFiles disk r'
                  (append_event (event_of r' x.status failed now reason) (store r' m)),
            )
      ]
  perform-LogFiles (Call.retry_task t now) m h = ground arith
  perform-LogFiles (Call.pose robot x y) m h = ground arith
  perform-LogFiles (Call.deadlines now) m h = h

  -- If every file that the log may find is empty or one header with rows below it, so is every file
  -- after any sequence of calls: a header is written once, at the top, also over a change of the day.
  pub run-LogFiles : (cs : List Call) (m : Machine) → LogFiles m.log → LogFiles (run hypot cs m).log
  unfolding run
  run-LogFiles [] m h = h
  run-LogFiles (c ∷ cs) m h = run-LogFiles cs (perform hypot c m) (perform-LogFiles c m h)
