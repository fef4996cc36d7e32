-- ===== src/Tests/ThreadPool.antt =====
-- The thread pool: one worker that runs one task for one caller of `wait_all`.
use crunch_fs.Base.{ℕ, ◌+◌, ◌≤◌, ◌≡◌, refl, [], ◌⊎◌, arith}
use crunch_fs.ThreadPool.{
  Pool, Reach, start, later, inner, enqueue, wait_all, sleep, block, notify_one, take_task, run,
  finish,
}
use crunch_fs.ThreadPool.Sums.{count}
use crunch_fs.ThreadPool.Invariant.{Inv}
use crunch_fs.ThreadPool.Safety.{Reach-Inv, idle_all_done}
use crunch_fs.ThreadPool.Progress.{Moves, IsAtRest, progress}
use crunch_fs.ThreadPool.Measure.{Steps, measure, Steps-measure, Drained, drains}

-- A state with the way that leads to it.
record Run (n m : ℕ) : Type 0 where
  last : Pool
  reach : Reach n m last

-- The worker sleeps, the task 5 is enqueued, and a caller waits for it.
abbrev waiting : Run 1 1
waiting =
    let a : Run 1 1 = record {
      last = _;
      reach = later start (inner (sleep 0 (omega arith) refl refl refl));
    } in
    let b : Run 1 1 = record { last = _; reach = later a.reach (enqueue 5 refl) } in
    let c : Run 1 1 = record { last = _; reach = later b.reach (wait_all 0 (omega arith) refl) } in
    record { last = _; reach = later c.reach (inner (block 0 (omega arith) refl refl)) }

-- The worker has been notified and has run the task.
abbrev performed : Run 1 1
performed =
    let a : Run 1 1 = record {
      last = _;
      reach = later waiting.reach (inner (notify_one 0 0 (omega arith) refl refl));
    } in
    let b : Run 1 1 = record {
      last = _;
      reach = later a.reach (inner (take_task 0 5 [] (omega arith) refl refl));
    } in
    record { last = _; reach = later b.reach (inner (run 0 5 (omega arith) refl)) }

-- The caller is woken, and the pool is idle.
abbrev over : Run 1 1
over = record { last = _; reach = later performed.reach (inner (finish 0 5 (omega arith) refl)) }

Reach-Inv_example : Inv 1 performed.last
Reach-Inv_example = Reach-Inv (omega arith) performed.reach

idle_all_done_example : count 5 over.last.finished ≡ count 5 over.last.submitted
idle_all_done_example = idle_all_done (omega arith) over.reach refl 5

progress_example : Moves 1 1 waiting.last ⊎ IsAtRest 1 1 waiting.last
progress_example = progress (omega arith) waiting.reach

finish_step : Steps 1 1 1 performed.last over.last
finish_step = (over.last, finish 0 5 (omega arith) refl, refl)

Steps-measure_example : 1 + measure 1 1 over.last ≤ measure 1 1 performed.last
Steps-measure_example = Steps-measure 1 1 1 performed.last over.last finish_step

drains_example : Drained 1 1 waiting.last
drains_example = drains 1 1 waiting.last (omega arith) waiting.reach
