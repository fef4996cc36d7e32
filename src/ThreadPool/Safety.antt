-- ===== src/ThreadPool/Safety.antt =====
-- Every reachable state meets the invariant, and what `wait_all` may rely on when it returns.
use crunch_fs.Base.{
  ℕ, ◌≤◌, ◌≡◌, refl, sym, ap, ◌∙◌, true, ◌&&◌, List, [], ◌∷◌, append-nil, ◌==◌, arith,
}
use crunch_fs.ThreadPool.{
  Worker, testing, asleep, holding, ran, exited, away, checking, blocked, Pool, is_empty, is_idle,
  Inner, notify_one, notify_nobody, take_task, sleep, exit, run, finish, return_, block, notify_all,
  Step, inner, enqueue, wait_all, destroy, stir, stir_waiter, init, Reach, start, later,
}
use crunch_fs.ThreadPool.Sums.{sum_below_zero, sum_below-le, count}
use crunch_fs.ThreadPool.Invariant.{busy, held, Inv}
use crunch_fs.ThreadPool.Invariant.Kept.{
  woken, slept, left, taken, performed, counted_off, waiter, all_notified, nobody, submitted_one,
  closing,
}

Inner-Inv : {n m : ℕ} {s u : Pool} → 1 ≤ n → Inner n m s u → Inv n s → Inv n u
Inner-Inv {n} {m} {s} some_worker (notify_one i k lt more at) inv = woken n s inv i lt at k
Inner-Inv {n} {m} {s} some_worker (notify_nobody k more wide) inv =
    nobody n s inv m k some_worker wide
Inner-Inv {n} {m} {s} some_worker (take_task i t rest lt at full) inv =
    taken n s inv i lt t rest at full
Inner-Inv {n} {m} {s} some_worker (sleep i lt at empty open_) inv =
    slept n s inv i lt at empty open_
Inner-Inv {n} {m} {s} some_worker (exit i lt at empty closed) inv =
    left n s inv i lt at empty closed
Inner-Inv {n} {m} {s} some_worker (run i t lt at) inv = performed n s inv i lt t at
Inner-Inv {n} {m} {s} some_worker (finish i t lt at) inv = counted_off n s inv i lt t at
Inner-Inv {n} {m} {s} some_worker (return_ j lt at idle) inv = waiter n s inv m j away (λ e. cc)
Inner-Inv {n} {m} {s} some_worker (block j lt at at_work) inv =
    waiter n s inv m j blocked (λ e. at_work)
Inner-Inv {n} {m} {s} some_worker (notify_all p) inv = all_notified n s inv m p

pub Step-Inv : {n m : ℕ} {s u : Pool} → 1 ≤ n → Step n m s u → Inv n s → Inv n u
Step-Inv some_worker (inner st) inv = Inner-Inv some_worker st inv
Step-Inv {n} {m} {s} some_worker (enqueue t open_) inv = submitted_one n s inv m t open_
Step-Inv {n} {m} {s} some_worker (wait_all j lt at) inv = waiter n s inv m j checking (λ e. cc)
Step-Inv {n} {m} {s} some_worker (destroy open_) inv = closing n s inv m open_
Step-Inv {n} {m} {s} some_worker (stir i lt at) inv = woken n s inv i lt at s.notices
Step-Inv {n} {m} {s} some_worker (stir_waiter j lt at) inv = waiter n s inv m j checking (λ e. cc)

Inv-init : (n : ℕ) → Inv n init
unfolding count
Inv-init n = record {
  fifo = refl;
  counted = sym (sum_below_zero _ n (λ i lt. refl));
  once = λ a. omega (arith, sum_below_zero (λ i. held a testing) n (λ i lt. refl));
  roused = λ ne. absurd (ne refl);
  gone = λ i. cc;
  stays = λ p. cc;
  told = λ j. cc;
}

-- In every state that a pool with a worker reaches, under any interleaving: the tasks were started in
-- the order of their submission, `active_` is the number of threads at a task, every task that was
-- started has run once or is about to, and no task, worker or caller of `wait_all` is forgotten.
pub Reach-Inv : {n m : ℕ} {s : Pool} → 1 ≤ n → Reach n m s → Inv n s
Reach-Inv {n} some_worker start = Inv-init n
Reach-Inv some_worker (later r st) = Step-Inv some_worker st (Reach-Inv some_worker r)

idle_parts : (xs : List ℕ) (k : ℕ) → (is_empty xs && k == 0) ≡ true → (xs ≡ []) × (k ≡ 0)
idle_parts [] k h = (refl, ground arith)
idle_parts (x ∷ xs) k h = cc

held_le_busy : (a : ℕ) (w : Worker) → held a w ≤ busy w
held_le_busy a testing = omega arith
held_le_busy a asleep = omega arith
held_le_busy a (holding t) = ground arith
held_le_busy a (ran t) = omega arith
held_le_busy a exited = omega arith

-- Where `wait_all` may return, every task that was ever enqueued has run, and has run once.
pub idle_all_done :
    {n m : ℕ} {s : Pool}
    → 1 ≤ n
    → Reach n m s
    → is_idle s ≡ true
    → (a : ℕ) → count a s.finished ≡ count a s.submitted
idle_all_done {n} {m} {s} some_worker r idle a =
    let inv = Reach-Inv some_worker r in
    let (empty, rest) = idle_parts s.tasks s.active idle in
    let all_started : s.submitted ≡ s.started = inv.fifo ∙ rw empty (append-nil s.started) in
    let light =
      sum_below-le (λ i. held a (s.workers i)) (λ i. busy (s.workers i)) n
        (λ i lt. held_le_busy a (s.workers i)) in
    omega (arith, light, inv.counted, inv.once a, ap (count a) all_started)
