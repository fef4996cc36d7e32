-- ===== src/ThreadPool/Invariant.antt =====
-- What holds of the pool in every reachable state.
pub mod Kept
use crunch_fs.Base.{
  ℕ, zero, suc, ◌+◌, ◌-◌, ◌≤◌, ◌<◌, ◌≡◌, ◌≢◌, refl, sym, ap, ◌∙◌, Bool, true, false, ◌&&◌, List, [],
  ◌∷◌, ◌++◌, append-nil, append_assoc, ◌==◌, ◌⊎◌, inl, inr, if◌then◌else◌, Bool-cases, arith,
}
use crunch_fs.ThreadPool.{
  Worker, testing, asleep, holding, ran, exited, Waiter, away, checking, blocked, Phase, serving,
  stopping, stopped, Pool, put, is_empty, is_idle, wake, unblock, leave_task, Inner, notify_one,
  notify_nobody, take_task, sleep, exit, run, finish, return_, block, notify_all, Step, inner,
  enqueue, wait_all, destroy, stir, stir_waiter, init, Reach, start, later,
}
use crunch_fs.ThreadPool.Sums.{
  sum_below, sum_below-put, sum_below-eq, sum_below_zero, put_self, put_was, count, count-append,
  count_one,
}

-- A thread that has taken a task and not yet counted it off.
abbrev pub busy : Worker → ℕ
busy (holding t) = 1
busy (ran t) = 1
busy w = 0

-- A thread that has still to run the task `a`.
abbrev pub held : ℕ → Worker → ℕ
held a (holding t) = if a == t then 1 else 0
held a w = 0

-- A thread that goes on by itself.
abbrev pub can_act : Worker → Bool
can_act asleep = false
can_act exited = false
can_act w = true

abbrev pub Roused : ℕ → Pool → Type 0
Roused n s = (1 ≤ s.notices) ⊎ ((i : ℕ) × (i < n) × (can_act (s.workers i) ≡ true))

pub record Inv (n : ℕ) (s : Pool) : Type 0 where
  -- tasks are started in the order in which they were enqueued
  pub fifo : s.submitted ≡ s.started ++ s.tasks
  -- `active_` counts the threads that are at a task
  pub counted : s.active ≡ sum_below (λ i. busy (s.workers i)) n
  -- each task that was started is run once, or about to be run
  pub once :
      (a : ℕ) → count a s.finished + sum_below (λ i. held a (s.workers i)) n ≡ count a s.started
  -- a task in the queue has a thread that will look, or a notification to come
  pub roused : s.tasks ≢ [] → Roused n s
  -- threads exit only behind the last task
  pub gone : (i : ℕ) → s.workers i ≡ exited → (s.tasks ≡ []) × (s.phase ≢ serving)
  -- no thread sleeps through the end
  pub stays : s.phase ≡ stopped → (i : ℕ) → s.workers i ≢ asleep
  -- nobody waits for a pool that is idle
  pub told : (j : ℕ) → s.waiters j ≡ blocked → is_idle s ≡ false

pub append_one-ne-nil : (xs : List ℕ) (t : ℕ) → is_empty (xs ++ t ∷ []) ≡ false
append_one-ne-nil [] t = refl
append_one-ne-nil (x ∷ xs) t = refl

pub ne-nil : (xs : List ℕ) → is_empty xs ≡ false → xs ≢ []
ne-nil [] h = cc
ne-nil (x ∷ xs) h = λ e. cc

pub wake-Roused : (w : Worker) → can_act w ≡ true → can_act (wake w) ≡ true
wake-Roused testing h = refl
wake-Roused asleep h = cc
wake-Roused (holding t) h = refl
wake-Roused (ran t) h = refl
wake-Roused exited h = cc

pub wake_weight : (w : Worker) → (busy (wake w) ≡ busy w) × ((a : ℕ) → held a (wake w) ≡ held a w)
wake_weight testing = (refl, λ a. refl)
wake_weight asleep = (refl, λ a. refl)
wake_weight (holding t) = (refl, λ a. refl)
wake_weight (ran t) = (refl, λ a. refl)
wake_weight exited = (refl, λ a. refl)

pub wake-exited : (w : Worker) → wake w ≡ exited → w ≡ exited
wake-exited testing h = h
wake-exited asleep h = cc
wake-exited (holding t) h = h
wake-exited (ran t) h = h
wake-exited exited h = h

pub wake-asleep : (w : Worker) → wake w ≢ asleep
wake-asleep testing h = cc
wake-asleep asleep h = cc
wake-asleep (holding t) h = cc
wake-asleep (ran t) h = cc
wake-asleep exited h = cc

pub unblock-blocked : (w : Waiter) → unblock w ≢ blocked
unblock-blocked away h = cc
unblock-blocked checking h = cc
unblock-blocked blocked h = cc

-- A thread that is neither asleep nor gone goes on.
pub acts : (w : Worker) → w ≢ asleep → w ≢ exited → can_act w ≡ true
acts testing h k = refl
acts asleep h k = absurd (h refl)
acts (holding t) h k = refl
acts (ran t) h k = refl
acts exited h k = absurd (k refl)

-- A change of one thread between places where it holds no task.
module _ (n : ℕ) (s : Pool) (i : ℕ) (lt : i < n) where
  pub weigh :
      (g : Worker → ℕ) (old new : Worker)
      → s.workers i ≡ old
      → sum_below (λ j. g (put s.workers i new j)) n + g old
        ≡ sum_below (λ j. g (s.workers j)) n + g new
  weigh g old new at = rw (ap g (sym at)) (sum_below-put g s.workers i new n lt)
