-- ===== src/ThreadPool.antt =====
-- src/thread_pool.cpp, src/thread_pool.hpp: the pool as a step relation. A step is what a thread does
-- with the mutex held, the run of a task, or a notification; the steps of all threads interleave in
-- any order. A task is a number, and what it computes is not looked at.
pub mod Sums
pub mod Invariant
pub mod Safety
pub mod Progress
pub mod Measure
use crunch_fs.Base.{
  ℕ, suc, ◌-◌, ◌<◌, ◌≡◌, ◌≢◌, Bool, true, false, ◌&&◌, List, [], ◌∷◌, ◌++◌, ◌==◌, if◌then◌else◌,
}

-- Where a thread of `workers_` stands.
pub data Worker : Type 0 where
  testing : Worker  -- before the test of the predicate of `cv_.wait`
  asleep : Worker  -- in `cv_.wait`
  holding : ℕ → Worker  -- before `task()`
  ran : ℕ → Worker  -- behind `task()`
  exited : Worker

-- Where a caller of `wait_all` stands.
pub data Waiter : Type 0 where
  away : Waiter  -- outside of it
  checking : Waiter  -- before the test of the predicate of `cv_done_.wait`
  blocked : Waiter  -- in `cv_done_.wait`

-- The destructor: before it, between `stop_ = true` and `cv_.notify_all()`, and behind these.
pub data Phase : Type 0 where
  serving stopping stopped : Phase

-- `notices` are the calls of `cv_.notify_one` that `enqueue` has still to make. The last three are
-- the history of the pool: the tasks that were enqueued, taken from the queue, and run.
pub record Pool : Type 0 where
  pub tasks : List ℕ
  pub active : ℕ
  pub phase : Phase
  pub workers : ℕ → Worker
  pub waiters : ℕ → Waiter
  pub notices : ℕ
  pub submitted : List ℕ
  pub started : List ℕ
  pub finished : List ℕ

abbrev pub put {ℓ} : {A : Type ℓ} → (ℕ → A) → ℕ → A → ℕ → A
put f i a j = if i == j then a else f j

abbrev pub is_empty : List ℕ → Bool
is_empty [] = true
is_empty (t ∷ ts) = false

-- The predicate of `wait_all`.
abbrev pub is_idle : Pool → Bool
is_idle s = is_empty s.tasks && s.active == 0

abbrev pub wake : Worker → Worker
wake asleep = testing
wake w = w

abbrev pub unblock : Waiter → Waiter
unblock blocked = checking
unblock w = w

-- `--active_` with its notification
abbrev pub leave_task : ℕ → Pool → Pool
leave_task i s =
    let left = s.active - 1 in
    record s {
      active = left;
      workers = put s.workers i testing;
      waiters = λ j. if is_empty s.tasks && left == 0 then unblock (s.waiters j) else s.waiters j;
    }

-- What the pool's own threads, and calls that are under way, do: there are `n` workers and at most
-- `m` callers of `wait_all`.
pub data Inner (n m : ℕ) (s : Pool) : Pool → Type 0 where
  notify_one :
      (i k : ℕ)
      → i < n
      → s.notices ≡ suc k
      → s.workers i ≡ asleep
      → Inner n m s (record s { notices = k; workers = put s.workers i testing })
  notify_nobody :
      (k : ℕ)
      → s.notices ≡ suc k
      → ((i : ℕ) → i < n → s.workers i ≢ asleep)
      → Inner n m s (record s { notices = k })
  take_task :
      (i t : ℕ) (rest : List ℕ)
      → i < n
      → s.workers i ≡ testing
      → s.tasks ≡ t ∷ rest
      → Inner n m s (record s {
        tasks = rest;
        active = suc s.active;
        workers = put s.workers i (holding t);
        started = s.started ++ t ∷ [];
      })
  sleep :
      (i : ℕ)
      → i < n
      → s.workers i ≡ testing
      → s.tasks ≡ []
      → s.phase ≡ serving
      → Inner n m s (record s { workers = put s.workers i asleep })
  exit :
      (i : ℕ)
      → i < n
      → s.workers i ≡ testing
      → s.tasks ≡ []
      → s.phase ≢ serving
      → Inner n m s (record s { workers = put s.workers i exited })
  run :
      (i t : ℕ)
      → i < n
      → s.workers i ≡ holding t
      → Inner n m s (record s { workers = put s.workers i (ran t); finished = t ∷ s.finished })
  finish : (i t : ℕ) → i < n → s.workers i ≡ ran t → Inner n m s (leave_task i s)
  return_ :
      (j : ℕ)
      → j < m
      → s.waiters j ≡ checking
      → is_idle s ≡ true
      → Inner n m s (record s { waiters = put s.waiters j away })
  block :
      (j : ℕ)
      → j < m
      → s.waiters j ≡ checking
      → is_idle s ≡ false
      → Inner n m s (record s { waiters = put s.waiters j blocked })
  notify_all :
      s.phase ≡ stopping
      → Inner n m s (record s { phase = stopped; workers = λ i. wake (s.workers i) })

-- What callers begin, and wakings that no notification caused.
pub data Step (n m : ℕ) (s : Pool) : Pool → Type 0 where
  inner : {u : Pool} → Inner n m s u → Step n m s u
  enqueue :
      (t : ℕ)
      → s.phase ≡ serving
      → Step n m s (record s {
        tasks = s.tasks ++ t ∷ [];
        notices = suc s.notices;
        submitted = s.submitted ++ t ∷ [];
      })
  wait_all :
      (j : ℕ)
      → j < m
      → s.waiters j ≡ away
      → Step n m s (record s { waiters = put s.waiters j checking })
  destroy : s.phase ≡ serving → Step n m s (record s { phase = stopping })
  stir :
      (i : ℕ)
      → i < n
      → s.workers i ≡ asleep
      → Step n m s (record s { workers = put s.workers i testing })
  stir_waiter :
      (j : ℕ)
      → j < m
      → s.waiters j ≡ blocked
      → Step n m s (record s { waiters = put s.waiters j checking })

-- The pool that the constructor leaves.
abbrev pub init : Pool
init = record {
  tasks = [];
  active = 0;
  phase = serving;
  workers = λ i. testing;
  waiters = λ j. away;
  notices = 0;
  submitted = [];
  started = [];
  finished = [];
}

pub data Reach (n m : ℕ) : Pool → Type 0 where
  start : Reach n m init
  later : {s u : Pool} → Reach n m s → Step n m s u → Reach n m u
