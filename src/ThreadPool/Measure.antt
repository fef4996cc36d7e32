-- ===== src/ThreadPool/Measure.antt =====
-- Termination: the pool's own steps run out, whatever their order, and then all is done.
use crunch_fs.Base.{
  ℕ, zero, suc, ◌+◌, ◌*◌, ◌-◌, ◌≤◌, ◌<◌, ◌≡◌, refl, sym, ap, ◌∙◌, Bool, true, false, ◌&&◌, List, [],
  ◌∷◌, ◌==◌, inl, inr, if◌then◌else◌, arith,
}
use crunch_fs.ThreadPool.{
  Worker, testing, asleep, holding, ran, exited, Waiter, away, checking, blocked, Phase, serving,
  stopping, stopped, Pool, put, is_empty, wake, unblock, Inner, notify_one, notify_nobody,
  take_task, sleep, exit, run, finish, return_, block, notify_all, inner, Reach, later,
}
use crunch_fs.ThreadPool.Sums.{sum_below, sum_below-put, sum_below-le_suc, count}
use crunch_fs.ThreadPool.Safety.{idle_all_done}
use crunch_fs.ThreadPool.Progress.{IsAtRest, progress}

-- The steps that a worker may still take, and those that a task may cause.
module _ (n m : ℕ) where
  abbrev weight : Worker → ℕ
  weight testing = 1
  weight asleep = 0
  weight (holding t) = m + 3
  weight (ran t) = m + 2
  weight exited = 0

  abbrev waiter_weight : Waiter → ℕ
  waiter_weight away = 0
  waiter_weight checking = 1
  waiter_weight blocked = 0

  abbrev phase_weight : Phase → ℕ
  phase_weight serving = 0
  phase_weight stopping = n + 1
  phase_weight stopped = 0

  abbrev load : List ℕ → ℕ
  load [] = 0
  load (t ∷ ts) = load ts + (m + 3)

  workers_weight : Pool → ℕ
  workers_weight s = sum_below (λ i. weight (s.workers i)) n

  waiters_weight : Pool → ℕ
  waiters_weight s = sum_below (λ j. waiter_weight (s.waiters j)) m

  -- An upper bound on the steps that the pool's own threads have left.
  pub measure : Pool → ℕ
  unfolding workers_weight waiters_weight
  measure s =
      load s.tasks + 2 * s.notices + workers_weight s + waiters_weight s + phase_weight s.phase

  change :
      (s : Pool) (i : ℕ) (old new : Worker)
      → i < n
      → s.workers i ≡ old
      → sum_below (λ j. weight (put s.workers i new j)) n + weight old
        ≡ sum_below (λ j. weight (s.workers j)) n + weight new
  change s i old new lt at = rw (ap weight (sym at)) (sum_below-put weight s.workers i new n lt)

  change_waiter :
      (s : Pool) (j : ℕ) (old new : Waiter)
      → j < m
      → s.waiters j ≡ old
      → sum_below (λ k. waiter_weight (put s.waiters j new k)) m + waiter_weight old
        ≡ sum_below (λ k. waiter_weight (s.waiters k)) m + waiter_weight new
  change_waiter s j old new lt at =
      rw (ap waiter_weight (sym at)) (sum_below-put waiter_weight s.waiters j new m lt)

  unblock_weight :
      (b : Bool) (w : Waiter) → waiter_weight (if b then unblock w else w) ≤ waiter_weight w + 1
  unblock_weight true away = omega arith
  unblock_weight true checking = omega arith
  unblock_weight true blocked = omega arith
  unblock_weight false w = omega arith

  weight-wake : (w : Worker) → weight (wake w) ≤ weight w + 1
  weight-wake testing = omega arith
  weight-wake asleep = omega arith
  weight-wake (holding t) = omega arith
  weight-wake (ran t) = omega arith
  weight-wake exited = omega arith

  measure-Inner : {s u : Pool} → Inner n m s u → measure u < measure s
  unfolding measure
  measure-Inner {s} (notify_one i k lt due at) = omega (arith, change s i asleep testing lt at)
  measure-Inner {s} (notify_nobody k due wide) = omega arith
  measure-Inner {s} (take_task i t rest lt at full) =
      omega (arith, change s i testing (holding t) lt at, ap load full)
  measure-Inner {s} (sleep i lt at empty open_) = omega (arith, change s i testing asleep lt at)
  measure-Inner {s} (exit i lt at empty closed) = omega (arith, change s i testing exited lt at)
  measure-Inner {s} (run i t lt at) = omega (arith, change s i (holding t) (ran t) lt at)
  measure-Inner {s} (finish i t lt at) =
      let last = is_empty s.tasks && s.active - 1 == 0 in
      omega (
        arith,
        change s i (ran t) testing lt at,
        sum_below-le_suc (λ j. waiter_weight (if last then unblock (s.waiters j) else s.waiters j))
            (λ j. waiter_weight (s.waiters j)) m (λ j lt'. unblock_weight last (s.waiters j)),
      )
  measure-Inner {s} (return_ j lt at idle) = omega (arith, change_waiter s j checking away lt at)
  measure-Inner {s} (block j lt at at_work) =
      omega (arith, change_waiter s j checking blocked lt at)
  measure-Inner {s} (notify_all p) = omega (
    arith,
    ap phase_weight p,
    sum_below-le_suc (λ i. weight (wake (s.workers i))) (λ i. weight (s.workers i)) n
        (λ i lt. weight-wake (s.workers i)),
  )

  -- A run of `k` of the pool's own steps.
  abbrev pub Steps : ℕ → Pool → Pool → Type 0
  Steps zero s u = s ≡ u
  Steps (suc k) s u = (t : Pool) × Inner n m s t × Steps k t u

  -- No run of the pool's own steps is longer than the measure of its first state: without new calls the
  -- threads come to a stop, whatever the order of their steps.
  pub Steps-measure : (k : ℕ) (s u : Pool) → Steps k s u → k + measure u ≤ measure s
  Steps-measure zero s u e = omega (arith, ap measure e)
  Steps-measure (suc k) s u (t, st, rest) =
      omega (arith, measure-Inner st, Steps-measure k t u rest)

Inner-submitted : {n m : ℕ} {s u : Pool} → Inner n m s u → u.submitted ≡ s.submitted
Inner-submitted (notify_one i k lt due at) = refl
Inner-submitted (notify_nobody k due wide) = refl
Inner-submitted (take_task i t rest lt at full) = refl
Inner-submitted (sleep i lt at empty open_) = refl
Inner-submitted (exit i lt at empty closed) = refl
Inner-submitted (run i t lt at) = refl
Inner-submitted (finish i t lt at) = refl
Inner-submitted (return_ j lt at idle) = refl
Inner-submitted (block j lt at at_work) = refl
Inner-submitted (notify_all p) = refl

abbrev pub Drained : ℕ → ℕ → Pool → Type 0
Drained n m s =
    (k : ℕ) × (u : Pool) × Steps n m k s u
    × IsAtRest n m u
    × ((a : ℕ) → count a u.finished ≡ count a s.submitted)

at_rest : (n m : ℕ) (s : Pool) → 1 ≤ n → Reach n m s → IsAtRest n m s → Drained n m s
at_rest n m s some_worker r rest =
    (0, s, refl, rest, idle_all_done some_worker r (rw (rest.empty, rest.unused) refl))

drain : (fuel n m : ℕ) (s : Pool) → 1 ≤ n → Reach n m s → measure n m s ≤ fuel → Drained n m s
drain zero n m s some_worker r small = elim (progress some_worker r) [
  | inl (u, st) ↦ absurd (omega (arith, measure-Inner n m st))
  | inr rest ↦ at_rest n m s some_worker r rest
]
drain (suc fuel) n m s some_worker r small = elim (progress some_worker r) [
  | inl (t, st) ↦
      let (k, u, steps, rest, ran_all) =
        drain fuel n m t some_worker (later r (inner st)) (omega (arith, measure-Inner n m st)) in
      (suc k, u, (t, st, steps), rest, λ a. ran_all a ∙ ap (count a) (Inner-submitted st))
  | inr rest ↦ at_rest n m s some_worker r rest
]

-- From every state that a pool with a worker reaches, its own threads can bring it to rest, and then
-- every task that was submitted has run, and has run once.
pub drains : (n m : ℕ) (s : Pool) → 1 ≤ n → Reach n m s → Drained n m s
drains n m s some_worker r = drain (measure n m s) n m s some_worker r (omega arith)
