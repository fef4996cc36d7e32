-- ===== src/ThreadPool/Progress.antt =====
-- No deadlock: the threads of the pool go on until all is done.
use crunch_fs.Base.{
  ℕ, zero, suc, ◌≤◌, ◌<◌, ◌≡◌, ◌≢◌, refl, Bool, true, false, List, [], ◌∷◌, ◌⊎◌, inl, inr, arith,
}
use crunch_fs.ThreadPool.{
  Worker, testing, asleep, holding, ran, exited, Waiter, away, checking, blocked, Phase, serving,
  stopping, stopped, Pool, is_idle, Inner, notify_one, notify_nobody, take_task, sleep, exit, run,
  finish, return_, notify_all, Reach,
}
use crunch_fs.ThreadPool.Sums.{sum_below_zero, find_below}
use crunch_fs.ThreadPool.Invariant.{busy, can_act, Inv}
use crunch_fs.ThreadPool.Safety.{Reach-Inv}

-- All is done: the queue is empty, no thread is at a task, nobody is in `wait_all`, and the workers
-- sleep, or have exited if the pool was stopped.
pub record IsAtRest (n m : ℕ) (s : Pool) : Type 0 where
  pub empty : s.tasks ≡ []
  pub unused : s.active ≡ 0
  pub quiet : s.notices ≡ 0
  pub released : (j : ℕ) → j < m → s.waiters j ≡ away
  pub settled : s.phase ≢ stopping
  pub resting : s.phase ≡ serving → (i : ℕ) → i < n → s.workers i ≡ asleep
  pub over : s.phase ≡ stopped → (i : ℕ) → i < n → s.workers i ≡ exited

abbrev pub Moves : ℕ → ℕ → Pool → Type 0
Moves n m s = (u : Pool) × Inner n m s u

is_asleep : Worker → Bool
is_asleep asleep = true
is_asleep w = false

is_checking : Waiter → Bool
is_checking checking = true
is_checking w = false

asleep_iff : (w : Worker) → (is_asleep w ≡ true → w ≡ asleep) × (w ≡ asleep → is_asleep w ≡ true)
unfolding is_asleep
asleep_iff asleep = (λ h. refl, λ h. refl)
asleep_iff testing = (λ h. cc, λ h. cc)
asleep_iff (holding t) = (λ h. cc, λ h. cc)
asleep_iff (ran t) = (λ h. cc, λ h. cc)
asleep_iff exited = (λ h. cc, λ h. cc)

checking_iff : (w : Waiter) → is_checking w ≡ true → w ≡ checking
unfolding is_checking
checking_iff checking h = refl
checking_iff away h = cc
checking_iff blocked h = cc

-- A worker that can act has a step.
worker-Moves :
    (n m : ℕ) (s : Pool) (i : ℕ) (w : Worker) (ts : List ℕ) (p : Phase)
    → i < n
    → s.workers i ≡ w
    → s.tasks ≡ ts
    → s.phase ≡ p
    → can_act w ≡ true
    → Moves n m s
worker-Moves n m s i testing (t ∷ rest) p lt at full ph h = (_, take_task i t rest lt at full)
worker-Moves n m s i testing [] serving lt at empty ph h = (_, sleep i lt at empty ph)
worker-Moves n m s i testing [] stopping lt at empty ph h = (_, exit i lt at empty (λ e. cc))
worker-Moves n m s i testing [] stopped lt at empty ph h = (_, exit i lt at empty (λ e. cc))
worker-Moves n m s i asleep ts p lt at e ph h = cc
worker-Moves n m s i (holding t) ts p lt at e ph h = (_, run i t lt at)
worker-Moves n m s i (ran t) ts p lt at e ph h = (_, finish i t lt at)
worker-Moves n m s i exited ts p lt at e ph h = cc

still_is_free : (w : Worker) → can_act w ≡ false → busy w ≡ 0
still_is_free testing h = cc
still_is_free asleep h = refl
still_is_free (holding t) h = cc
still_is_free (ran t) h = cc
still_is_free exited h = refl

still_asleep : (w : Worker) → can_act w ≡ false → w ≢ exited → w ≡ asleep
still_asleep testing h k = cc
still_asleep asleep h k = refl
still_asleep (holding t) h k = cc
still_asleep (ran t) h k = cc
still_asleep exited h k = absurd (k refl)

still_exited : (w : Worker) → can_act w ≡ false → w ≢ asleep → w ≡ exited
still_exited testing h k = cc
still_exited asleep h k = absurd (k refl)
still_exited (holding t) h k = cc
still_exited (ran t) h k = cc
still_exited exited h k = refl

waiter_away : (w : Waiter) → is_checking w ≡ false → w ≢ blocked → w ≡ away
unfolding is_checking
waiter_away away h k = refl
waiter_away checking h k = cc
waiter_away blocked h k = absurd (k refl)

-- A notification that is due is given to a sleeper, or to nobody.
notice-Moves : (n m : ℕ) (s : Pool) (k : ℕ) → s.notices ≡ suc k → Moves n m s
notice-Moves n m s k due = elim (find_below (λ i. is_asleep (s.workers i)) n) [
  | inl (i, lt, e) ↦ (_, notify_one i k lt due ((asleep_iff (s.workers i)).0 e))
  | inr wide ↦ (
    _,
    notify_nobody k due
        (λ i lt e. let sleeps = (asleep_iff (s.workers i)).1 e in let awake = wide i lt in cc),
  )
]

-- No worker can act, and no notification is due.
module _ (n m : ℕ) (s : Pool) (inv : Inv n s)
    (still : (i : ℕ) → i < n → can_act (s.workers i) ≡ false) (quiet : s.notices ≡ 0) where
  no_task : (ts : List ℕ) → s.tasks ≡ ts → ts ≡ []
  no_task [] e = refl
  no_task (t ∷ ts) e = elim (inv.roused (λ empty. cc)) [
    | inl more ↦ absurd (omega arith)
    | inr (i, lt, act) ↦ let no_act = still i lt in cc
  ]

  no_active : s.active ≡ 0
  no_active = omega (
    arith,
    inv.counted,
    sum_below_zero (λ i. busy (s.workers i)) n (λ i lt. still_is_free (s.workers i) (still i lt)),
  )

  is_idle_now : is_idle s ≡ true
  is_idle_now = rw (no_task s.tasks refl, no_active) refl

  waiters_move : s.phase ≢ stopping → Moves n m s ⊎ IsAtRest n m s
  waiters_move settled = elim (find_below (λ j. is_checking (s.waiters j)) m) [
    | inl (j, lt, e) ↦ inl (_, return_ j lt (checking_iff (s.waiters j) e) is_idle_now)
    | inr none_checks ↦ inr (record {
      empty = no_task s.tasks refl;
      unused = no_active;
      quiet = quiet;
      released = λ j lt.
          waiter_away (s.waiters j) (none_checks j lt)
            (λ e. let told = inv.told j e in let idle = is_idle_now in cc);
      settled = settled;
      resting = λ p i lt. still_asleep (s.workers i) (still i lt) (λ e. (inv.gone i e).1 p);
      over = λ p i lt. still_exited (s.workers i) (still i lt) (inv.stays p i);
    })
  ]

Phase-cases : (p : Phase) → (p ≡ stopping) ⊎ (p ≢ stopping)
Phase-cases serving = inr (λ e. cc)
Phase-cases stopping = inl refl
Phase-cases stopped = inr (λ e. cc)

-- In every state that a pool with a worker reaches, one of its own threads has a step to take, or all
-- is done: no interleaving leads to a deadlock or loses a wake-up.
pub progress : {n m : ℕ} {s : Pool} → 1 ≤ n → Reach n m s → Moves n m s ⊎ IsAtRest n m s
progress {n} {m} {s} some_worker r =
    let inv = Reach-Inv some_worker r in
    elim (find_below (λ i. can_act (s.workers i)) n) [
      | inl (i, lt, act) ↦
          inl (worker-Moves n m s i (s.workers i) s.tasks s.phase lt refl refl refl act)
      | inr still ↦ elim (Phase-cases s.phase) [
        | inl closing ↦ inl (_, notify_all closing)
        | inr settled ↦ settle inv still settled s.notices refl
      ]
    ]
  where
    settle :
        Inv n s
        → ((i : ℕ) → i < n → can_act (s.workers i) ≡ false)
        → s.phase ≢ stopping
        → (k : ℕ) → s.notices ≡ k
        → Moves n m s ⊎ IsAtRest n m s
    settle inv still settled zero e = waiters_move n m s inv still e settled
    settle inv still settled (suc k) e = inl (notice-Moves n m s k e)
