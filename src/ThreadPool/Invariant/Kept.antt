-- ===== src/ThreadPool/Invariant/Kept.antt =====
-- Every step keeps the invariant.
use crunch_fs.Base.{
  ℕ, suc, ◌+◌, ◌-◌, ◌≤◌, ◌<◌, ◌≡◌, ◌≢◌, refl, sym, ap, ◌∙◌, false, ◌&&◌, List, [], ◌∷◌, ◌++◌,
  append_assoc, ◌==◌, inl, inr, Bool-cases, arith,
}
use crunch_fs.ThreadPool.{
  testing, asleep, holding, ran, exited, Waiter, blocked, serving, stopping, stopped, Pool, put,
  is_empty, is_idle, wake, leave_task,
}
use crunch_fs.ThreadPool.Sums.{sum_below-eq, put_self, put_was, count, count-append, count_one}
use crunch_fs.ThreadPool.Invariant.{
  busy, held, Inv, append_one-ne-nil, wake-Roused, wake_weight, wake-exited, wake-asleep,
  unblock-blocked, acts, weigh,
}

module _ (n : ℕ) (s : Pool) (inv : Inv n s) (i : ℕ) (lt : i < n) where
  -- A sleeper that goes back to its test.
  pub woken :
      s.workers i ≡ asleep
      → (k : ℕ) → Inv n (record s { notices = k; workers = put s.workers i testing })
  woken at k = record {
    fifo = inv.fifo;
    counted = omega (arith, weigh n s i lt busy asleep testing at, inv.counted);
    once = λ a. omega (arith, weigh n s i lt (held a) asleep testing at, inv.once a);
    roused = λ ne. inr (i, lt, rw (put_self s.workers i testing) refl);
    gone = λ j e. elim (put_was s.workers i testing exited j e) [
      | inl x ↦ cc
      | inr was ↦ inv.gone j was
    ];
    stays = λ p. absurd (inv.stays p i at);
    told = inv.told;
  }

  pub slept :
      s.workers i ≡ testing
      → s.tasks ≡ []
      → s.phase ≡ serving
      → Inv n (record s { workers = put s.workers i asleep })
  slept at empty open_ = record {
    fifo = inv.fifo;
    counted = omega (arith, weigh n s i lt busy testing asleep at, inv.counted);
    once = λ a. omega (arith, weigh n s i lt (held a) testing asleep at, inv.once a);
    roused = λ ne. absurd (ne empty);
    gone = λ j e. elim (put_was s.workers i asleep exited j e) [
      | inl x ↦ cc
      | inr was ↦ inv.gone j was
    ];
    stays = λ p j e. cc;
    told = inv.told;
  }

  pub left :
      s.workers i ≡ testing
      → s.tasks ≡ []
      → s.phase ≢ serving
      → Inv n (record s { workers = put s.workers i exited })
  left at empty closed = record {
    fifo = inv.fifo;
    counted = omega (arith, weigh n s i lt busy testing exited at, inv.counted);
    once = λ a. omega (arith, weigh n s i lt (held a) testing exited at, inv.once a);
    roused = λ ne. absurd (ne empty);
    gone = λ j e. (empty, closed);
    stays = λ p j e. elim (put_was s.workers i exited asleep j e) [
      | inl x ↦ cc
      | inr was ↦ inv.stays p j was
    ];
    told = inv.told;
  }

  pub taken :
      (t : ℕ) (rest : List ℕ)
      → s.workers i ≡ testing
      → s.tasks ≡ t ∷ rest
      → Inv n (record s {
        tasks = rest;
        active = suc s.active;
        workers = put s.workers i (holding t);
        started = s.started ++ t ∷ [];
      })
  taken t rest at full = record {
    fifo = inv.fifo ∙ (rw full (sym (append_assoc s.started (t ∷ []) rest)));
    counted = omega (arith, weigh n s i lt busy testing (holding t) at, inv.counted);
    once = λ a. omega (
      arith,
      weigh n s i lt (held a) testing (holding t) at,
      inv.once a,
      count-append a s.started (t ∷ []),
      count_one a t,
    );
    roused = λ ne. inr (i, lt, rw (put_self s.workers i (holding t)) refl);
    gone = λ j e. elim (put_was s.workers i (holding t) exited j e) [
      | inl x ↦ cc
      | inr was ↦ let empty = (inv.gone j was).0 in cc
    ];
    stays = λ p j e. elim (put_was s.workers i (holding t) asleep j e) [
      | inl x ↦ cc
      | inr was ↦ inv.stays p j was
    ];
    told = λ j e. ground arith;
  }

  pub performed :
      (t : ℕ)
      → s.workers i ≡ holding t
      → Inv n (record s { workers = put s.workers i (ran t); finished = t ∷ s.finished })
  unfolding count
  performed t at = record {
    fifo = inv.fifo;
    counted = omega (arith, weigh n s i lt busy (holding t) (ran t) at, inv.counted);
    once = λ a. omega (arith, weigh n s i lt (held a) (holding t) (ran t) at, inv.once a);
    roused = λ ne. inr (i, lt, rw (put_self s.workers i (ran t)) refl);
    gone = λ j e. elim (put_was s.workers i (ran t) exited j e) [
      | inl x ↦ cc
      | inr was ↦ inv.gone j was
    ];
    stays = λ p j e. elim (put_was s.workers i (ran t) asleep j e) [
      | inl x ↦ cc
      | inr was ↦ inv.stays p j was
    ];
    told = inv.told;
  }

  -- The last thread at a task finds the queue empty and wakes those who wait; else the pool is busy.
  pub counted_off : (t : ℕ) → s.workers i ≡ ran t → Inv n (leave_task i s)
  counted_off t at = record {
    fifo = inv.fifo;
    counted = omega (arith, weigh n s i lt busy (ran t) testing at, inv.counted);
    once = λ a. omega (arith, weigh n s i lt (held a) (ran t) testing at, inv.once a);
    roused = λ ne. inr (i, lt, rw (put_self s.workers i testing) refl);
    gone = λ j e. elim (put_was s.workers i testing exited j e) [
      | inl x ↦ cc
      | inr was ↦ inv.gone j was
    ];
    stays = λ p j e. elim (put_was s.workers i testing asleep j e) [
      | inl x ↦ cc
      | inr was ↦ inv.stays p j was
    ];
    told = λ j e. elim (Bool-cases (is_empty s.tasks && s.active - 1 == 0)) [
      | inl last ↦ absurd (unblock-blocked (s.waiters j) (rw last at e))
      | inr more ↦ more
    ];
  }

module _ (n : ℕ) (s : Pool) (inv : Inv n s) (m : ℕ) where
  -- Steps of a caller of `wait_all`.
  pub waiter :
      (j : ℕ) (w : Waiter)
      → (w ≡ blocked → is_idle s ≡ false)
      → Inv n (record s { waiters = put s.waiters j w })
  waiter j w h = record {
    fifo = inv.fifo;
    counted = inv.counted;
    once = inv.once;
    roused = inv.roused;
    gone = inv.gone;
    stays = inv.stays;
    told =
        λ k e. elim (put_was s.waiters j w blocked k e) [ inl x ↦ h x | inr was ↦ inv.told k was ];
  }

  pub all_notified :
      s.phase ≡ stopping → Inv n (record s { phase = stopped; workers = λ i. wake (s.workers i) })
  all_notified p = record {
    fifo = inv.fifo;
    counted = inv.counted ∙ sym (sum_below-eq _ _ n (λ i lt. (wake_weight (s.workers i)).0));
    once = λ a.
        ap (λ (k : ℕ). count a s.finished + k)
          (sum_below-eq _ _ n (λ i lt. (wake_weight (s.workers i)).1 a))
        ∙ inv.once a;
    roused = λ ne. elim (inv.roused ne) [
      | inl more ↦ inl more
      | inr (i, lt, act) ↦ inr (i, lt, wake-Roused (s.workers i) act)
    ];
    gone = λ i e. ((inv.gone i (wake-exited (s.workers i) e)).0, λ q. cc);
    stays = λ q i. wake-asleep (s.workers i);
    told = inv.told;
  }

  pub nobody :
      (k : ℕ) → 1 ≤ n → ((i : ℕ) → i < n → s.workers i ≢ asleep) → Inv n (record s { notices = k })
  nobody k some_worker wide = record {
    fifo = inv.fifo;
    counted = inv.counted;
    once = inv.once;
    roused = λ ne.
        inr (0, some_worker, acts (s.workers 0) (wide 0 some_worker) (λ e. ne (inv.gone 0 e).0));
    gone = inv.gone;
    stays = inv.stays;
    told = inv.told;
  }

  pub submitted_one :
      (t : ℕ)
      → s.phase ≡ serving
      → Inv n (record s {
        tasks = s.tasks ++ t ∷ [];
        notices = suc s.notices;
        submitted = s.submitted ++ t ∷ [];
      })
  submitted_one t open_ = record {
    fifo = ap (λ (xs : List ℕ). xs ++ t ∷ []) inv.fifo ∙ append_assoc s.started s.tasks (t ∷ []);
    counted = inv.counted;
    once = inv.once;
    roused = λ ne. inl (omega arith);
    gone = λ i e. absurd ((inv.gone i e).1 open_);
    stays = inv.stays;
    told = λ j e. rw (append_one-ne-nil s.tasks t) refl;
  }

  pub closing : s.phase ≡ serving → Inv n (record s { phase = stopping })
  closing open_ = record {
    fifo = inv.fifo;
    counted = inv.counted;
    once = inv.once;
    roused = inv.roused;
    gone = λ i e. absurd ((inv.gone i e).1 open_);
    stays = λ p. cc;
    told = inv.told;
  }
