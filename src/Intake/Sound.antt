-- ===== src/Intake/Sound.antt =====
-- In every state that is reached, the locks and the counters say what goes on.
use test.Base.{
  ℕ, ◌+◌, ◌≤◌, ◌≡◌, refl, sym, ◌∙◌, inl, inr, Bool, true, false, ◌&&◌, List, [], ◌∷◌, ◌++◌, some,
  Str, has, get_elem?, sum_by, sum_by-append, if◌then◌else◌, arith, Bool-cases,
}
use test.Manager.{ManagerStats, enqueue, dequeue, launch, retire}
use test.Intake.{
  Student, Phase, created, queued, on_deck, running, unlocked, over, rejected, Job, Intake,
  any_pending, lock_students, unlock_students, set_phase, run_locked, is_on_deck, create_job,
}
use test.Intake.Locks.{
  takes_part, holds, one_if, holder, has-lock, has-unlock, free_student, sum-set_phase, sum-element,
  no_holder_on_deck,
}

abbrev is_queued : Phase → Bool
is_queued queued = true
is_queued on_deck = true
is_queued _ = false

abbrev runs_now : Phase → Bool
runs_now running = true
runs_now unlocked = true
runs_now _ = false

abbrev is_over : Phase → Bool
is_over over = true
is_over _ = false

-- The number of submissions in some phases.
abbrev pub counted : (Phase → Bool) → List Job → ℕ
counted test jobs = sum_by (λ (j : Job). one_if (test j.phase)) jobs

-- A student is pending exactly if one submission keeps the student locked, and there is never a second.
pub record Sound (s : Intake) : Type 0 where
  pub locked : (e : Str) → sum_by (holder e) s.jobs ≡ one_if (has e s.pending)
  pub queue_count : s.stats.queued ≡ counted is_queued s.jobs
  pub run_count : s.stats.running ≡ counted runs_now s.jobs
  pub over_count : s.stats.finished ≡ counted is_over s.jobs
  pub one_on_deck : counted is_on_deck s.jobs ≤ 1

module _ (s : Intake) (i : Sound s) where
  -- A new submission behind the others.
  added :
      (ss : List Student) (f : Job → ℕ)
      → sum_by f (s.jobs ++ record { students = ss; phase = created } ∷ [])
        ≡ sum_by f s.jobs + f (record { students = ss; phase = created })
  added ss f =
      omega (arith, sum_by-append f s.jobs (record { students = ss; phase = created } ∷ []))

  module _ (ss : List Student) (free : any_pending ss s.pending ≡ false) where
    stored-Sound : Sound (record s {
      pending = lock_students ss s.pending;
      jobs = s.jobs ++ record { students = ss; phase = created } ∷ [];
    })
    unfolding is_on_deck
    stored-Sound = record {
      locked = λ e. ground (
        arith,
        added ss (holder e),
        i.locked e,
        has-lock e ss s.pending,
        free_student e ss s.pending,
      );
      queue_count =
          i.queue_count ∙ sym (added ss (λ (j : Job). one_if (is_queued j.phase)) ∙ omega arith);
      run_count = omega (arith, i.run_count, added ss (λ (j : Job). one_if (runs_now j.phase)));
      over_count = omega (arith, i.over_count, added ss (λ (j : Job). one_if (is_over j.phase)));
      one_on_deck =
          omega (arith, i.one_on_deck, added ss (λ (j : Job). one_if (is_on_deck j.phase)));
    }

    undone-Sound : Sound (record s { pending = unlock_students ss (lock_students ss s.pending) })
    undone-Sound = record {
      locked = λ e. ground (
        arith,
        i.locked e,
        has-unlock e ss (lock_students ss s.pending),
        has-lock e ss s.pending,
        free_student e ss s.pending,
      );
      queue_count = i.queue_count;
      run_count = i.run_count;
      over_count = i.over_count;
      one_on_deck = i.one_on_deck;
    }

  pub create-Sound : (ss : List Student) (stored : Bool) → Sound (create_job ss stored s)
  unfolding create_job
  create-Sound ss stored = elim (Bool-cases (any_pending ss s.pending)) [
    | inl h ↦ rw h i
    | inr h ↦ rw (h, create_job) (by_storage stored h)
  ]
    where
      by_storage :
          (b : Bool)
          → any_pending ss s.pending ≡ false
          → Sound (
              if b
              then record s {
                pending = lock_students ss s.pending;
                jobs = s.jobs ++ record { students = ss; phase = created } ∷ [];
              }
              else record s { pending = unlock_students ss (lock_students ss s.pending) })
      by_storage true h = stored-Sound ss h
      by_storage false h = undone-Sound ss h

  -- One submission changes its phase from `p` to `q`.
  module _ (n : ℕ) (ss : List Student) (p q : Phase)
      (here : get_elem? s.jobs n ≡ some (record { students = ss; phase = p })) where
    moved :
        (f : Job → ℕ)
        → sum_by f (set_phase n q s.jobs) + f (record { students = ss; phase = p })
          ≡ sum_by f s.jobs + f (record { students = ss; phase = q })
    moved f = sum-set_phase f s.jobs n (record { students = ss; phase = p }) q here

    moved-Sound :
        (stats : ManagerStats) (pending : List Str)
        → ((e : Str)
            → one_if (has e pending) + one_if (holds p && takes_part e ss)
              ≡ one_if (has e s.pending) + one_if (holds q && takes_part e ss))
        → stats.queued + one_if (is_queued p) ≡ s.stats.queued + one_if (is_queued q)
        → stats.running + one_if (runs_now p) ≡ s.stats.running + one_if (runs_now q)
        → stats.finished + one_if (is_over p) ≡ s.stats.finished + one_if (is_over q)
        → counted is_on_deck s.jobs + one_if (is_on_deck q) ≤ 1 + one_if (is_on_deck p)
        → Sound (record {
          status = s.status;
          stats = stats;
          pending = pending;
          jobs = set_phase n q s.jobs;
        })
    moved-Sound stats pending hl hq hr ho hd = record {
      locked = λ e. omega (arith, moved (holder e), i.locked e, hl e);
      queue_count = omega (arith, moved (λ (j : Job). one_if (is_queued j.phase)), i.queue_count);
      run_count = omega (arith, moved (λ (j : Job). one_if (runs_now j.phase)), i.run_count);
      over_count = omega (arith, moved (λ (j : Job). one_if (is_over j.phase)), i.over_count);
      one_on_deck = omega (arith, moved (λ (j : Job). one_if (is_on_deck j.phase)));
    }

    -- A student of a submission that keeps its students locked is pending.
    taken : holds p ≡ true → (e : Str) → takes_part e ss ≡ true → has e s.pending ≡ true
    taken h e t = ground (arith, i.locked e, sum-element (holder e) s.jobs n _ here)

  module _ (n : ℕ) (ss : List Student) where
    pub rejected-Sound :
        get_elem? s.jobs n ≡ some (record { students = ss; phase = created })
        → Sound (record s { jobs = set_phase n rejected s.jobs })
    unfolding is_on_deck
    rejected-Sound h =
        moved-Sound n ss created rejected h s.stats s.pending (λ e. refl) refl refl refl
          (omega (arith, i.one_on_deck))

    pub queued-Sound :
        get_elem? s.jobs n ≡ some (record { students = ss; phase = created })
        → Sound (record s { stats = enqueue s.stats; jobs = set_phase n queued s.jobs })
    unfolding is_on_deck enqueue
    queued-Sound h =
        moved-Sound n ss created queued h (enqueue s.stats) s.pending (λ e. refl) (omega arith) refl
          refl (omega (arith, i.one_on_deck))

    pub deck-Sound :
        run_locked s.jobs ≡ false
        → get_elem? s.jobs n ≡ some (record { students = ss; phase = queued })
        → Sound (record s { jobs = set_phase n on_deck s.jobs })
    unfolding is_on_deck
    deck-Sound free h =
        moved-Sound n ss queued on_deck h s.stats s.pending (λ e. refl) refl refl refl
          (omega (arith, no_holder_on_deck s.jobs free))

    pub launched-Sound :
        (wait : ℕ)
        → get_elem? s.jobs n ≡ some (record { students = ss; phase = on_deck })
        → Sound
            (record s { stats = launch (dequeue wait s.stats); jobs = set_phase n running s.jobs })
    unfolding is_on_deck dequeue launch
    launched-Sound wait h =
        let some_queued = sum-element (λ (j : Job). one_if (is_queued j.phase)) s.jobs n _ h in
        moved-Sound n ss on_deck running h (launch (dequeue wait s.stats)) s.pending (λ e. refl)
          (omega (arith, i.queue_count, some_queued)) (omega arith) refl
          (omega (arith, i.one_on_deck))

    pub completed-Sound :
        get_elem? s.jobs n ≡ some (record { students = ss; phase = running })
        → Sound (record s {
          pending = unlock_students ss s.pending;
          jobs = set_phase n unlocked s.jobs;
        })
    unfolding is_on_deck
    completed-Sound h =
        moved-Sound n ss running unlocked h s.stats (unlock_students ss s.pending)
          (λ e. ground (arith, has-unlock e ss s.pending, taken n ss running unlocked h refl e))
          refl refl refl (omega (arith, i.one_on_deck))

    pub accounted-Sound :
        get_elem? s.jobs n ≡ some (record { students = ss; phase = unlocked })
        → Sound (record s { stats = retire s.stats; jobs = set_phase n over s.jobs })
    unfolding is_on_deck retire
    accounted-Sound h =
        let some_running = sum-element (λ (j : Job). one_if (runs_now j.phase)) s.jobs n _ h in
        moved-Sound n ss unlocked over h (retire s.stats) s.pending (λ e. refl) refl
          (omega (arith, i.run_count, some_running)) (omega arith) (omega (arith, i.one_on_deck))
