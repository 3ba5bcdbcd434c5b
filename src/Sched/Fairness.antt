-- ===== src/Sched/Fairness.antt =====
-- `scheduler_next_runnable_task` as a round robin.
use native.Mathlib.Nat.{mod-eq_of_lt, mod-eq-sub-mod}
use saturn_os.Prelude.{
  ltb→lt, ℕ, zero, suc, ◌+◌, ◌-◌, ◌%◌, ◌≤◌, ◌<◌, ◌≡◌, ◌≢◌, true, false, not, ◌||◌, Option, none,
  some, arith, ltb, ◌==◌, if◌then◌else◌, refl, sym, ◌∙◌, inl, inr, Bool-cases, find_first, Finds,
  find_first-Finds, subst₂, add64, ◌⊎◌,
}
use saturn_os.Sched.State.{
  Sched, task_is_runnable, candidate, candidate_runs, next_runnable_task, wake_sleeping_tasks,
  wake_task, set_running_task,
}
use saturn_os.Sched.Switch.{
  state_of, make_ready, preempted, hand_over, ticked, preempt_to, scheduler_preempt,
}
use saturn_os.Sched.Effects.{
  make_ready-state, make_ready-Same, preempted-state, hand_over-state, hand_over-Same,
}
use saturn_os.Sched.Invariant.{WellFormed, tasks-wake_sleeping_tasks, next_runnable_task_runs}
use saturn_os.Sched.Invariant.Switching.{
  ticked-WellFormed, ticked-current, scheduler_preempt-Proceeds, Proceeds-WellFormed,
}

-- How far task `k` is behind the current one, going round the table; the current task is last.
abbrev pub distance : Sched → ℕ → ℕ
distance s k =
    if ltb s.current_task k then k - s.current_task else k + s.task_count - s.current_task

wrap_once : (x n : ℕ) → x < n + n → x % n ≡ (if ltb x n then x else x - n)
wrap_once x n h = elim (Bool-cases (ltb x n)) [
  | inl e ↦ rw e (mod-eq_of_lt (ltb→lt x n e))
  | inr e ↦ rw e (mod-eq-sub-mod (ground arith) ∙ mod-eq_of_lt (ground arith))
]

candidate_lem :
    (s : Sched) (i : ℕ)
    → s.current_task < s.task_count
    → i ≤ s.task_count
    → candidate s i ≡ (
        if ltb (s.current_task + i) s.task_count
        then s.current_task + i
        else s.current_task + i - s.task_count)
unfolding candidate
candidate_lem s i h l = wrap_once (s.current_task + i) s.task_count (omega arith)

candidate-distance :
    (s : Sched) (k : ℕ)
    → s.current_task < s.task_count
    → k < s.task_count
    → candidate s (distance s k) ≡ k
candidate-distance s k h l = candidate_lem s (distance s k) h (ground arith) ∙ ground arith

distance-candidate :
    (s : Sched) (i : ℕ)
    → s.current_task < s.task_count
    → 1 ≤ i
    → i ≤ s.task_count
    → distance s (candidate s i) ≡ i
distance-candidate s i h a b = rw (candidate_lem s i h b) (ground arith)

-- In a well-formed state where a task `k` other than the idle one can run, the next task is not the
-- idle one, and it is no further from the current task than `k`, going round the table.
pub next_runnable_task-nearest :
    (s : Sched) (k : ℕ)
    → WellFormed s
    → k < s.task_count
    → k ≢ 0
    → task_is_runnable (s.tasks k) ≡ true
    → (next_runnable_task s ≢ 0) × (distance s (next_runnable_task s) ≤ distance s k)
unfolding next_runnable_task
next_runnable_task-nearest s k w inside other runs =
    go (find_first (candidate_runs s) s.task_count 1)
      (find_first-Finds (candidate_runs s) s.task_count 1)
  where
    hit : candidate_runs s (distance s k) ≡ true
    hit = unfold candidate_runs in rw (candidate-distance s k w.current inside) (ground arith)

    go :
        (r : Option ℕ)
        → Finds (candidate_runs s) s.task_count 1 r
        → (let n : ℕ = elim r [
          | some i ↦ candidate s i
          | none ↦ if task_is_runnable (s.tasks 0) then 0 else s.current_task
        ] in
            (n ≢ 0) × (distance s n ≤ distance s k))
    go none miss = absurd (let no = miss (distance s k) (ground arith) (ground arith) in cc hit)
    go (some i) (here, lo, hi, first) = (
      unfold candidate_runs in ground arith,
      rw (distance-candidate s i w.current lo (omega arith))
          (elim (Bool-cases (ltb (distance s k) i)) [
            | inl e ↦ absurd (let no = first (distance s k) (ground arith) (ltb→lt _ _ e) in cc hit)
            | inr e ↦ ground arith
          ]),
    )

nearer_lem :
    (s : Sched) (k : ℕ) (s' : Sched) (n : ℕ)
    → n < s.task_count
    → k < s.task_count
    → s.current_task < s.task_count
    → distance s n ≤ distance s k
    → s'.task_count ≡ s.task_count
    → s'.current_task ≡ n
    → (k ≡ s'.current_task) ⊎ (distance s' k < distance s k)
nearer_lem s k s' n a b c near count at = ground arith

-- Preempting again and again.
pub preempts : ℕ → Sched → Sched
preempts zero s = s
preempts (suc n) s = preempts n (state_of (scheduler_preempt s))

ticked-runnable :
    (s : Sched) (k : ℕ)
    → task_is_runnable (s.tasks k) ≡ true
    → task_is_runnable ((ticked s).tasks k) ≡ true
unfolding ticked task_is_runnable wake_task
ticked-runnable s k h =
    ground (
      arith,
      tasks-wake_sleeping_tasks (record s { scheduler_ticks = add64 s.scheduler_ticks 1 }) k,
    )

ticked-kept :
    (s : Sched)
    → ((ticked s).task_count ≡ s.task_count) × ((ticked s).threads_started ≡ s.threads_started)
unfolding ticked wake_sleeping_tasks
ticked-kept s = (refl, refl)

-- What a preemption with a next task other than the current one does.
record Moves (s s' : Sched) (to : ℕ) : Type 0 where
  count : s'.task_count ≡ s.task_count
  started : s'.threads_started ≡ s.threads_started
  current : s'.current_task ≡ to
  runnable : (k : ℕ) → task_is_runnable (s.tasks k) ≡ true → task_is_runnable (s'.tasks k) ≡ true

make_ready-started : (s : Sched) (pid : ℕ) → (make_ready s pid).threads_started ≡ s.threads_started
unfolding make_ready
make_ready-started s pid = ground arith

preempt_to-Moves :
    (s : Sched) (to : ℕ) → to ≢ s.current_task → Moves s (state_of (preempt_to s to)) to
unfolding preempt_to task_is_runnable
preempt_to-Moves s to h =
    let e : (to == s.current_task) ≡ false = ground arith in
    let m : Sched = preempted (make_ready s s.current_task) s.current_task in
    rw e (record {
      count = (hand_over-Same m to).0 ∙ (unfold preempted in (make_ready-Same s s.current_task).0);
      started = unfold hand_over preempted set_running_task in make_ready-started s s.current_task;
      current = (hand_over-Same m to).1;
      runnable = λ k r. ground (
        arith,
        hand_over-state m to k,
        preempted-state (make_ready s s.current_task) s.current_task k,
        make_ready-state s s.current_task k,
      );
    })

ticked_next :
    (s : Sched) (k : ℕ)
    → WellFormed s
    → k < s.task_count
    → k ≢ 0
    → k ≢ s.current_task
    → task_is_runnable (s.tasks k) ≡ true
    → let n : ℕ = next_runnable_task (ticked s) in
      (n < s.task_count) × (n ≢ s.current_task) × (distance s n ≤ distance s k)
ticked_next s k w inside other apart runs =
    let v = ticked-WellFormed s w in
    let (count, _) = ticked-kept s in
    let at = ticked-current s in
    let (_, near) =
      next_runnable_task-nearest (ticked s) k v (omega arith) other (ticked-runnable s k runs) in
    let (lt, _) = next_runnable_task_runs (ticked s) v in
    let near' : distance s (next_runnable_task (ticked s)) ≤ distance s k =
      subst₂
        (λ (c n : ℕ).
          (if ltb c (next_runnable_task (ticked s))
            then next_runnable_task (ticked s) - c
            else next_runnable_task (ticked s) + n - c)
          ≤ (if ltb c k then k - c else k + n - c))
        at count near in
    (omega arith, ground (arith, w.current), near')

scheduler_preempt-Moves :
    (s : Sched)
    → s.threads_started ≡ true
    → 2 ≤ s.task_count
    → next_runnable_task (ticked s) ≢ s.current_task
    → Moves s (state_of (scheduler_preempt s)) (next_runnable_task (ticked s))
unfolding scheduler_preempt
scheduler_preempt-Moves s on many h =
    let e : (not s.threads_started || ltb s.task_count 2) ≡ false = ground arith in
    let m =
      preempt_to-Moves (ticked s) (next_runnable_task (ticked s)) (λ q. h (q ∙ ticked-current s)) in
    rw e (record {
      count = m.count ∙ (ticked-kept s).0;
      started = m.started ∙ (ticked-kept s).1;
      current = m.current;
      runnable = λ k r. m.runnable k (ticked-runnable s k r);
    })

-- One preemption brings a task that can run nearer, or to the processor.
preempt-nearer :
    (s : Sched) (k : ℕ)
    → WellFormed s
    → s.threads_started ≡ true
    → k < s.task_count
    → k ≢ 0
    → k ≢ s.current_task
    → task_is_runnable (s.tasks k) ≡ true
    → let s' : Sched = state_of (scheduler_preempt s) in
      (s'.threads_started ≡ true)
      × (k < s'.task_count)
      × (task_is_runnable (s'.tasks k) ≡ true)
      × ((k ≡ s'.current_task) ⊎ (distance s' k < distance s k))
preempt-nearer s k w on inside other apart runs =
    let (lt, moves, near) = ticked_next s k w inside other apart runs in
    let m = scheduler_preempt-Moves s on (omega (arith, w.current)) moves in
    (
      m.started ∙ on,
      omega (arith, m.count),
      m.runnable k runs,
      nearer_lem s k (state_of (scheduler_preempt s)) _ lt inside w.current near m.count m.current,
    )

reaches :
    (d : ℕ) (s : Sched) (k : ℕ)
    → distance s k ≤ d
    → WellFormed s
    → s.threads_started ≡ true
    → k < s.task_count
    → k ≢ 0
    → task_is_runnable (s.tasks k) ≡ true
    → (n : ℕ) × (n ≤ distance s k) × ((preempts n s).current_task ≡ k)
unfolding preempts
reaches zero s k small w on inside other runs = absurd (ground (arith, w.current))
reaches (suc d) s k small w on inside other runs = elim (Bool-cases (k == s.current_task)) [
  | inl e ↦ (0, omega arith, ground arith)
  | inr e ↦
      let s' : Sched = state_of (scheduler_preempt s) in
      let w' : WellFormed s' = Proceeds-WellFormed _ (scheduler_preempt-Proceeds s w) in
      let (on', inside', runs', step) = preempt-nearer s k w on inside other (ground arith) runs in
      elim step [
        | inl at ↦ (1, ground (arith, w.current), sym at)
        | inr lt ↦
            let (n, most, at) = reaches d s' k (omega arith) w' on' inside' other runs' in
            (suc n, omega arith, at)
      ]
]

-- In a well-formed state with started threads, a runnable task `k` other than the idle one becomes the
-- current task within `distance s k` calls of `scheduler_preempt`.
pub preempts-current :
    (s : Sched) (k : ℕ)
    → WellFormed s
    → s.threads_started ≡ true
    → k < s.task_count
    → k ≢ 0
    → task_is_runnable (s.tasks k) ≡ true
    → (n : ℕ) × (n ≤ distance s k) × ((preempts n s).current_task ≡ k)
preempts-current s k w on inside other runs =
    reaches (distance s k) s k (omega arith) w on inside other runs
