-- ===== src/Sched/Invariant/Switching.antt =====
-- The invariant and the operations of scheduler.c that pass the processor on.
use saturn_os.Prelude.{
  ℕ, ◌<◌, ◌≡◌, ◌≢◌, true, false, not, ◌&&◌, ◌||◌, arith, ltb, ◌==◌, if◌then◌else◌, Array, refl,
  subst, sym, ◌∙◌, inl, inr, Bool-cases, ap, add64,
}
use saturn_os.Sched.Task.{Task, is_unused, is_running, TaskState, ready, running}
use saturn_os.Sched.State.{Sched, task_is_runnable, next_runnable_task, wake_sleeping_tasks}
use saturn_os.Sched.Switch.{
  Outcome, returns, switches, hangs, state_of, make_ready, yield_to, scheduler_yield,
  scheduler_preempt,
}
use saturn_os.Sched.Switch.{stop_yielding, hand_over, switch_root, ticked, preempted, preempt_to}
use saturn_os.Sched.Effects.{
  state_at, make_ready-state, make_ready-Same, stop_yielding-state, stop_yielding-Same,
  preempted-state, hand_over-state, hand_over-Same, switch_root-state,
}
use saturn_os.Sched.Invariant.{
  WellFormed, same_marks-WellFormed, wake_sleeping_tasks-WellFormed, next_runnable_task_runs,
}

-- `next` is the running task afterwards, and the only one.
pub switched-WellFormed :
    (s s' : Sched) (next : ℕ)
    → next < s.task_count
    → is_unused (s.tasks next).state ≡ false
    → s'.task_count ≡ s.task_count
    → s'.current_task ≡ next
    → ((i : ℕ) → is_running (s'.tasks i).state ≡ (i == next))
    → ((i : ℕ) → is_unused (s'.tasks i).state ≡ is_unused (s.tasks i).state)
    → task_is_runnable (s'.tasks 0) ≡ true
    → WellFormed s
    → WellFormed s'
switched-WellFormed s s' next h e n c r u idle w = record {
  counted = omega (arith, w.counted);
  current = omega arith;
  one_running = λ i l. ground (arith, r i);
  current_used = subst (λ k. is_unused (s'.tasks k).state ≡ false) (sym c) (u next ∙ e);
  rest_unused = λ i l. ground (arith, u i, w.rest_unused i);
  idle = idle;
}

runnable-is_unused : (t : Task) → task_is_runnable t ≡ true → is_unused t.state ≡ false
unfolding task_is_runnable
runnable-is_unused t h = ground arith

-- The state of each task after the processor went from `prev` to `next`.
abbrev pub handed_state : Sched → ℕ → ℕ → TaskState
handed_state s next i =
    if i == next
    then running
    else if (i == s.current_task) && is_running (state_at s i)
    then ready
    else state_at s i

pub handed-WellFormed :
    (s s' : Sched) (next : ℕ)
    → next < s.task_count
    → task_is_runnable (s.tasks next) ≡ true
    → s'.task_count ≡ s.task_count
    → s'.current_task ≡ next
    → ((i : ℕ) → state_at s' i ≡ handed_state s next i)
    → WellFormed s
    → WellFormed s'
unfolding task_is_runnable
handed-WellFormed s s' next h e n c at w =
    switched-WellFormed s s' next h (runnable-is_unused (s.tasks next) e) n c
      (λ i. rw (at i) (ground (arith, w.one_running i)))
      (λ i. rw (at i) (ground (arith, runnable-is_unused (s.tasks next) e)))
      (rw (at 0) (ground (arith, w.idle))) w

pub yielded-state :
    (s : Sched) (next i : ℕ)
    → state_at (switch_root (hand_over (stop_yielding s s.current_task) next) next) i
      ≡ handed_state s next i
yielded-state s next i =
    ap (λ (ts : Array Task). (ts i).state)
      (switch_root-state (hand_over (stop_yielding s s.current_task) next) next).0
    ∙ (hand_over-state (stop_yielding s s.current_task) next i
        ∙ ap (λ t. if i == next then running else t) (stop_yielding-state s s.current_task i))

-- `yield_to` keeps the invariant, and does not hang.
abbrev pub Proceeds : Outcome → Type 0
Proceeds (returns s) = WellFormed s
Proceeds (switches prev next s) = WellFormed s × (s.current_task ≡ next) × (prev ≢ next)
Proceeds (hangs s) = ⊥

pub yield_to-Proceeds :
    (s : Sched) (next : ℕ)
    → next < s.task_count
    → task_is_runnable (s.tasks next) ≡ true
    → WellFormed s
    → Proceeds (yield_to s next)
unfolding yield_to
yield_to-Proceeds s next h e w = elim (Bool-cases (next == s.current_task)) [
  | inl same ↦
      let here : next ≡ s.current_task = ground arith in
      let runs : task_is_runnable (s.tasks s.current_task) ≡ true =
        subst (λ k. task_is_runnable (s.tasks k) ≡ true) here e in
      rw (same, runs)
        (handed-WellFormed s _ s.current_task w.current runs refl refl (λ i. ground arith) w)
  | inr other ↦ rw other (
      let stopped : Sched = stop_yielding s s.current_task in
      let root = (switch_root-state (hand_over stopped next) next).1 in
      let over = hand_over-Same stopped next in
      let count = stop_yielding-Same s s.current_task in
      let at : (switch_root (hand_over stopped next) next).current_task ≡ next = root.1 ∙ over.1 in
      (
        handed-WellFormed s (switch_root (hand_over stopped next) next) next h e
            (root.0 ∙ (over.0 ∙ count.0)) at (yielded-state s next) w,
        at,
        ground arith,
      ))
]

-- A task that cannot go on never keeps the processor.
abbrev pub Leaves : Outcome → Type 0
Leaves (returns s) = ⊥
Leaves (switches prev next s) = WellFormed s × (s.current_task ≡ next) × (prev ≢ next)
Leaves (hangs s) = ⊥

pub Proceeds-Leaves :
    (s : Sched) (next : ℕ)
    → task_is_runnable (s.tasks next) ≡ true
    → task_is_runnable (s.tasks s.current_task) ≡ false
    → Proceeds (yield_to s next)
    → Leaves (yield_to s next)
unfolding yield_to
Proceeds-Leaves s next e stuck p = elim (Bool-cases (next == s.current_task)) [
  | inl same ↦
      let here : next ≡ s.current_task = ground arith in
      let runs : task_is_runnable (s.tasks s.current_task) ≡ true =
        subst (λ k. task_is_runnable (s.tasks k) ≡ true) here e in
      absurd (cc)
  | inr other ↦ rw other (rw other at p)
]

-- `scheduler_yield` keeps the invariant; it returns or hands over to another task, and never
-- reports that no task can run.
pub scheduler_yield-Proceeds : (s : Sched) → WellFormed s → Proceeds (scheduler_yield s)
unfolding scheduler_yield
scheduler_yield-Proceeds s w = elim (Bool-cases (ltb s.task_count 2)) [
  | inl few ↦ rw few w
  | inr more ↦ rw more (
      let woken = wake_sleeping_tasks-WellFormed s w in
      let (h, e) = next_runnable_task_runs (wake_sleeping_tasks s) woken in
      yield_to-Proceeds (wake_sleeping_tasks s) (next_runnable_task (wake_sleeping_tasks s)) h e
        woken)
]

clock-WellFormed :
    (s : Sched) (k : ℕ) → WellFormed s → WellFormed (record s { scheduler_ticks = k })
clock-WellFormed s k w = same_marks-WellFormed s _ refl refl (λ i. refl) (λ i. refl) w.idle w

pub ticked-WellFormed : (s : Sched) → WellFormed s → WellFormed (ticked s)
unfolding ticked task_is_runnable
ticked-WellFormed s w =
    let woken : Sched =
      wake_sleeping_tasks (record s { scheduler_ticks = add64 s.scheduler_ticks 1 }) in
    let v : WellFormed woken = wake_sleeping_tasks-WellFormed _ (clock-WellFormed s _ w) in
    same_marks-WellFormed woken _ refl refl (λ i. ground arith) (λ i. ground arith)
      (ground (arith, v.idle)) v

pub preempt_to-Proceeds :
    (s : Sched) (next : ℕ)
    → next < s.task_count
    → task_is_runnable (s.tasks next) ≡ true
    → WellFormed s
    → Proceeds (preempt_to s next)
unfolding preempt_to
preempt_to-Proceeds s next h e w = elim (Bool-cases (next == s.current_task)) [
  | inl same ↦ rw same w
  | inr other ↦ rw other (
      let stopped : Sched = make_ready s s.current_task in
      let count = make_ready-Same s s.current_task in
      let over = hand_over-Same (preempted stopped s.current_task) next in
      (
        handed-WellFormed s (hand_over (preempted stopped s.current_task) next) next h e
            (over.0 ∙ (unfold preempted in count.0)) over.1
            (λ i.
              hand_over-state (preempted stopped s.current_task) next i
              ∙ ap (λ t. if i == next then running else t)
                  (preempted-state stopped s.current_task i ∙ make_ready-state s s.current_task i))
            w,
        over.1,
        ground arith,
      ))
]

pub ticked-current : (s : Sched) → (ticked s).current_task ≡ s.current_task
unfolding ticked wake_sleeping_tasks
ticked-current s = refl

pub scheduler_preempt-Proceeds : (s : Sched) → WellFormed s → Proceeds (scheduler_preempt s)
unfolding scheduler_preempt
scheduler_preempt-Proceeds s w = elim (Bool-cases (not s.threads_started || ltb s.task_count 2)) [
  | inl few ↦ rw few w
  | inr more ↦ rw more (
      let v = ticked-WellFormed s w in
      let (h, e) = next_runnable_task_runs (ticked s) v in
      preempt_to-Proceeds (ticked s) (next_runnable_task (ticked s)) h e v)
]

pub scheduler_yield-Leaves :
    (s : Sched)
    → WellFormed s
    → 1 < s.task_count
    → task_is_runnable ((wake_sleeping_tasks s).tasks s.current_task) ≡ false
    → Leaves (scheduler_yield s)
unfolding scheduler_yield
scheduler_yield-Leaves s w many stuck =
    let few : ltb s.task_count 2 ≡ false = ground arith in
    rw few (
      let woken = wake_sleeping_tasks-WellFormed s w in
      let next : ℕ = next_runnable_task (wake_sleeping_tasks s) in
      let (h, e) = next_runnable_task_runs (wake_sleeping_tasks s) woken in
      let at : (wake_sleeping_tasks s).current_task ≡ s.current_task =
        unfold wake_sleeping_tasks in refl in
      Proceeds-Leaves (wake_sleeping_tasks s) next e
        (subst (λ k. task_is_runnable ((wake_sleeping_tasks s).tasks k) ≡ false) (sym at) stuck)
        (yield_to-Proceeds (wake_sleeping_tasks s) next h e woken))

pub Proceeds-WellFormed : (o : Outcome) → Proceeds o → WellFormed (state_of o)
Proceeds-WellFormed (returns s) p = p
Proceeds-WellFormed (switches prev to s) p = p.0
Proceeds-WellFormed (hangs s) p = absurd p
