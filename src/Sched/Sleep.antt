-- ===== src/Sched/Sleep.antt =====
-- Sleeping: how long a sleep is in ticks, and who is woken when.
use native.Mathlib.Nat.{mod-lt, div-add-mod}
use saturn_os.Prelude.{
  ◌%◌, zero, suc, ap, ℕ, ◌+◌, ◌-◌, ◌*◌, ◌/◌, ◌≤◌, ◌<◌, ◌≡◌, ◌∙◌, ◌⊎◌, inl, inr, refl, Bool,
  Bool-cases, false, ◌&&◌, arith, leb, ◌==◌, if◌then◌else◌, word,
}
use saturn_os.Sched.Task.{is_sleeping, ready, sleeping}
use saturn_os.Sched.State.{Sched, wake_task, wake_sleeping_tasks}
use saturn_os.Sched.Switch.{sleep_ticks, asleep}
use saturn_os.Sched.Effects.{state_at}
use saturn_os.Sched.Invariant.{tasks-wake_sleeping_tasks}

-- For the quotient `q` and the remainder `r` of a division that rounds up.
rounded_up :
    (interval ms q r : ℕ)
    → r < interval
    → interval * q + r ≡ ms + interval - 1
    → let n : ℕ = if q == 0 then 1 else q in
      (1 ≤ n) × (ms ≤ n * interval) × ((n ≡ 1) ⊎ ((n - 1) * interval < ms))
rounded_up interval ms zero r h e = (omega arith, omega arith, inl refl)
rounded_up interval ms (suc q) r h e =
    let some_ticks : (suc q == 0) ≡ false = ground arith in
    let less : suc q - 1 ≡ q = omega arith in
    let last : (suc q - 1) * interval < ms = rw less (omega arith) in
    rw some_ticks (omega arith, omega arith, inr last)

sleep_ticks_lem :
    (interval ms : ℕ)
    → 0 < interval
    → ms + interval < word
    → sleep_ticks interval ms
      ≡ (if (ms + interval - 1) / interval == 0 then 1 else (ms + interval - 1) / interval)
unfolding sleep_ticks
sleep_ticks_lem interval ms h l =
    ap (λ t. if t / interval == 0 then 1 else t / interval) (omega arith)

-- Where the sum does not wrap and the interval is not 0, a sleep lasts at least one tick and at least
-- the milliseconds that were asked for, and one tick less would be shorter than these.
pub sleep_ticks_bounds :
    (interval ms : ℕ)
    → 0 < interval
    → ms + interval < word
    → (1 ≤ sleep_ticks interval ms)
      × (ms ≤ sleep_ticks interval ms * interval)
      × ((sleep_ticks interval ms ≡ 1) ⊎ ((sleep_ticks interval ms - 1) * interval < ms))
sleep_ticks_bounds interval ms h l = rw (sleep_ticks_lem interval ms h l) (
    rounded_up interval ms ((ms + interval - 1) / interval) ((ms + interval - 1) % interval)
      (mod-lt _ h) (div-add-mod (ms + interval - 1) interval))

-- A sleeping task of the table becomes ready exactly when its time has come, and every other task
-- is left as it is.
pub wake_sleeping_tasks-state :
    (s : Sched) (i : ℕ)
    → i < s.task_count
    → state_at (wake_sleeping_tasks s) i ≡ (
        if is_sleeping (state_at s i) && leb (s.tasks i).sleep_until_tick s.scheduler_ticks
        then ready
        else state_at s i)
unfolding wake_task
wake_sleeping_tasks-state s i h = ground (arith, tasks-wake_sleeping_tasks s i)

times_le : (c a b : ℕ) → a ≤ b → a * c ≤ b * c
times_le zero a b h = omega arith
times_le (suc c) a b h = omega (arith, times_le c a b h)

-- After `n` ticks a sleep of `ticks` ticks is over just when at least one has passed and these are as long
-- as what was asked for.
over_iff :
    (interval ms ticks n : ℕ)
    → 1 ≤ ticks
    → ms ≤ ticks * interval
    → (ticks ≡ 1) ⊎ ((ticks - 1) * interval < ms)
    → leb ticks n ≡ (leb 1 n && leb ms (n * interval))
over_iff interval ms ticks n some_ticks enough least = elim (Bool-cases (leb ticks n)) [
  | inl e ↦
      let longer : ticks * interval ≤ n * interval =
        times_le interval ticks n (ground (arith, e)) in
      ground (arith, e, longer, enough)
  | inr e ↦ elim least [
    | inl one ↦ ground (arith, e, one)
    | inr less ↦
        let shorter : n ≤ ticks - 1 = ground (arith, e) in
        let product : n * interval ≤ (ticks - 1) * interval =
          times_le interval n (ticks - 1) shorter in
        ground (arith, e, less, product)
  ]
]

asleep-wake_ticks :
    (interval ms now : ℕ) (s : Sched)
    → s.current_task < s.task_count
    → s.scheduler_ticks + sleep_ticks interval ms < word
    → state_at
        (wake_sleeping_tasks (record (asleep interval ms s) { scheduler_ticks = now }))
        s.current_task
      ≡ (if leb (s.scheduler_ticks + sleep_ticks interval ms) now then ready else sleeping)
unfolding asleep wake_task
asleep-wake_ticks interval ms now s h l = ground (
  arith,
  tasks-wake_sleeping_tasks (record (asleep interval ms s) { scheduler_ticks = now })
      s.current_task,
)

-- A task that just went to sleep for `ms` milliseconds is made ready by `wake_sleeping_tasks` after `n`
-- ticks of `interval` milliseconds if at least one tick has passed and the `n` ticks are at least
-- as long as `ms`, and is left asleep otherwise. The interval is not 0, and neither the sum of `ms` and
-- the interval nor the tick that the sleep ends with wraps.
pub asleep-wake :
    (interval ms n : ℕ) (s : Sched)
    → 0 < interval
    → s.current_task < s.task_count
    → ms + interval < word
    → s.scheduler_ticks + sleep_ticks interval ms < word
    → state_at
        (wake_sleeping_tasks
          (record (asleep interval ms s) { scheduler_ticks = s.scheduler_ticks + n }))
        s.current_task
      ≡ (if leb 1 n && leb ms (n * interval) then ready else sleeping)
asleep-wake interval ms n s some_time h short l =
    let (one, enough, least) = sleep_ticks_bounds interval ms some_time short in
    let later : leb (s.scheduler_ticks + sleep_ticks interval ms) (s.scheduler_ticks + n)
        ≡ leb (sleep_ticks interval ms) n =
      ground arith in
    asleep-wake_ticks interval ms (s.scheduler_ticks + n) s h l
    ∙ ap (λ (b : Bool). if b then ready else sleeping)
        (later ∙ over_iff interval ms (sleep_ticks interval ms) n one enough least)
