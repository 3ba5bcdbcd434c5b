-- ===== src/User/Sessions/Handlers.antt =====
-- What the two handlers of arch/arm64/user.c leave of a session.
use saturn_os.Prelude.{
  ℕ, ◌≡◌, ◌≢◌, ◌∙◌, refl, ap, sym, Bool, true, false, not, ◌&&◌, ◌||◌, Option, none, some, inl, inr,
  ◌==◌, if◌then◌else◌, arith, Array, update, Bool-cases, bit_and, add64,
}
use saturn_os.Sched.Task.{Task, TaskUserStatus}
use saturn_os.Sched.State.{
  Sched, Session, RejectReason, reject_none, reject_bad_roots, reject_bad_return,
  reject_unexpected_mode,
}
use saturn_os.Sched.Switch.{current_session}
use saturn_os.User.Sessions.{
  Trap, session_index, set_session, leave_root, count_user, user_session_reject, complete, recover,
  count_reject, count_trap, user_mode_handle_exception, spsr_el0t, spsr_el1h,
}

-- The exceptions from which a session recovers: in user mode, with both roots and a place to return to.
abbrev pub recovers : Session → ℕ → Bool
recovers x spsr =
    x.active
    && not (x.kernel_root == 0)
    && not (x.user_root == 0)
    && not (x.return_pc == 0)
    && (bit_and spsr 0xf == spsr_el0t)

-- Why an exception of a session is rejected, in the order of the checks.
abbrev pub reason_of : Session → ℕ → RejectReason
reason_of x spsr =
    if (x.kernel_root == 0) || (x.user_root == 0)
    then reject_bad_roots
    else if x.return_pc == 0
    then reject_bad_return
    else if bit_and spsr 0xf == spsr_el0t
    then reject_none
    else reject_unexpected_mode

abbrev pub is_task : Option ℕ → ℕ → Bool
is_task none i = false
is_task (some p) i = i == p

-- The counters of the task of a session after an exception.
abbrev pub after_exception : Bool → Task → Task
after_exception handled k = record k {
  user_status = record k.user_status {
    traps = if handled then add64 k.user_status.traps 1 else k.user_status.traps;
    rejects = add64 k.user_status.rejects 1;
  };
}

-- What the handler of exceptions promises in the state `t`.
pub record HandlesException (t : Trap) (spsr : ℕ) (t' : Trap) (handled : Bool) : Type 0 where
  pub accepted : handled ≡ recovers (current_session t.sched) spsr
  pub inactive : (t'.sched.user_sessions (session_index t.sched)).active ≡ false
  pub completed :
      (t'.sched.user_sessions (session_index t.sched)).completed
      ≡ (handled || (current_session t.sched).completed)
  pub faulted :
      (t'.sched.user_sessions (session_index t.sched)).faulted
      ≡ (handled || (current_session t.sched).faulted)
  pub kernel_tables : t'.sched.ttbr0 ≡ (
      if (current_session t.sched).active && not ((current_session t.sched).kernel_root == 0)
      then (current_session t.sched).kernel_root
      else t.sched.ttbr0)
  pub back : t'.elr ≡ (if handled then (current_session t.sched).return_pc else t.elr)
  pub level : t'.spsr ≡ (if handled then spsr_el1h else t.spsr)
  pub nothing : (current_session t.sched).active ≡ false → t' ≡ t
  pub rejects : (t'.sched.user_sessions (session_index t.sched)).reject_count ≡ (
      if (current_session t.sched).active
      then add64 (current_session t.sched).reject_count 1
      else (current_session t.sched).reject_count)
  pub reason : (t'.sched.user_sessions (session_index t.sched)).last_reject_reason ≡ (
      if (current_session t.sched).active
      then reason_of (current_session t.sched) spsr
      else (current_session t.sched).last_reject_reason)
  pub tasks :
      (i : ℕ)
      → t'.sched.tasks i ≡ (
          if (current_session t.sched).active && is_task (current_session t.sched).task i
          then after_exception handled (t.sched.tasks i)
          else t.sched.tasks i)
  pub current : t'.sched.current_task ≡ t.sched.current_task
  pub others :
      (i : ℕ) → i ≢ session_index t.sched → t'.sched.user_sessions i ≡ t.sched.user_sessions i

pub current_session_lem : (s : Sched) → current_session s ≡ s.user_sessions (session_index s)
unfolding current_session session_index
current_session_lem s = refl

-- Counting changes no number of a task, so the session stays the current one.
session_index-count_user :
    (change : TaskUserStatus → TaskUserStatus) (p : Option ℕ) (s : Sched)
    → session_index (count_user change p s) ≡ session_index s
unfolding session_index count_user
session_index-count_user change none s = refl
session_index-count_user change (some p) s = elim (Bool-cases (s.current_task == p)) [
  | inl e ↦ let here : s.current_task ≡ p = ground arith in rw (e, here) refl
  | inr e ↦ rw e refl
]

-- What stays of a state when counters change.
pub record Counted (s s' : Sched) : Type 0 where
  pub sessions : s'.user_sessions ≡ s.user_sessions
  pub root : s'.ttbr0 ≡ s.ttbr0
  pub index : session_index s' ≡ session_index s

pub count_user-Counted :
    (change : TaskUserStatus → TaskUserStatus) (p : Option ℕ) (s : Sched)
    → Counted s (count_user change p s)
unfolding count_user
count_user-Counted change none s = record { sessions = refl; root = refl; index = refl }
count_user-Counted change (some p) s = record {
  sessions = refl;
  root = refl;
  index = session_index-count_user change (some p) s;
}

-- The counters of the one task change.
tasks-count_user :
    (change : TaskUserStatus → TaskUserStatus) (p : Option ℕ) (s : Sched) (i : ℕ)
    → ((count_user change p s).tasks i ≡ (
        if is_task p i
        then record (s.tasks i) { user_status = change (s.tasks i).user_status }
        else s.tasks i))
      × ((count_user change p s).current_task ≡ s.current_task)
unfolding count_user
tasks-count_user change none s i = (refl, refl)
tasks-count_user change (some p) s i = elim (Bool-cases (i == p)) [
  | inl e ↦ let here : i ≡ p = ground arith in rw here (ground arith, refl)
  | inr e ↦ rw e (refl, refl)
]

-- A session that is over.
abbrev pub over : Bool → Session → Session
over faulted x = record x { completed = true; faulted = faulted; active = false }

pub complete_lem :
    (faulted : Bool) (t : Trap) (s : Sched)
    → Counted s t.sched
    → ((complete faulted t).sched.user_sessions
        ≡ update s.user_sessions
            (session_index s)
            (over faulted (s.user_sessions (session_index s))))
      × ((complete faulted t).sched.ttbr0 ≡ s.ttbr0)
      × ((complete faulted t).elr ≡ (s.user_sessions (session_index s)).return_pc)
unfolding complete set_session session_index
complete_lem faulted t s c = (
  rw (current_session_lem t.sched, c.sessions, c.index) refl,
  c.root,
  rw (current_session_lem t.sched, c.sessions, c.index) refl,
)

pub leave_root_lem :
    (s : Sched)
    → leave_root s ≡ record s {
      ttbr0 =
          if (current_session s).kernel_root == 0 then s.ttbr0 else (current_session s).kernel_root;
    }
unfolding leave_root
leave_root_lem s = elim (Bool-cases ((current_session s).kernel_root == 0)) [
  | inl e ↦ rw (leave_root, e) refl
  | inr e ↦ rw (leave_root, e) refl
]

-- A session that is rejected.
abbrev rejected : RejectReason → Session → Session
rejected reason x = record x {
  last_reject_reason = reason;
  reject_count = add64 x.reject_count 1;
  active = false;
}

user_session_reject_lem :
    (reason : RejectReason) (s : Sched)
    → ((user_session_reject reason s).user_sessions
        ≡ update s.user_sessions (session_index s) (rejected reason (current_session s)))
      × ((user_session_reject reason s).ttbr0 ≡ (
          if (current_session s).kernel_root == 0
          then s.ttbr0
          else (current_session s).kernel_root))
unfolding user_session_reject set_session session_index current_session
user_session_reject_lem reason s = rw (leave_root_lem s) (
    let c = count_user-Counted count_reject (current_session s).task (
      set_session
        (record s {
          ttbr0 =
              if (current_session s).kernel_root == 0
              then s.ttbr0
              else (current_session s).kernel_root;
        })
        (rejected reason (current_session s))) in
    (c.sessions, c.root))

-- A session that is recovered.
abbrev recovered : Session → Session
recovered x =
    over true (record x { reject_count = add64 x.reject_count 1; last_reject_reason = reject_none })

pub same_place : (n : ℕ) → (n == n) ≡ true
same_place n = ground arith

recover_lem :
    (t : Trap)
    → ((i : ℕ)
        → (recover t).sched.user_sessions i
          ≡ update t.sched.user_sessions
              (session_index t.sched)
              (recovered (current_session t.sched))
              i)
      × ((recover t).sched.ttbr0 ≡ (current_session t.sched).kernel_root)
      × ((recover t).elr ≡ (current_session t.sched).return_pc)
unfolding recover set_session session_index current_session
recover_lem t =
    let s : Sched =
      set_session (record t.sched { ttbr0 = (current_session t.sched).kernel_root })
        (record (current_session t.sched) {
          reject_count = add64 (current_session t.sched).reject_count 1;
          last_reject_reason = reject_none;
        }) in
    let s' : Sched =
      count_user (λ u. count_reject (count_trap u)) (current_session t.sched).task s in
    let (sessions, root, back) =
      complete_lem true (record t { sched = s' }) s
        (count_user-Counted (λ u. count_reject (count_trap u)) (current_session t.sched).task s) in
    let here = same_place (session_index t.sched) in
    (
      λ i.
          ap (λ (f : Array Session). f i) sessions
          ∙ elim (Bool-cases (i == session_index t.sched)) [
            | inl e ↦ rw (e, here) refl
            | inr e ↦ rw e refl
          ],
      root,
      back ∙ rw here refl,
    )

recover_level : (t : Trap) → (recover t).spsr ≡ spsr_el1h
unfolding recover complete
recover_level t = refl

tasks-user_session_reject :
    (reason : RejectReason) (s : Sched) (i : ℕ)
    → ((user_session_reject reason s).tasks i ≡ (
        if is_task (current_session s).task i
        then after_exception false (s.tasks i)
        else s.tasks i))
      × ((user_session_reject reason s).current_task ≡ s.current_task)
unfolding user_session_reject set_session session_index current_session count_reject
tasks-user_session_reject reason s i = rw (leave_root_lem s) (
    tasks-count_user count_reject (current_session s).task
      (set_session
        (record s {
          ttbr0 =
              if (current_session s).kernel_root == 0
              then s.ttbr0
              else (current_session s).kernel_root;
        })
        (rejected reason (current_session s)))
      i)

tasks-recover :
    (t : Trap) (i : ℕ)
    → ((recover t).sched.tasks i ≡ (
        if is_task (current_session t.sched).task i
        then after_exception true (t.sched.tasks i)
        else t.sched.tasks i))
      × ((recover t).sched.current_task ≡ t.sched.current_task)
unfolding recover complete set_session session_index current_session count_reject count_trap
tasks-recover t i =
    tasks-count_user (λ u. count_reject (count_trap u)) (current_session t.sched).task
      (set_session (record t.sched { ttbr0 = (current_session t.sched).kernel_root })
        (record (current_session t.sched) {
          reject_count = add64 (current_session t.sched).reject_count 1;
          last_reject_reason = reject_none;
        }))
      i

rejects :
    (t : Trap) (spsr : ℕ) (reason : RejectReason)
    → (current_session t.sched).active ≡ true
    → recovers (current_session t.sched) spsr ≡ false
    → reason_of (current_session t.sched) spsr ≡ reason
    → HandlesException t spsr (record t { sched = user_session_reject reason t.sched }) false
unfolding current_session session_index
rejects t spsr reason active refused because =
    let (sessions, root) = user_session_reject_lem reason t.sched in
    let here = same_place (session_index t.sched) in
    let at : (user_session_reject reason t.sched).user_sessions (session_index t.sched)
        ≡ rejected reason (current_session t.sched) =
      ap (λ (f : Array Session). f (session_index t.sched)) sessions ∙ rw here refl in
    record {
      accepted = sym refused;
      inactive = ap (λ (x : Session). x.active) at;
      completed = ap (λ (x : Session). x.completed) at;
      faulted = ap (λ (x : Session). x.faulted) at;
      kernel_tables = root ∙ rw active (ground arith);
      back = refl;
      level = refl;
      nothing = λ e. absurd (ground (arith, active, e));
      rejects = ap (λ (x : Session). x.reject_count) at ∙ rw active refl;
      reason = ap (λ (x : Session). x.last_reject_reason) at ∙ rw active (sym because);
      tasks = λ i. (tasks-user_session_reject reason t.sched i).0 ∙ rw active refl;
      current = (tasks-user_session_reject reason t.sched 0).1;
      others = λ i d. ap (λ (f : Array Session). f i) sessions ∙ ground arith;
    }

recovering :
    (t : Trap) (spsr : ℕ)
    → recovers (current_session t.sched) spsr ≡ true
    → (current_session t.sched).active ≡ true
    → ((current_session t.sched).kernel_root == 0) ≡ false
    → reason_of (current_session t.sched) spsr ≡ reject_none
    → HandlesException t spsr (recover t) true
unfolding current_session session_index
recovering t spsr accepted active tables because =
    let (sessions, root, back) = recover_lem t in
    let here = same_place (session_index t.sched) in
    let at : (recover t).sched.user_sessions (session_index t.sched)
        ≡ recovered (current_session t.sched) =
      sessions (session_index t.sched) ∙ rw here refl in
    record {
      accepted = sym accepted;
      inactive = ap (λ (x : Session). x.active) at;
      completed = ap (λ (x : Session). x.completed) at;
      faulted = ap (λ (x : Session). x.faulted) at;
      kernel_tables = root ∙ rw (active, tables) refl;
      back = back;
      level = recover_level t;
      nothing = λ e. absurd (ground (arith, active, e));
      rejects = ap (λ (x : Session). x.reject_count) at ∙ rw active refl;
      reason = ap (λ (x : Session). x.last_reject_reason) at ∙ rw active (sym because);
      tasks = λ i. (tasks-recover t i).0 ∙ rw active refl;
      current = (tasks-recover t 0).1;
      others = λ i d. sessions i ∙ ground arith;
    }

idle :
    (t : Trap) (spsr : ℕ)
    → (current_session t.sched).active ≡ false
    → HandlesException t spsr t false
unfolding current_session session_index
idle t spsr inactive = record {
  accepted = rw inactive refl;
  inactive = inactive;
  completed = refl;
  faulted = refl;
  kernel_tables = rw inactive refl;
  back = refl;
  level = refl;
  nothing = λ e. refl;
  rejects = rw inactive refl;
  reason = rw inactive refl;
  tasks = λ i. rw inactive refl;
  current = refl;
  others = λ i d. refl;
}

-- An exception during a session of the current task ends the session, brings back the kernel's tables
-- when they are known, counts a reject for the session and for its task, and stores the reason. It is
-- recovered, so that it returns to the session's return address in kernel mode with the session
-- completed as faulted and a trap counted for the task, just when it came from user mode and the session
-- has both roots and a place to return to. Without a session nothing at all changes; the sessions of other
-- tasks, the other tasks and the current task stay as they are.
pub user_mode_handle_exception-Handles :
    (t : Trap) (spsr : ℕ)
    → HandlesException t spsr
        (user_mode_handle_exception t spsr).0
        (user_mode_handle_exception t spsr).1
unfolding user_mode_handle_exception
user_mode_handle_exception-Handles t spsr =
    let x : Session = current_session t.sched in
    elim (Bool-cases x.active) [
      | inr inactive ↦ rw (user_mode_handle_exception, inactive) (idle t spsr inactive)
      | inl active ↦ elim (Bool-cases ((x.kernel_root == 0) || (x.user_root == 0))) [
        | inl roots ↦
            rw (user_mode_handle_exception, active, roots)
              (rejects t spsr reject_bad_roots active (ground (arith, roots)) (rw roots refl))
        | inr roots ↦ elim (Bool-cases (x.return_pc == 0)) [
          | inl nowhere ↦
              rw (user_mode_handle_exception, active, roots, nowhere)
                (rejects t spsr reject_bad_return active (ground (arith, nowhere))
                  (rw (roots, nowhere) refl))
          | inr back ↦ elim (Bool-cases (bit_and spsr 0xf == spsr_el0t)) [
            | inl user ↦
                rw (user_mode_handle_exception, active, roots, back, user)
                  (recovering t spsr (ground (arith, active, roots, back, user)) active
                    (ground (arith, roots)) (rw (roots, back, user) refl))
            | inr kernel ↦
                rw (user_mode_handle_exception, active, roots, back, kernel)
                  (rejects t spsr reject_unexpected_mode active (ground (arith, kernel))
                    (rw (roots, back, kernel) refl))
          ]
        ]
      ]
    ]
