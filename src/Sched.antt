-- ===== src/Sched.antt =====
-- kernel/sched: tasks and their scheduling.
pub mod Task
pub mod Stacks
pub mod State
pub mod Switch
pub mod Effects
pub mod Create
pub mod Control
pub mod Invariant
pub mod Fairness
pub mod Sleep
pub mod Results
pub mod Examples
