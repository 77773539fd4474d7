-- ===== src/TaskSet.antt =====
-- backend/stage_task_set.py: the record of the tasks that a derived-task-set stage has.
pub mod Values
pub mod Validation
pub mod Build
pub mod Accepted
pub mod Consistent
pub mod Sorted
pub mod Verified
pub mod Built
pub mod Parents
pub mod Paths
pub mod Normal
pub mod Directories
