-- ===== src/Scheduler.antt =====
-- scheduler/: the intervals between requests, their cadence, and the queue of REST jobs.
pub mod Interval
pub mod Controller
pub mod Cadence
pub mod Job
pub mod Queue
pub mod Submit
pub mod Dispatch
