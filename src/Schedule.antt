-- ===== src/Schedule.antt =====
-- src/main.go: `schedule`, `parseSchedule`, `cronField`, `matches` and `next`. A schedule is an
-- elapsed interval or five calendar fields, each a set of numbers in a 64-bit word.
pub mod Times
pub mod Field
pub mod Marks
pub mod Plan
pub mod Cover
pub mod Next
pub mod Samples
