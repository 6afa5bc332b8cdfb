-- ===== src/Scheduled.antt =====
-- src/bindings/scheduled.ts: cron expressions. Calendar has the helpers on dates, Fields the parser of a
-- field, Timer the ticks of the timer.
pub mod Calendar
pub mod Weekdays
pub mod Occurrences
pub mod Nearest
pub mod Tokens
pub mod Fields
pub mod Steps
pub mod Crons
pub mod Timer
pub mod Once
mod Tests
