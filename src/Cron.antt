-- ===== src/Cron.antt =====
-- internal/cron: the scheduler of the recurring Renovate jobs. The schedule parser of
-- robfig/cron/v3 and the clock are parameters.
pub mod Scheduler
