-- ===== src/Tests/Platforms.antt =====
-- Signals, scheduling classes and the time at concrete inputs.
use libpwq.Solaris.Priority.{Scheduled, time_sharing}

abbrev new_worker : Scheduled
new_worker = record { current_thread_priority = 1; class = time_sharing }
