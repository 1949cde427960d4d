-- ===== src/Solaris/Priority.antt =====
-- src/solaris/thread_rt.c, and the place in worker_main (src/posix/manager.c) that calls it: the
-- scheduling class of a worker.
use libpwq.Prelude.{
  ℕ, ◌≡◌, Option, none, some, List, [], ◌∷◌, Bool, true, not, ◌==◌, ◌&&◌, if◌then◌else◌,
}
use libpwq.Workqueue.{high_prioqueue, default_prioqueue, low_prioqueue}

-- The classes "TS" and "FX".
pub data Class : Type 0 where
  time_sharing fixed_priority : Class

-- The class that priocntl is asked for; `none` in the default case.
abbrev pub class_for : ℕ → Option Class
class_for priority =
    if priority == low_prioqueue
    then some time_sharing
    else if priority == default_prioqueue
    then some time_sharing
    else if priority == high_prioqueue
    then some fixed_priority
    else none

-- The class of the thread after the call; `success` says whether priocntl returns 0.
unfoldable pub ptwq_set_current_thread_priority : Bool → ℕ → Class → Class
ptwq_set_current_thread_priority success priority class = elim (class_for priority) [
  | none ↦ class
  | some c ↦ if success then c else class
]

-- `current_thread_priority` of worker_main, and the class of the thread.
pub record Scheduled : Type 0 where
  pub current_thread_priority : ℕ
  pub class : Class

-- Before an item of a queue is run; `rt_threads` is PWQ_RT_THREADS.
unfoldable pub reschedule : Bool → Bool → ℕ → Scheduled → Scheduled
unfolding ptwq_set_current_thread_priority
reschedule rt_threads success queue_priority t =
    if rt_threads && not (t.current_thread_priority == queue_priority)
    then record {
      current_thread_priority = queue_priority;
      class = ptwq_set_current_thread_priority success queue_priority t.class;
    }
    else t

-- A worker that runs items of these priorities, one after the other.
unfoldable pub reschedule_all : Bool → List ℕ → Scheduled → Scheduled
unfolding reschedule
reschedule_all rt_threads [] t = t
reschedule_all rt_threads (priority ∷ rest) t =
    reschedule_all rt_threads rest (reschedule rt_threads true priority t)

-- The class is the one for the current priority, if there is one for it.
abbrev pub HasClass : Scheduled → Type 0
HasClass t = (c : Class) → class_for t.current_thread_priority ≡ some c → t.class ≡ c
