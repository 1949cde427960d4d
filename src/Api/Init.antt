-- ===== src/Api/Init.antt =====
-- src/api.c: pthread_workqueue_init_np and the calls that hand over to the manager.
use Prim.Native.String.{String}
use libpwq.Prelude.{
  ℕ, ◌≡◌, refl, Option, none, some, List, Bool, true, false, if◌then◌else◌, Outcome, ret,
  Bool-cases, inl, inr,
}
use libpwq.Manager.{Manager}
use libpwq.Manager.Invariant.{Inv}
use libpwq.Manager.Init.{Surroundings, manager_init, unset}
use libpwq.Manager.Init.Laws.{manager_init-Inv}
use libpwq.Manager.Control.{manager_suspend, manager_resume, manager_signal, Peeks, manager_peek}

-- The static variables of api.c and of the platform: `pwq_initialized`, DEBUG_WORKQUEUE,
-- PWQ_RT_THREADS, PWQ_ACTIVE_CPU and PWQ_SPIN_THREADS.
pub record Settings : Type 0 where
  pub initialized : Bool
  pub debug : Bool
  pub rt_threads : Bool
  pub active_cpu : ℕ
  pub spin_threads : ℕ

-- The environment variables: whether PWQ_DEBUG and PWQ_RT_THREADS are set, and what atoi reads in
-- PWQ_ACTIVE_CPU and PWQ_SPIN_THREADS, as `unsigned int`.
pub record Environment : Type 0 where
  pub pwq_debug : Bool
  pub pwq_rt_threads : Bool
  pub pwq_active_cpu : Option ℕ
  pub pwq_spin_threads : Option ℕ

-- `ndebug` says whether NDEBUG is defined.
unfoldable pub read_environment : Bool → Environment → Settings → Settings
read_environment ndebug env s = record s {
  debug = if ndebug then false else env.pwq_debug;
  rt_threads = env.pwq_rt_threads;
  active_cpu = elim env.pwq_active_cpu [ none ↦ 0 | some n ↦ n ];
  spin_threads = elim env.pwq_spin_threads [ none ↦ s.spin_threads | some n ↦ n ];
}

-- The result is false for -1. What manager_init asks of the system is `e`, but for PWQ_ACTIVE_CPU.
unfoldable pub pthread_workqueue_init_np :
    Bool → Environment → Surroundings → Settings → Manager → Settings × Manager × Bool
unfolding read_environment
pthread_workqueue_init_np ndebug env e s m =
    if s.initialized
    then (s, m, true)
    else let s' = read_environment ndebug env s in
      let (m', done) = manager_init (record e { active_cpu = s'.active_cpu }) m in
      if done then (record s' { initialized = true }, m', true) else (s', m', false)

unfoldable pub pthread_workqueue_peek_np : Peeks → Manager → String → Outcome ℕ
pthread_workqueue_peek_np p m key = manager_peek p m key

-- The other three do nothing on Windows.
unfoldable pub pthread_workqueue_suspend_np : Bool → List ℕ → Manager → Outcome Manager
pthread_workqueue_suspend_np windows reads m = if windows then ret m else manager_suspend reads m

unfoldable pub pthread_workqueue_resume_np : Bool → Manager → Manager
pthread_workqueue_resume_np windows m = if windows then m else manager_resume m

unfoldable pub pthread_workqueue_signal_np : Bool → Manager → Manager
pthread_workqueue_signal_np windows m = if windows then m else manager_signal m

-- The call of manager_init in a first call of pthread_workqueue_init_np.
abbrev started : Bool → Environment → Surroundings → Settings → Manager × Bool
started ndebug env e s =
    manager_init (record e { active_cpu = (read_environment ndebug env s).active_cpu }) unset

first_init :
    (ndebug : Bool) (env : Environment) (e : Surroundings) (s : Settings)
    → s.initialized ≡ false
    → pthread_workqueue_init_np ndebug env e s unset ≡ (
        if (started ndebug env e s).1
        then (
          record (read_environment ndebug env s) { initialized = true },
          (started ndebug env e s).0,
          true,
        )
        else (read_environment ndebug env s, (started ndebug env e s).0, false))
unfolding pthread_workqueue_init_np
first_init ndebug env e s new = rw new refl

-- Whether a first call of pthread_workqueue_init_np fails or not, the state that it leaves has
-- tables and masks that agree; if it succeeds, each later call returns 0 and changes nothing.
pub init_np_idempotent :
    (ndebug ndebug' : Bool) (env env' : Environment) (e e' : Surroundings) (s : Settings)
    → s.initialized ≡ false
    → let (s', m', done) = pthread_workqueue_init_np ndebug env e s unset in
      Inv m'
      × (s'.initialized ≡ done)
      × (if done
          then pthread_workqueue_init_np ndebug' env' e' s' m' ≡ (s', m', true)
          else s'.initialized ≡ false)
unfolding pthread_workqueue_init_np read_environment
init_np_idempotent ndebug ndebug' env env' e e' s new =
    elim (Bool-cases (started ndebug env e s).1) [
      | inl done ↦ rw (first_init ndebug env e s new) (rw done (valid, refl, refl))
      | inr failed ↦ rw (first_init ndebug env e s new) (rw failed (valid, new, new))
    ]
  where
    valid : Inv (started ndebug env e s).0
    valid = manager_init-Inv _
