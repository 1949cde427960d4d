-- ===== src/Kernel.antt =====
-- src/kern/pthread_workqueue.c: the device and the helper thread of the module for Linux.
use libpwq.Prelude.{
  ℕ, ℤ, pos, ◌+◌, Option, none, some, List, [], ◌∷◌, Bool, true, false, if◌then◌else◌, is_negative,
}

-- What the module holds of the kernel: the number `pwq_major` of its character device, the node with
-- its class, and the thread `pwq_collector_thread`.
pub record Held : Type 0 where
  pub chrdev : Option ℤ
  pub node : Bool
  pub collector : Bool

abbrev pub nothing_held : Held
nothing_held = record { chrdev = none; node = false; collector = false }

-- `major` is what register_chrdev returns; `thread_error` is the error of kthread_create, `none` if
-- it makes a thread.
unfoldable pub pwq_start : ℤ → Option ℤ → Held → Held × ℤ
pwq_start major thread_error h =
    if is_negative major
    then (h, major)
    else (let h' = record h { chrdev = some major; node = true } in
        elim thread_error [
          | some error ↦ (h', error)
          | none ↦ (record h' { collector = true }, pos 0)
        ])

unfoldable pub pwq_end : Held → Held
pwq_end h = record { chrdev = none; node = false; collector = false }

-- pwq_open and pwq_release only print.
unfoldable pub pwq_open : ℤ
pwq_open = pos 0

unfoldable pub pwq_release : ℤ
pwq_release = pos 0

-- The loop of the helper thread: the answers of kthread_should_stop, and the number of times that
-- it sleeps; `none` while it goes on.
unfoldable pub pwq_collector_main : List Bool → Option (ℕ × ℤ)
pwq_collector_main [] = none
pwq_collector_main (should_stop ∷ rest) =
    let later = pwq_collector_main rest in
    if should_stop
    then some (0, pos 0)
    else elim later [ none ↦ none | some (sleeps, rv) ↦ some (sleeps + 1, rv) ]
