-- ===== src/System/Keen.antt =====
-- A worker of src/posix/manager.c that will read the mask again, and the next item.
use libpwq.Prelude.{ℕ, zero, suc, ◌<◌, ◌≡◌, refl, false, arith, update_self}
use libpwq.Manager.{Manager}
use libpwq.Manager.Weigh.{weigh}
use libpwq.System.{
  first, spin, Pc, created, scanning, picked, missed, got, blocked, ready, running, begins, no_bit,
  spins_on, gives_up, System, Reach,
}
use libpwq.System.Wakeup.{queued, is_keen}
use libpwq.System.Preserved.{IsFresh}
use libpwq.System.Course.{Takes, go_on}
use libpwq.System.Serve.{scan_then, run_then, ready_then, got_then, pick_or}
use libpwq.System.Mutex.{blocked_then}

module _ {n : ℕ} {m0 : Manager} (fresh : IsFresh n m0) where
  missed_first :
      {s : System} (i : ℕ)
      → Reach n false m0 s
      → i < n
      → s.pc i ≡ missed first
      → 0 < queued s.manager
      → Takes n s
  unfolding weigh
  missed_first {s} i r lt at some_item =
      go_on i (missed first) blocked fresh r lt at refl gives_up refl some_item
        (λ r' some_item'. blocked_then fresh i r' lt (update_self s.pc i blocked) some_item')

  missed_spin :
      {s : System} (i : ℕ)
      → Reach n false m0 s
      → i < n
      → s.pc i ≡ missed spin
      → 0 < queued s.manager
      → Takes n s
  unfolding weigh
  missed_spin {s} i r lt at some_item =
      go_on i (missed spin) (scanning spin) fresh r lt at refl spins_on refl some_item
        (λ r' some_item'.
          scan_then fresh i spin r' lt (update_self s.pc i (scanning spin)) some_item')

  -- A worker that is keen comes to take an item.
  pub keen_then :
      {s : System} (i : ℕ) (p : Pc)
      → Reach n false m0 s
      → i < n
      → s.pc i ≡ p
      → is_keen p ≡ 1
      → 0 < queued s.manager
      → Takes n s
  unfolding weigh
  keen_then {s} i created r lt at e some_item =
      go_on i created (scanning first) fresh r lt at refl begins refl some_item (λ r' some_item'.
        scan_then fresh i first r' lt (update_self s.pc i (scanning first)) some_item')
  keen_then i (scanning c) r lt at e some_item = scan_then fresh i c r lt at some_item
  keen_then i (got c w) r lt at e some_item = got_then fresh i c w r lt at some_item
  keen_then i (ready w) r lt at e some_item = ready_then fresh i w r lt at some_item
  keen_then i (running w) r lt at e some_item = run_then fresh i w r lt at some_item
  keen_then i blocked r lt at e some_item = blocked_then fresh i r lt at some_item
  keen_then i (missed first) r lt at e some_item = missed_first i r lt at some_item
  keen_then i (missed spin) r lt at e some_item = missed_spin i r lt at some_item
  keen_then {s} i (picked first zero) r lt at e some_item =
      go_on i (picked first zero) (missed first) fresh r lt at refl no_bit refl some_item
        (λ r' some_item'. missed_first i r' lt (update_self s.pc i (missed first)) some_item')
  keen_then {s} i (picked spin zero) r lt at e some_item =
      go_on i (picked spin zero) (missed spin) fresh r lt at refl no_bit refl some_item
        (λ r' some_item'. missed_spin i r' lt (update_self s.pc i (missed spin)) some_item')
  keen_then {s} i (picked first (suc k)) r lt at e some_item =
      pick_or fresh i first k r lt at some_item
        (λ r' some_item' nil. missed_first i r' lt (update_self s.pc i (missed first)) some_item')
  keen_then {s} i (picked spin (suc k)) r lt at e some_item =
      pick_or fresh i spin k r lt at some_item
        (λ r' some_item' nil. missed_spin i r' lt (update_self s.pc i (missed spin)) some_item')
  keen_then i p r lt at e some_item = absurd (omega (arith, e))
