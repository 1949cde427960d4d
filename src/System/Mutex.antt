-- ===== src/System/Mutex.antt =====
-- The workers of src/posix/manager.c at `wqlist_mtx`, and the next item.
use libpwq.Prelude.{
  ℕ, zero, suc, ◌<◌, ◌≡◌, ◌≢◌, refl, ap, ◌∙◌, inl, inr, true, false, arith, update_self, update_ne,
  sum_over-update, sum_over-some, Bool-cases,
}
use libpwq.Manager.{Manager}
use libpwq.Manager.Weigh.{weigh}
use libpwq.System.{
  wait, Pc, scanning, picked, missed, got, blocked, asleep, no_bit, locks, sleeps, holds, is_free,
  System, Reach,
}
use libpwq.System.Wakeup.{queued}
use libpwq.System.Preserved.{IsFresh, Reach-SystemInv}
use libpwq.System.Course.{moved, Takes, go_on}
use libpwq.System.Serve.{scan_then, got_then, pick_or}

module _ {n : ℕ} {m0 : Manager} (fresh : IsFresh n m0) where
  -- Worker `j`, which held the mutex, has gone to sleep, and all else is as it was.
  pub record Released (s u : System) (j : ℕ) : Type 0 where
    pub reach : Reach n false m0 u
    pub free : is_free n u.pc ≡ true
    pub slept : u.pc j ≡ asleep
    pub others : (i : ℕ) → j ≢ i → u.pc i ≡ s.pc i
    pub checking : u.checking ≡ s.checking
    pub signalling : u.signalling ≡ s.signalling
    pub some_item : 0 < queued u.manager

  sleep_then :
      {s : System} (j : ℕ)
      → Reach n false m0 s
      → j < n
      → s.pc j ≡ missed wait
      → 0 < queued s.manager
      → ((u : System) → Released s u j → Takes n u)
      → Takes n s
  unfolding weigh
  sleep_then {s} j r lt at some_item rest =
      go_on j (missed wait) asleep fresh r lt at refl sleeps refl some_item (λ r' some_item'.
        rest (moved s j s.manager asleep) (record {
          reach = r';
          free =
              let one = (Reach-SystemInv fresh r).counted.one in
              let gone = sum_over-update holds n s.pc j asleep lt in
              let held_it : holds (s.pc j) ≡ 1 = ap holds at in ground (arith, one, gone, held_it);
          slept = update_self s.pc j asleep;
          others = λ i ne. update_ne s.pc j i asleep ne;
          checking = refl;
          signalling = refl;
          some_item = some_item';
        }))

  shift : {s u : System} (p : Pc) (j : ℕ) → Released (moved s j s.manager p) u j → Released s u j
  shift {s} {u} p j rel = record {
    reach = rel.reach;
    free = rel.free;
    slept = rel.slept;
    others = λ i ne. rel.others i ne ∙ update_ne s.pc j i p ne;
    checking = rel.checking;
    signalling = rel.signalling;
    some_item = rel.some_item;
  }

  -- The worker that holds the mutex gets an item, or goes to sleep.
  pub release :
      {s : System} (j : ℕ) (p : Pc)
      → Reach n false m0 s
      → j < n
      → s.pc j ≡ p
      → holds p ≡ 1
      → 0 < queued s.manager
      → ((u : System) → Released s u j → Takes n u)
      → Takes n s
  unfolding weigh
  release j (scanning wait) r lt at e some_item rest = scan_then fresh j wait r lt at some_item
  release {s} j (picked wait zero) r lt at e some_item rest =
      go_on j (picked wait zero) (missed wait) fresh r lt at refl no_bit refl some_item
        (λ r' some_item'.
          sleep_then j r' lt (update_self s.pc j (missed wait)) some_item'
            (λ u rel. rest u (shift (missed wait) j rel)))
  release {s} j (picked wait (suc k)) r lt at e some_item rest =
      pick_or fresh j wait k r lt at some_item (λ r' some_item' nil.
        sleep_then j r' lt (update_self s.pc j (missed wait)) some_item'
          (λ u rel. rest u (shift (missed wait) j rel)))
  release j (missed wait) r lt at e some_item rest = sleep_then j r lt at some_item rest
  release j (got wait w) r lt at e some_item rest = got_then fresh j wait w r lt at some_item
  release j p r lt at e some_item rest = absurd (omega (arith, e))

  lock_then :
      {s : System} (i : ℕ)
      → Reach n false m0 s
      → i < n
      → s.pc i ≡ blocked
      → is_free n s.pc ≡ true
      → 0 < queued s.manager
      → Takes n s
  unfolding weigh
  lock_then {s} i r lt at free some_item =
      go_on i blocked (scanning wait) fresh r lt at refl (locks free) refl some_item
        (λ r' some_item'.
          scan_then fresh i wait r' lt (update_self s.pc i (scanning wait)) some_item')

  -- The mutex is free, or some worker holds it.
  pub holder : (s : System) → is_free n s.pc ≡ false → (j : ℕ) × (j < n) × (holds (s.pc j) ≡ 1)
  holder s taken =
      let (j, lt, some_hold) = sum_over-some holds n s.pc (ground (arith, taken)) in
      (j, lt, once (s.pc j) some_hold)
    where
      once : (p : Pc) → 0 < holds p → holds p ≡ 1
      once p h = ground (arith, h)

  pub blocked_then :
      {s : System} (i : ℕ)
      → Reach n false m0 s
      → i < n
      → s.pc i ≡ blocked
      → 0 < queued s.manager
      → Takes n s
  blocked_then {s} i r lt at some_item = elim (Bool-cases (is_free n s.pc)) [
    | inl free ↦ lock_then i r lt at free some_item
    | inr taken ↦
        let (j, j_lt, holding) = holder s taken in
        release j (s.pc j) r j_lt refl holding some_item (λ u rel.
          lock_then i rel.reach lt (rel.others i (apart j holding) ∙ at) rel.free rel.some_item)
  ]
    where
      apart : (j : ℕ) → holds (s.pc j) ≡ 1 → j ≢ i
      apart j holding e =
          let not_blocked : holds (s.pc j) ≡ 0 = ap (λ k. holds (s.pc k)) e ∙ ap holds at in
          omega (arith, holding, not_blocked)
