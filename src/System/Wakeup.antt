-- ===== src/System/Wakeup.antt =====
-- Who attends to the plain queues of src/posix/manager.c: workers that will scan again, and clients
-- that will signal.
use libpwq.Prelude.{
  ℕ, if◌then◌else◌, suc, ◌+◌, ◌<◌, ◌≡◌, refl, sym, ap, ◌∙◌, ◌⊎◌, inl, inr, [], false, length, arith,
  update, update_self, update_ne, sum_over, sum_over-update, sum_over-member,
}
use native.Mathlib.Decide.{ℕ_discrete}
use libpwq.Word.{ffs}
use libpwq.Word.Ffs.{ffs_zero, ffs_lt, bit-ffs}
use libpwq.Workqueue.{Work, is_null}
use libpwq.Manager.{Manager}
use libpwq.Manager.Invariant.{Inv, pending_items}
use libpwq.Manager.Scan.Priority.{nil_of_empty}
use libpwq.System.{
  wait, Pc, absent, picked, missed, got, asleep, System, moves, starts, fails, stops_one, adds,
  checks, signals, adds_over, takes_over, tunes, creates, Reach, start, later,
}
use libpwq.System.Counters.{is_worker}
use libpwq.Manager.Weigh.{weigh, total-zero}
use libpwq.System.Items.{load, held}
use libpwq.System.Preserved.{IsFresh, Reach-SystemInv}

-- A worker that will read the mask again, or has an item: all but those that sleep, or that are
-- about to unless the queue that they picked has an item.
abbrev pub is_keen : Pc → ℕ
is_keen absent = 0
is_keen asleep = 0
is_keen (picked wait k) = 0
is_keen (missed wait) = 0
is_keen _ = 1

-- The number of items in the plain queues.
abbrev pub queued : Manager → ℕ
queued m = load (λ w. 1) m

-- A keen worker, or a client that has not yet sent its signal.
abbrev pub attention : ℕ → System → ℕ
attention n s = sum_over is_keen n s.pc + s.checking + s.signalling

-- A worker that holds `wqlist_mtx` and has picked a queue with an item.
pub record IsTaking (n : ℕ) (m : Manager) (pc : ℕ → Pc) : Type 0 where
  pub worker : ℕ
  pub queue : ℕ
  pub worker_lt : worker < n
  pub place : pc worker ≡ picked wait (suc queue)
  pub some_there : 0 < length (pending_items m queue)

-- If there are items and workers, someone attends to them.
abbrev pub IsAttended : ℕ → System → Type 0
IsAttended n s =
    0 < queued s.manager
    → 0 < sum_over is_worker n s.pc
    → (0 < attention n s) ⊎ IsTaking n s.manager s.pc

-- The weight of requests to exit.
abbrev pub request : Work → ℕ
request w = if is_null w.func then 1 else 0

pub no_requests :
    {n : ℕ} {m0 : Manager} {s : System} → Reach n false m0 s → weigh request s.added ≡ 0
unfolding weigh
no_requests start = refl
no_requests (later r (stops_one w allowed ask free call sig)) = cc
no_requests (later r (adds a q w at plain runs call)) = ground (arith, no_requests r, runs)
no_requests (later r (moves i lt mv)) = no_requests r
no_requests (later r (starts i lt gone)) = no_requests r
no_requests (later r fails) = no_requests r
no_requests (later r (checks e)) = no_requests r
no_requests (later r (signals e free sig)) = no_requests r
no_requests (later r (adds_over a q w at oc)) = no_requests r
no_requests (later r (creates attr spawns accepted can free call)) = no_requests r
no_requests (later r (takes_over item call)) = no_requests r
no_requests (later r (tunes runqueue about sem suspend)) = no_requests r

-- So a worker that has an item has one with a function.
pub held_plain :
    {n : ℕ} {m0 : Manager} {s : System}
    → IsFresh n m0
    → Reach n false m0 s
    → (i : ℕ) (w : Work) → i < n
    → s.pc i ≡ got wait w
    → is_null w.func ≡ false
held_plain {n} {s = s} fresh r i w lt at =
    let kept = (Reach-SystemInv fresh r).kept request in
    let mine = sum_over-member (held request) n s.pc i lt in
    let here : held request (s.pc i) ≡ request w = ap (held request) at in
    ground (arith, no_requests r, kept, mine, here)

-- No item is queued while the mask is 0.
pub idle_mask : (m : Manager) → Inv m → ffs m.wqlist_mask ≡ 0 → queued m ≡ 0
unfolding load
idle_mask m v e =
    total-zero (λ w. 1) (pending_items m)
      (λ j lt.
        nil_of_empty (pending_items m j)
          (sym (v.normal.pending j (omega arith)) ∙ ffs_zero m.wqlist_mask j e (omega arith)))

pub picks-IsTaking :
    (n i k : ℕ) (m : Manager) (pc : ℕ → Pc)
    → Inv m
    → i < n
    → ffs m.wqlist_mask ≡ suc k
    → IsTaking n m (update pc i (picked wait (ffs m.wqlist_mask)))
picks-IsTaking n i k m pc v lt e = record {
  worker = i;
  queue = k;
  worker_lt = lt;
  place = update_self pc i (picked wait (ffs m.wqlist_mask)) ∙ ap (picked wait) e;
  some_there =
      ground (arith, v.normal.pending k (ffs_lt m.wqlist_mask k e), bit-ffs m.wqlist_mask k e);
}

-- A worker whose new place is keen attends.
pub keen_attends :
    (n i : ℕ) (pc : ℕ → Pc) (p' : Pc)
    → i < n
    → is_keen p' ≡ 1
    → 0 < sum_over is_keen n (update pc i p')
keen_attends n i pc p' lt keen =
    let mine = sum_over-member is_keen n (update pc i p') i lt in
    let here : is_keen (update pc i p' i) ≡ is_keen p' = ap is_keen (update_self pc i p') in
    omega (arith, mine, here, keen)

-- A worker that goes on to sleep, and did not hold up the queue that some other worker picked.
pub passes :
    (n i : ℕ) (s : System) (p' : Pc)
    → i < n
    → is_keen (s.pc i) ≡ 0
    → is_keen p' ≡ 0
    → is_worker (s.pc i) ≡ 1
    → is_worker p' ≡ 1
    → ((k : ℕ) → s.pc i ≡ picked wait (suc k) → pending_items s.manager k ≡ [])
    → IsAttended n s
    → 0 < queued s.manager
    → 0 < sum_over is_worker n (update s.pc i p')
    → (0 < sum_over is_keen n (update s.pc i p') + s.checking + s.signalling)
      ⊎ IsTaking n s.manager (update s.pc i p')
passes n i s p' lt keen keen' worker worker' gone h some_item some_worker =
    let moved = sum_over-update is_keen n s.pc i p' lt in
    let same = sum_over-update is_worker n s.pc i p' lt in
    elim (h some_item (omega (arith, same, worker, worker', some_worker))) [
      | inl att ↦ inl (omega (arith, moved, keen, keen', att))
      | inr t ↦ elim (ℕ_discrete i t.worker) [
        | yes e ↦
            let nil = gone t.queue (ap s.pc e ∙ t.place) in
            absurd (ground (arith, nil, t.some_there))
        | no ne ↦ inr (record {
          worker = t.worker;
          queue = t.queue;
          worker_lt = t.worker_lt;
          place = update_ne s.pc i t.worker p' ne ∙ t.place;
          some_there = t.some_there;
        })
      ]
    ]
