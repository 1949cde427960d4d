-- ===== src/System/Serve.antt =====
-- A worker of src/posix/manager.c that is awake, and the next item.
use libpwq.Prelude.{
  ℕ, zero, suc, pos, ◌+◌, ◌<◌, ◌≡◌, refl, sym, ap, subst, ◌∙◌, none, some, true, false, List, [],
  ◌∷◌, ret, arith, update, update_self, sum_over-member,
}
use libpwq.Word.{ffs}
use libpwq.Word.Ffs.{ffs_lt, bit-ffs}
use libpwq.Workqueue.{Work, is_null, slot, workqueue_max}
use libpwq.Manager.{Manager}
use libpwq.Manager.Invariant.{pending_items}
use libpwq.Manager.Pool.{accept_item, force_wakeup}
use libpwq.Manager.Weigh.{weigh, total}
use libpwq.Manager.Scan.{scan_queue}
use libpwq.Manager.Scan.Queue.{empty, held_back, took, scan_queue-QueueResult}
use libpwq.System.{
  Call, first, spin, wait, skips, scanning, picked, missed, got, ready, running, Move, reads,
  no_item, takes, goes_on, spun, accepts, calls, returns, is_asleep, is_free, System, Reach,
}
use libpwq.System.Counters.{is_worker}
use libpwq.System.Items.{load, Move-kept}
use libpwq.System.Invariant.{IsPlaced}
use libpwq.System.Wakeup.{queued, idle_mask, held_plain, request, no_requests}
use libpwq.System.Preserved.{IsFresh, Reach-SystemInv}
use libpwq.System.Course.{moved, here, by_move, Takes, go_on}

module _ {n : ℕ} {m0 : Manager} (fresh : IsFresh n m0) where
  -- Of a queue with an item the scan takes the head, and of one without it takes nothing and changes
  -- nothing.
  data Picks (s : System) (c : Call) (k : ℕ) : Type 0 where
    misses :
        scan_queue s.manager k (skips c) ≡ ret (s.manager, none)
        → pending_items s.manager k ≡ []
        → Picks s c k
    hits :
        (w : Work) (m' : Manager)
        → scan_queue s.manager k (skips c) ≡ ret (m', some (w, pos k))
        → Picks s c k

  -- No item that is queued asks a worker to exit.
  queued_plain :
      {s : System} (k : ℕ) (w : Work) (rest : List Work)
      → Reach n false m0 s
      → k < workqueue_max
      → pending_items s.manager k ≡ w ∷ rest
      → is_null w.func ≡ false
  unfolding load total weigh
  queued_plain {s} k w rest r lt there =
      let kept = (Reach-SystemInv fresh r).kept request in
      let member = sum_over-member (weigh request) workqueue_max (pending_items s.manager) k lt in
      let head : weigh request (pending_items s.manager k) ≡ request w + weigh request rest =
        rw there refl in
      ground (arith, no_requests r, kept, member, head)

  picks :
      {s : System} (c : Call) (k a : ℕ)
      → Reach n false m0 s
      → slot s.manager.wqlist k ≡ some a
      → Picks s c k
  picks {s} c k a r own =
      elim (scan_queue-QueueResult (Reach-SystemInv fresh r).valid k a own (skips c)) [
        | empty nil call ↦ misses call nil
        | held_back w rest ask lt there call ↦
            absurd (ground (arith, ask, queued_plain k w rest r lt there))
        | took w rest m' runs removed call ↦ hits w m' call
      ]

  -- A worker takes what it picked.
  take_now :
      {s : System} (i : ℕ) (c : Call) (k : ℕ) (w : Work) (m' : Manager)
      → Reach n false m0 s
      → i < n
      → s.pc i ≡ picked c (suc k)
      → scan_queue s.manager k (skips c) ≡ ret (m', some (w, pos k))
      → Takes n s
  unfolding weigh
  take_now {s} i c k w m' r lt at call =
      let v = (Reach-SystemInv fresh r).valid in
      let here_picked : Move s.manager (is_free n s.pc) (picked c (suc k)) m' (got c w) =
        takes call in
      let mv = subst (λ x. Move s.manager (is_free n s.pc) x m' (got c w)) (sym at) here_picked in
      let kept = Move-kept (λ w. 1) v here_picked in
      let mine = sum_over-member is_worker n (update s.pc i (got c w)) i lt in
      record {
        after = moved s i m' (got c w);
        course = by_move i lt (ap is_asleep at) mv here;
        fewer = omega (arith, kept);
        workers = omega (arith, mine, ap is_worker (update_self s.pc i (got c w)));
      }

  -- A worker that looks at the mask finds the bit of a queue with an item.
  pub scan_then :
      {s : System} (i : ℕ) (c : Call)
      → Reach n false m0 s
      → i < n
      → s.pc i ≡ scanning c
      → 0 < queued s.manager
      → Takes n s
  unfolding weigh
  scan_then {s} i c r lt at some_item =
      go_on i (scanning c) (picked c (ffs s.manager.wqlist_mask)) fresh r lt at refl reads refl
        some_item
        (λ r' some_item'.
          from_mask (ffs s.manager.wqlist_mask) refl r'
            (update_self s.pc i (picked c (ffs s.manager.wqlist_mask))))
    where
      from_mask :
          (b : ℕ)
          → ffs s.manager.wqlist_mask ≡ b
          → Reach n false m0 (moved s i s.manager (picked c (ffs s.manager.wqlist_mask)))
          → update s.pc i (picked c (ffs s.manager.wqlist_mask)) i
            ≡ picked c (ffs s.manager.wqlist_mask)
          → Takes n (moved s i s.manager (picked c (ffs s.manager.wqlist_mask)))
      from_mask zero e r' at' =
          let inv = Reach-SystemInv fresh r in
          absurd (omega (arith, some_item, idle_mask s.manager inv.valid e))
      from_mask (suc k) e r' at' =
          let inv = Reach-SystemInv fresh r' in
          let place = at' ∙ ap (picked c) e in
          let (a, own) = subst (IsPlaced s.manager) place (inv.placed i) in
          elim (picks c k a r' own) [
            | misses call nil ↦
                let bit_there = bit-ffs s.manager.wqlist_mask k e in
                absurd (
                  ground (
                    arith,
                    nil,
                    bit_there,
                    inv.valid.normal.pending k (ffs_lt s.manager.wqlist_mask k e),
                  ))
            | hits w m' call ↦ take_now i c k w m' r' lt place call
          ]

  -- A worker that has an item runs it, and then looks at the mask.
  pub run_then :
      {s : System} (i : ℕ) (w : Work)
      → Reach n false m0 s
      → i < n
      → s.pc i ≡ running w
      → 0 < queued s.manager
      → Takes n s
  unfolding weigh
  run_then {s} i w r lt at some_item =
      go_on i (running w) (scanning first) fresh r lt at refl returns refl some_item
        (λ r' some_item'. scan_then i first r' lt (update_self s.pc i (scanning first)) some_item')

  pub ready_then :
      {s : System} (i : ℕ) (w : Work)
      → Reach n false m0 s
      → i < n
      → s.pc i ≡ ready w
      → 0 < queued s.manager
      → Takes n s
  unfolding weigh
  ready_then {s} i w r lt at some_item =
      go_on i (ready w) (running w) fresh r lt at refl calls refl some_item
        (λ r' some_item'. run_then i w r' lt (update_self s.pc i (running w)) some_item')

  accepts_plain :
      (m : Manager) (w : Work) → is_null w.func ≡ false → accept_item m w ≡ (force_wakeup m, true)
  unfolding accept_item
  accepts_plain m w plain = rw plain refl

  pub got_then :
      {s : System} (i : ℕ) (c : Call) (w : Work)
      → Reach n false m0 s
      → i < n
      → s.pc i ≡ got c w
      → 0 < queued s.manager
      → Takes n s
  unfolding weigh
  got_then {s} i first w r lt at some_item =
      go_on i (got first w) (ready w) fresh r lt at refl goes_on refl some_item
        (λ r' some_item'. ready_then i w r' lt (update_self s.pc i (ready w)) some_item')
  got_then {s} i spin w r lt at some_item =
      go_on i (got spin w) (ready w) fresh r lt at refl spun refl some_item
        (λ r' some_item'. ready_then i w r' lt (update_self s.pc i (ready w)) some_item')
  got_then {s} i wait w r lt at some_item =
      go_on i (got wait w) (ready w) fresh r lt at refl
        (accepts (accepts_plain s.manager w (held_plain fresh r i w lt at))) refl some_item
        (λ r' some_item'. ready_then i w r' lt (update_self s.pc i (ready w)) some_item')

  -- A worker that picked a queue takes its head, or goes on where the queue is empty.
  pub pick_or :
      {s : System} (i : ℕ) (c : Call) (k : ℕ)
      → Reach n false m0 s
      → i < n
      → s.pc i ≡ picked c (suc k)
      → 0 < queued s.manager
      → (Reach n false m0 (moved s i s.manager (missed c))
          → 0 < queued s.manager
          → pending_items s.manager k ≡ []
          → Takes n (moved s i s.manager (missed c)))
      → Takes n s
  unfolding weigh
  pick_or {s} i c k r lt at some_item rest =
      let (a, own) = subst (IsPlaced s.manager) at ((Reach-SystemInv fresh r).placed i) in
      elim (picks c k a r own) [
        | hits w m' call ↦ take_now i c k w m' r lt at call
        | misses call nil ↦
            go_on i (picked c (suc k)) (missed c) fresh r lt at refl (no_item call) refl some_item
              (λ r' some_item'. rest r' some_item' nil)
      ]
