-- ===== src/Api/Create.antt =====
-- pthread_workqueue_create_np: what it refuses, what it makes, and when it ends the process.
use libpwq.Prelude.{
  ℕ, ℤ, pos, negsuc, ◌<◌, is_nonzero, to_index, is_negative, at_least, ◌≡◌, refl, Option, none,
  some, List, [], ◌∷◌, ◌++◌, Bool, true, false, length, get_elem?, set, if◌then◌else◌, arith,
  Outcome, ret, aborts, waits, faults, ◌||◌, not, sym, ap, ◌∙◌, Option-cases, get_elem?-append_new,
  inl, inr, Bool-cases,
}
use libpwq.Workqueue.{Workqueue, num_prioqueue, workqueue_max, slot}
use libpwq.Manager.{Manager}
use libpwq.Manager.Invariant.{Inv, table_of, pending_items, overcommit_items}
use libpwq.Manager.Create.{Spawn, store_workqueue, manager_workqueue_create}
use libpwq.Manager.Create.Start.{CanStart, started, started-Inv, create-store}
use libpwq.Manager.Create.Laws.{slot-set}
use libpwq.Manager.Create.Store.{
  heap_at, stored_normal, stored_over, store_normal-lem, store_over-lem, store_normal-taken,
  store_over-taken, stored_normal-Inv, stored_over-Inv, pending-stored_normal,
  overcommit-stored_normal, pending-stored_over, overcommit-stored_over,
}
use libpwq.Attr.{Attr, ok, einval, enomem}
use libpwq.Api.{Created, refuses, new_workqueue, pthread_workqueue_create_np}

-- The index at which the new workqueue is to be stored.
abbrev pub prio_of : Option Attr → ℕ
prio_of none = 1
prio_of (some attr) = to_index attr.queueprio

prio_of_lem :
    (attr : Option Attr)
    → refuses attr ≡ false
    → (new_workqueue attr).queueprio ≡ pos (prio_of attr)
unfolding refuses new_workqueue
prio_of_lem none h = refl
prio_of_lem (some attr) h = go attr.queueprio (ground (arith, h))
  where
    go : (z : ℤ) → is_negative z ≡ false → z ≡ pos (to_index z)
    go (pos n) e = refl
    go (negsuc n) e = cc

prio_of-lt : (attr : Option Attr) → refuses attr ≡ false → prio_of attr < num_prioqueue
unfolding refuses
prio_of-lt none h = omega arith
prio_of-lt (some attr) h = go attr.queueprio (ground (arith, h)) (ground (arith, h))
  where
    go :
        (z : ℤ)
        → is_negative z ≡ false
        → at_least z num_prioqueue ≡ false
        → to_index z < num_prioqueue
    go (pos n) e f = ground arith
    go (negsuc n) e f = cc

no_items : (attr : Option Attr) → (new_workqueue attr).item_listhead ≡ []
unfolding new_workqueue
no_items none = refl
no_items (some attr) = refl

-- A workqueue that was created: its handle is a new address, it is empty and stored in its table,
-- and no queue gained or lost an item.
pub record IsCreated (attr : Option Attr) (m m' : Manager) (a : ℕ) : Type 0 where
  pub fresh : a ≡ length m.heap
  pub made :
      get_elem? m'.heap a ≡ some (record (new_workqueue attr) { wqlist_index = prio_of attr })
  pub entered : slot (table_of m' (new_workqueue attr)) (prio_of attr) ≡ some a
  pub items : (i : ℕ) → pending_items m' i ≡ pending_items m i
  pub over_items : (i : ℕ) → overcommit_items m' i ≡ overcommit_items m i
  pub valid : Inv m'
  pub scoreboard : m'.scoreboard ≡ m.scoreboard
  pub pending : m'.pending_thread_create ≡ m.pending_thread_create
  pub idle_threads : m'.ocwq_idle_threads ≡ m.ocwq_idle_threads
  pub signal_count : m'.ocwq_signal_count ≡ m.ocwq_signal_count
  pub kept : (j b : ℕ) → slot m.wqlist j ≡ some b → slot m'.wqlist j ≡ some b

module _ {m : Manager} (v : Inv m) (attr : Option Attr) (spawns : List Spawn)
    (accepted : refuses attr ≡ false) (can : CanStart spawns) where
  abbrev q : Workqueue
  q = new_workqueue attr

  small : prio_of attr < workqueue_max
  small = omega (arith, prio_of-lt attr accepted)

  created_by :
      manager_workqueue_create spawns (record m { heap = m.heap ++ q ∷ [] }) (length m.heap)
      ≡ store_workqueue (record (started m q) { heap = m.heap ++ q ∷ [] }) (length m.heap) q
  created_by = create-store spawns _ (length m.heap) q can (get_elem?-append_new m.heap q)

  -- If the attributes are accepted, there is memory, the manager thread can be started, and the
  -- table entry for the priority is free, the call returns 0 with a new handle: its workqueue is
  -- empty and stored in its table, no queue gained or lost an item, and the invariant is kept.
  pub create_ok :
      slot (table_of m (new_workqueue attr)) (prio_of attr) ≡ none
      → (m' : Manager) × (a : ℕ) × (pthread_workqueue_create_np true spawns m attr
          ≡ ret (record { manager = m'; status = ok; workq = some a }))
        × IsCreated attr m m' a
  unfolding pthread_workqueue_create_np
  create_ok vacant = elim (Bool-cases (is_nonzero q.overcommit)) [
    | inl oc ↦
        let free = rw oc at vacant in
        (
          stored_over v' q p prio small (no_items attr) oc,
          length m.heap,
          rw (accepted, created_by, store_over-lem v' q p prio small (no_items attr) oc free),
          record {
            fresh = refl;
            made = heap_at v' q p prio small (no_items attr);
            entered = rw oc (reads m.ocwq v.over.sized);
            items = pending-stored_over v' q p prio small (no_items attr) oc;
            over_items = overcommit-stored_over v' q p prio small (no_items attr) oc free;
            valid = stored_over-Inv v' q p prio small (no_items attr) oc free;
            scoreboard = refl;
            pending = refl;
            idle_threads = refl;
            signal_count = refl;
            kept = λ j b e. e;
          },
        )
    | inr plain ↦
        let free = rw plain at vacant in
        (
          stored_normal v' q p prio small (no_items attr) plain,
          length m.heap,
          rw (accepted, created_by, store_normal-lem v' q p prio small (no_items attr) plain free),
          record {
            fresh = refl;
            made = heap_at v' q p prio small (no_items attr);
            entered = rw plain (reads m.wqlist v.normal.sized);
            items = pending-stored_normal v' q p prio small (no_items attr) plain free;
            over_items = overcommit-stored_normal v' q p prio small (no_items attr) plain;
            valid = stored_normal-Inv v' q p prio small (no_items attr) plain free;
            scoreboard = refl;
            pending = refl;
            idle_threads = refl;
            signal_count = refl;
            kept = λ j b e.
                ground (
                  arith,
                  slot-set m.wqlist p j (length m.heap) (rw (v.normal.sized) small),
                  e,
                  free,
                );
          },
        )
  ]
    where
      p : ℕ
      p = prio_of attr

      v' : Inv (started m q)
      v' = started-Inv q v

      prio : q.queueprio ≡ pos p
      prio = prio_of_lem attr accepted

      reads :
          (table : List (Option ℕ))
          → length table ≡ workqueue_max
          → slot (set table p (some (length m.heap))) p ≡ some (length m.heap)
      reads table sized = ground (arith, slot-set table p p (length m.heap) (rw sized small))

  -- With accepted attributes, memory, and a manager thread that can be started, a call for a table
  -- entry that is taken does not return: it ends the process.
  pub create_aborts :
      (b : ℕ)
      → slot (table_of m (new_workqueue attr)) (prio_of attr) ≡ some b
      → pthread_workqueue_create_np true spawns m attr ≡ aborts
  unfolding pthread_workqueue_create_np
  create_aborts b taken = elim (Bool-cases (is_nonzero q.overcommit)) [
    | inl oc ↦ rw (
      accepted,
      created_by,
      store_over-taken v' q (prio_of attr) prio small (no_items attr) oc b (rw oc at taken),
    )
    | inr plain ↦ rw (
      accepted,
      created_by,
      store_normal-taken v' q (prio_of attr) prio small (no_items attr) plain b (rw plain at taken),
    )
  ]
    where
      v' : Inv (started m q)
      v' = started-Inv q v

      prio : q.queueprio ≡ pos (prio_of attr)
      prio = prio_of_lem attr accepted

-- Of two calls with the same attributes the second never returns: it ends the process.
pub create_twice :
    (m : Manager) (attr : Option Attr) (spawns spawns' : List Spawn) (c : Created)
    → Inv m
    → refuses attr ≡ false
    → CanStart spawns
    → CanStart spawns'
    → pthread_workqueue_create_np true spawns m attr ≡ ret c
    → pthread_workqueue_create_np true spawns' c.manager attr ≡ aborts
create_twice m attr spawns spawns' c v accepted can can' first =
    elim (Option-cases (slot (table_of m (new_workqueue attr)) (prio_of attr))) [
      | inl vacant ↦
          let (m', a, call, made) = create_ok v attr spawns accepted can vacant in
          let same : c.manager ≡ m' = ap manager_of (sym first ∙ call) in
          rw same (create_aborts made.valid attr spawns' accepted can' a made.entered)
      | inr (b, taken) ↦ cc (create_aborts v attr spawns accepted can b taken)
    ]
  where
    manager_of : Outcome Created → Manager
    manager_of (ret d) = d.manager
    manager_of aborts = m
    manager_of waits = m
    manager_of faults = m

-- A call with bad attributes returns EINVAL, and one with no memory ENOMEM; both change nothing.
pub create_errors :
    (memory : Bool) (spawns : List Spawn) (m : Manager) (attr : Option Attr)
    → (refuses attr || not memory) ≡ true
    → pthread_workqueue_create_np memory spawns m attr
      ≡ ret (record { manager = m; status = if refuses attr then einval else enomem; workq = none })
unfolding pthread_workqueue_create_np
create_errors memory spawns m attr h = ground arith
