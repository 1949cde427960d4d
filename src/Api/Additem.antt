-- ===== src/Api/Additem.antt =====
-- pthread_workqueue_additem_np: when it returns, and what it returns and leaves.
use libpwq.Prelude.{
  ℕ, ◌≡◌, refl, Option, none, some, List, [], ◌∷◌, Bool, true, not, ◌||◌, ◌==◌, is_nonzero,
  get_elem?, ltb, if◌then◌else◌, arith, ret, waits, inl, inr, Bool-cases,
}
use libpwq.Workqueue.{Work, Workqueue, workqueue_sig, is_null}
use libpwq.Witem.{new_witem, witem_alloc}
use libpwq.Manager.{Manager, signal_worker}
use libpwq.Manager.Invariant.{Inv, pending_items, overcommit_items}
use libpwq.Manager.Additem.Laws.{append_at, additem_normal, additem_overcommit}
use libpwq.Attr.{ok, einval}
use libpwq.Api.{Added, pthread_workqueue_additem_np}

-- The first result of malloc that is not NULL.
unfoldable pub first_block : List (Option ℕ) → Option ℕ
first_block [] = none
first_block (none ∷ rest) = first_block rest
first_block (some p ∷ rest) = some p

witem_alloc_lem :
    (mallocs : List (Option ℕ)) (func : Option ℕ) (arg p : ℕ)
    → first_block mallocs ≡ some p
    → witem_alloc mallocs func arg ≡ ret (new_witem p func arg)
unfolding first_block witem_alloc
witem_alloc_lem [] func arg p h = cc
witem_alloc_lem (none ∷ rest) func arg p h = witem_alloc_lem rest func arg p h
witem_alloc_lem (some b ∷ rest) func arg p h = cc

witem_alloc_waits :
    (mallocs : List (Option ℕ)) (func : Option ℕ) (arg : ℕ)
    → first_block mallocs ≡ none
    → witem_alloc mallocs func arg ≡ waits
unfolding first_block witem_alloc
witem_alloc_waits [] func arg h = refl
witem_alloc_waits (none ∷ rest) func arg h = witem_alloc_waits rest func arg h
witem_alloc_waits (some b ∷ rest) func arg h = cc

-- The item `w` is the last of the queue of `q`, and no other queue changed.
pub record IsAdded (m m' : Manager) (q : Workqueue) (w : Work) : Type 0 where
  pub items :
      (i : ℕ)
      → pending_items m' i ≡ (
          if is_nonzero q.overcommit
          then pending_items m i
          else append_at (pending_items m) q.wqlist_index w i)
  pub over_items :
      (i : ℕ)
      → overcommit_items m' i ≡ (
          if is_nonzero q.overcommit
          then append_at (overcommit_items m) q.wqlist_index w i
          else overcommit_items m i)
  pub valid : Inv m'

module _ (mallocs : List (Option ℕ)) (m : Manager) (a : ℕ) (q : Workqueue)
    (handlep gencountp : Bool) (at : get_elem? m.heap a ≡ some q) where
  -- On a valid handle, with a function, the call returns 0 once malloc gives memory: the new item
  -- is at the end of its queue, and the handle and the generation count 0 are stored where asked.
  pub additem_ok :
      (f arg p : ℕ)
      → Inv m
      → q.sig ≡ workqueue_sig
      → first_block mallocs ≡ some p
      → (c : Added) × (pthread_workqueue_additem_np mallocs m a (some f) arg handlep gencountp
          ≡ ret c)
        × (c.status ≡ ok)
        × (c.itemhandle ≡ (if handlep then some p else none))
        × (c.gencount ≡ (if gencountp then some 0 else none))
        × IsAdded m c.manager q (new_witem p (some f) arg)
  unfolding pthread_workqueue_additem_np new_witem
  additem_ok f arg p v sig got = elim (Bool-cases (is_nonzero q.overcommit)) [
    | inl oc ↦
        let (m', effects, call, valid, over, items, _) =
          additem_overcommit v a q (new_witem p (some f) arg) at oc in
        (
          record {
            manager = m';
            effects = effects;
            status = ok;
            itemhandle = if handlep then some p else none;
            gencount = if gencountp then some 0 else none;
          },
          rw (at, sig) (rw (witem_alloc_lem mallocs (some f) arg p got) (rw call refl)),
          refl,
          refl,
          refl,
          record { items = λ i. rw oc (items i); over_items = λ i. rw oc (over i); valid = valid },
        )
    | inr plain ↦
        let (m', call, valid, items, over) =
          additem_normal v a q (new_witem p (some f) arg) at plain in
        (
          record {
            manager = m';
            effects = if ltb 0 m.scoreboard.idle then signal_worker ∷ [] else [];
            status = ok;
            itemhandle = if handlep then some p else none;
            gencount = if gencountp then some 0 else none;
          },
          rw (at, sig) (rw (witem_alloc_lem mallocs (some f) arg p got) (rw call refl)),
          refl,
          refl,
          refl,
          record {
            items = λ i. rw plain (items i);
            over_items = λ i. rw plain (over i);
            valid = valid;
          },
        )
  ]

  -- With a bad signature or no function the call returns EINVAL and changes nothing.
  pub additem_einval :
      (func : Option ℕ) (arg : ℕ)
      → (not (q.sig == workqueue_sig) || is_null func) ≡ true
      → pthread_workqueue_additem_np mallocs m a func arg handlep gencountp
        ≡ ret (record {
          manager = m;
          effects = [];
          status = einval;
          itemhandle = none;
          gencount = none;
        })
  unfolding pthread_workqueue_additem_np
  additem_einval func arg h = ground (arith, at)

  -- While malloc gives no memory the call does not return: ENOMEM is never reported.
  pub additem_waits :
      (f arg : ℕ)
      → q.sig ≡ workqueue_sig
      → first_block mallocs ≡ none
      → pthread_workqueue_additem_np mallocs m a (some f) arg handlep gencountp ≡ waits
  unfolding pthread_workqueue_additem_np
  additem_waits f arg sig starved =
      ground (arith, at, sig, witem_alloc_waits mallocs (some f) arg starved)
