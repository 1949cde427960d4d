-- ===== src/Manager/Init/Laws.antt =====
-- The state after initialisation, and the thread limits.
use libpwq.Prelude.{
  ℕ, ◌<◌, ◌≡◌, ◌≢◌, ◌↔◌, refl, ◌∙◌, none, List, [], Bool, true, false, get_elem?,
  get_elem?-replicate, inl, inr, Option-cases, Bool-cases, arith,
}
use libpwq.Word.Bits.{bit-zero}
use libpwq.Workqueue.{Workqueue, workqueue_max, slot}
use libpwq.Manager.Invariant.{TableInv, Inv}
use libpwq.Manager.Init.{
  Surroundings, worker_idle_threshold_per_cpu, manager_init, empty_table, unset,
}

pub slot-empty_table : (i : ℕ) → slot empty_table i ≡ none
slot-empty_table i = elim (Option-cases (get_elem? empty_table i)) [
  | inl e ↦ rw e refl
  | inr (o, e) ↦ rw e (get_elem?-replicate workqueue_max i none e)
]

pub empty_table-TableInv : (oc : Bool) (heap : List Workqueue) → TableInv oc heap empty_table 0
empty_table-TableInv oc heap = record {
  sized = refl;
  entry = λ i a s. cc (slot-empty_table i);
  pending = λ i h. bit-zero i ∙ rw (slot-empty_table i) refl;
}

-- Whatever the environment says, the tables and masks agree after initialisation.
pub manager_init-Inv : (e : Surroundings) → Inv (manager_init e unset).0
unfolding manager_init
manager_init-Inv e = elim (Bool-cases e.sem_init) [
  | inl done ↦ rw done (record {
    normal = empty_table-TableInv false [];
    over = empty_table-TableInv true [];
    registered = λ a q at. cc;
  })
  | inr failed ↦ rw failed (record {
    normal = empty_table-TableInv false [];
    over = empty_table-TableInv true [];
    registered = λ a q at. cc;
  })
]

-- The threshold is 0 on a machine with three processors, and on no other.
pub threshold_pos : (cpus : ℕ) → (0 < worker_idle_threshold_per_cpu cpus) ↔ (cpus ≢ 3)
unfolding worker_idle_threshold_per_cpu
threshold_pos cpus = (λ h e. ground (arith, h, e), λ h. ground (arith, h))
