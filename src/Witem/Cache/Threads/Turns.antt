-- ===== src/Witem/Cache/Threads/Turns.antt =====
-- Each step of a thread on its cache (witem_alloc, witem_free and witem_cache_cleanup of
-- src/witem_cache.c with WITEM_CACHE_TYPE 3), and the states that the steps lead to.
use native.Mathlib.Decide.{ℕ_discrete}
use libpwq.Prelude.{
  ℕ, ◌≡◌, ◌≢◌, refl, sym, subst, ◌∙◌, Option, none, some, List, [], ◌∷◌, true, false, ret, update,
  update_ne, update_self, inl, inr, same_result,
}
use libpwq.Witem.Cache.{Cell, Store, witem_free}
use libpwq.Witem.Cache.Laws.{Chain, Absent, Distinct, Chain-update}
use libpwq.Witem.Cache.Threads.{Caches, store_of, Step, allocs, frees, leaves, Reach, start, later}
use libpwq.Witem.Cache.Threads.Alloc.{none-Absent, Origin, cached, fresh, Given, witem_alloc-Given}
use libpwq.Witem.Cache.Threads.Exit.{cleanup_keeps, Chain-congr}
use libpwq.Witem.Cache.Threads.Safety.{CachesInv, thread-IsCache, changed-CachesInv, update_at}

-- The item that witem_alloc gives was in no other cache, and the rest of the cache stays.
pub origin_away :
    {h : Caches} (v : CachesInv h) (t p : ℕ) {left : List ℕ}
    → Origin (store_of h t) (v.lists t) p left
    → (u : ℕ) → t ≢ u
    → Absent p (v.lists u)
origin_away {h} v t p (cached e) u ne = elim (v.apart t u ne p) [
  | inl here ↦ absurd ((subst (Absent p) e here).0 refl)
  | inr away ↦ away
]
origin_away {h} v t p (fresh e e' gone) u ne =
    none-Absent h.cell p (h.head u) (v.lists u) gone (v.chain u)

origin_less :
    {s : Store} {ps : List ℕ} (p : ℕ) {left : List ℕ}
    → Origin s ps p left
    → (q : ℕ) → Absent q ps
    → Absent q left
origin_less p (cached e) q away = (subst (Absent q) e away).1
origin_less p (fresh e e' gone) q away = subst (Absent q) (sym e') tt

origin_free :
    {s : Store} {ps : List ℕ} (p : ℕ) {left : List ℕ}
    → Origin s ps p left
    → Distinct ps
    → Absent p left
origin_free p (cached e) d = (subst Distinct e d).0
origin_free p (fresh e e' gone) d = subst (Absent p) (sym e') tt

pub allocs-CachesInv :
    {h : Caches} (v : CachesInv h) (t p : ℕ) {s : Store} {func : Option ℕ} {arg : ℕ}
    → Given (store_of h t) s (v.lists t) p func arg
    → CachesInv
        (record { cell = s.cell; head = update h.head t s.head; used = update h.used p true })
allocs-CachesInv {h} v t p {s} g =
    subst
      (λ (m : ℕ → Option Cell).
        CachesInv (record { cell = m; head = update h.head t s.head; used = update h.used p true }))
      (sym g.written)
      (changed-CachesInv v t p g.content true s.head g.left (origin_away v t p g.origin)
        (subst (λ (m : ℕ → Option Cell). Chain m s.head g.left) g.written g.chain) g.distinct
        (λ q ne away. origin_less p g.origin q away) (λ e. origin_free p g.origin (v.distinct t)))

-- The item that comes back becomes the head of the cache of the thread that frees it, whichever
-- thread had it from witem_alloc.
frees-CachesInv :
    {h : Caches} (v : CachesInv h) (t p : ℕ) {s : Store}
    → h.used p ≡ true
    → witem_free p (store_of h t) ≡ ret s
    → CachesInv
        (record { cell = s.cell; head = update h.head t s.head; used = update h.used p false })
unfolding witem_free
frees-CachesInv {h} v t p {s} used call =
    let (c, there) = v.stored p used in
    let freed : Cell = record {
      stqe_next = none;
      func = none;
      func_arg = 0;
      flags = 0;
      gencount = 0;
      wi_next = h.head t;
    } in
    let next : Store = record { cell = update h.cell p (some freed); head = some p } in
    let given : witem_free p (store_of h t) ≡ ret next = rw there refl in
    let away = v.spare p used in
    subst
      (λ (x : Store).
        CachesInv
          (record { cell = x.cell; head = update h.head t x.head; used = update h.used p false }))
      (same_result given call)
      (changed-CachesInv v t p freed false (some p) (p ∷ v.lists t) (λ u ne. away u)
        (
          refl,
          freed,
          update_self h.cell p (some freed),
          record { no_next = refl; no_flags = refl; no_gencount = refl },
          Chain-update h.cell p (some freed) (h.head t) (v.lists t) (away t) (v.chain t),
        )
        (away t, v.distinct t) (λ q ne gone. (λ e. ne (sym e), gone)) (λ e. cc))

-- What a thread that exits gives back is in no other cache, and not in use.
module _ {h : Caches} (v : CachesInv h) (t : ℕ) (cell' : ℕ → Option Cell)
    (keeps : (q : ℕ) → Absent q (v.lists t) → cell' q ≡ h.cell q) where
  lists' : ℕ → List ℕ
  lists' = update v.lists t []

  chains : (u : ℕ) → Chain cell' (update h.head t none u) (lists' u)
  unfolding lists'
  chains u = elim (ℕ_discrete t u) [
    | yes e ↦ rw (update_at h.head t u none e, update_at v.lists t u [] e) refl
    | no ne ↦
        rw (update_ne h.head t u none ne, update_ne v.lists t u [] ne)
          (Chain-congr h.cell cell' (h.head u) (v.lists u) (v.lists t) keeps
            (v.apart u t (λ e. ne (sym e))) (v.chain u))
  ]

  fewer : (u q : ℕ) → Absent q (v.lists u) → Absent q (lists' u)
  unfolding lists'
  fewer u q away = elim (ℕ_discrete t u) [
    | yes e ↦ rw (update_at v.lists t u [] e) tt
    | no ne ↦ rw (update_ne v.lists t u [] ne) away
  ]

  singles : (u : ℕ) → Distinct (lists' u)
  unfolding lists'
  singles u = elim (ℕ_discrete t u) [
    | yes e ↦ rw (update_at v.lists t u [] e) tt
    | no ne ↦ rw (update_ne v.lists t u [] ne) (v.distinct u)
  ]

  leaves-CachesInv : CachesInv (record h { cell = cell'; head = update h.head t none })
  leaves-CachesInv = record {
    lists = lists';
    chain = chains;
    distinct = singles;
    apart = λ s u ne q. elim (v.apart s u ne q) [
      | inl a ↦ inl (fewer s q a)
      | inr a ↦ inr (fewer u q a)
    ];
    spare = λ q used u. fewer u q (v.spare q used u);
    stored = λ q used. ((v.stored q used).0, keeps q (v.spare q used t) ∙ (v.stored q used).1);
  }

Step-CachesInv : {h k : Caches} → CachesInv h → Step h k → CachesInv k
Step-CachesInv {h} v (allocs t mallocs func arg {p} {s} new call) =
    allocs-CachesInv v t p
      (witem_alloc-Given mallocs func arg (store_of h t) (v.lists t) (thread-IsCache v t) new call)
Step-CachesInv v (frees t p used call) = frees-CachesInv v t p used call
Step-CachesInv {h} v (leaves t rounds {cell'} call) = leaves-CachesInv v t cell' (λ q away.
    cleanup_keeps rounds (v.lists t) (h.head t) h.cell q (v.distinct t) (v.chain t) call away)

pub Reach-CachesInv : {h : Caches} → Reach h → CachesInv h
Reach-CachesInv start = record {
  lists = λ t. [];
  chain = λ t. refl;
  distinct = λ t. tt;
  apart = λ t u ne q. inl tt;
  spare = λ q used t. tt;
  stored = λ q used. cc;
}
Reach-CachesInv (later r s) = Step-CachesInv (Reach-CachesInv r) s
