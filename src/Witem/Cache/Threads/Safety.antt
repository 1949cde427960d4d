-- ===== src/Witem/Cache/Threads/Safety.antt =====
-- Who has an item, when several threads have caches of their own (src/witem_cache.c with
-- WITEM_CACHE_TYPE 3).
use native.Mathlib.Decide.{ℕ_discrete}
use libpwq.Prelude.{
  ℕ, ◌≡◌, ◌≢◌, sym, ap, subst, ◌∙◌, Option, some, List, Bool, true, update, update_ne, update_self,
  ◌⊎◌, inl, inr,
}
use libpwq.Witem.Cache.{Cell}
use libpwq.Witem.Cache.Laws.{Chain, Absent, Distinct, IsCache, Chain-update}
use libpwq.Witem.Cache.Threads.{Caches, store_of}

-- The caches are lists of their own, and an item that is in use is in none of them.
pub record CachesInv (h : Caches) : Type 0 where
  pub lists : ℕ → List ℕ
  pub chain : (t : ℕ) → Chain h.cell (h.head t) (lists t)
  pub distinct : (t : ℕ) → Distinct (lists t)
  pub apart : (t u : ℕ) → t ≢ u → (q : ℕ) → Absent q (lists t) ⊎ Absent q (lists u)
  pub spare : (q : ℕ) → h.used q ≡ true → (t : ℕ) → Absent q (lists t)
  pub stored : (q : ℕ) → h.used q ≡ true → (c : Cell) × (h.cell q ≡ some c)

pub thread-IsCache : {h : Caches} (v : CachesInv h) (t : ℕ) → IsCache (store_of h t) (v.lists t)
thread-IsCache v t = record { chain = v.chain t; distinct = v.distinct t }

pub update_at {ℓ} : {A : Type ℓ} (f : ℕ → A) (t u : ℕ) (a : A) → t ≡ u → update f t a u ≡ a
update_at f t u a e = ap (update f t a) (sym e) ∙ update_self f t a

-- A thread's list becomes `xs`, with a write to the item at `p`.
module _ {h : Caches} (v : CachesInv h) (t p : ℕ) (content : Cell) (b : Bool) (head' : Option ℕ)
    (xs : List ℕ) (away : (u : ℕ) → t ≢ u → Absent p (v.lists u))
    (links : Chain (update h.cell p (some content)) head' xs) (single : Distinct xs)
    (less : (q : ℕ) → p ≢ q → Absent q (v.lists t) → Absent q xs)
    (free : b ≡ true → Absent p xs) where
  lists' : ℕ → List ℕ
  lists' = update v.lists t xs

  chains : (u : ℕ) → Chain (update h.cell p (some content)) (update h.head t head' u) (lists' u)
  unfolding lists'
  chains u = elim (ℕ_discrete t u) [
    | yes e ↦ rw (update_at h.head t u head' e, update_at v.lists t u xs e) links
    | no ne ↦
        rw (update_ne h.head t u head' ne, update_ne v.lists t u xs ne)
          (Chain-update h.cell p (some content) (h.head u) (v.lists u) (away u ne) (v.chain u))
  ]

  singles : (u : ℕ) → Distinct (lists' u)
  unfolding lists'
  singles u = elim (ℕ_discrete t u) [
    | yes e ↦ rw (update_at v.lists t u xs e) single
    | no ne ↦ rw (update_ne v.lists t u xs ne) (v.distinct u)
  ]

  one_apart : (u : ℕ) → t ≢ u → (q : ℕ) → Absent q xs ⊎ Absent q (v.lists u)
  one_apart u ne q = elim (ℕ_discrete p q) [
    | yes e ↦ inr (subst (λ r. Absent r (v.lists u)) e (away u ne))
    | no other ↦ elim (v.apart t u ne q) [ inl a ↦ inl (less q other a) | inr a ↦ inr a ]
  ]

  all_apart : (s u : ℕ) → s ≢ u → (q : ℕ) → Absent q (lists' s) ⊎ Absent q (lists' u)
  unfolding lists'
  all_apart s u ne q = elim (ℕ_discrete t s) [
    | yes e ↦
        let t_ne : t ≢ u = λ e'. ne (sym e ∙ e') in
        rw (update_at v.lists t s xs e, update_ne v.lists t u xs t_ne) (one_apart u t_ne q)
    | no s_ne ↦ elim (ℕ_discrete t u) [
      | yes e ↦
          rw (update_ne v.lists t s xs s_ne, update_at v.lists t u xs e)
            (elim (one_apart s s_ne q) [ inl a ↦ inr a | inr a ↦ inl a ])
      | no u_ne ↦
          rw (update_ne v.lists t s xs s_ne, update_ne v.lists t u xs u_ne) (v.apart s u ne q)
    ]
  ]

  all_spare : (q : ℕ) → update h.used p b q ≡ true → (u : ℕ) → Absent q (lists' u)
  unfolding lists'
  all_spare q used u = elim (ℕ_discrete p q) [
    | yes e ↦
        let busy : b ≡ true = sym (update_at h.used p q b e) ∙ used in
        subst (λ r. Absent r (update v.lists t xs u)) e
          (elim (ℕ_discrete t u) [
            | yes here ↦ rw (update_at v.lists t u xs here) (free busy)
            | no ne ↦ rw (update_ne v.lists t u xs ne) (away u ne)
          ])
    | no other ↦
        let old : h.used q ≡ true = sym (update_ne h.used p q b other) ∙ used in
        elim (ℕ_discrete t u) [
          | yes here ↦ rw (update_at v.lists t u xs here) (less q other (v.spare q old t))
          | no ne ↦ rw (update_ne v.lists t u xs ne) (v.spare q old u)
        ]
  ]

  all_stored :
      (q : ℕ)
      → update h.used p b q ≡ true
      → (c : Cell) × (update h.cell p (some content) q ≡ some c)
  all_stored q used = elim (ℕ_discrete p q) [
    | yes e ↦ (content, update_at h.cell p q (some content) e)
    | no other ↦
        let (c, there) = v.stored q (sym (update_ne h.used p q b other) ∙ used) in
        (c, update_ne h.cell p q (some content) other ∙ there)
  ]

  pub changed-CachesInv : CachesInv (record {
    cell = update h.cell p (some content);
    head = update h.head t head';
    used = update h.used p b;
  })
  changed-CachesInv = record {
    lists = lists';
    chain = chains;
    distinct = singles;
    apart = all_apart;
    spare = all_spare;
    stored = all_stored;
  }
