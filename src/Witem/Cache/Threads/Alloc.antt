-- ===== src/Witem/Cache/Threads/Alloc.antt =====
-- One call of witem_alloc in a thread (src/witem_cache.c with WITEM_CACHE_TYPE 3): where the item comes
-- from, and what is written.
use libpwq.Prelude.{
  arith, subst, or_fault, ◌>>=◌, ℕ, ◌≡◌, refl, sym, ap, ◌∙◌, Option, none, some, List, [], ◌∷◌, ret,
  update, update_self, same_result, >>=-eq-ret,
}
use libpwq.Witem.Cache.{Cell, Store, witem_alloc_from_heap, take_witem, witem_alloc}
use libpwq.Witem.Cache.Laws.{IsClean, Chain, Absent, Distinct, IsCache, Chain-update}
use libpwq.Witem.Cache.Threads.{AreNew}

-- Nothing that is not allocated is in a cache.
pub none-Absent :
    (cell : ℕ → Option Cell) (p : ℕ) (next : Option ℕ) (ps : List ℕ)
    → cell p ≡ none
    → Chain cell next ps
    → Absent p ps
none-Absent cell p next [] gone h = tt
none-Absent cell p next (q ∷ qs) gone (at, c, holds, clean, rest) =
    (λ e. cc, none-Absent cell p c.wi_next qs gone rest)

-- What an item comes from: the head of the cache, or malloc while the cache is empty.
pub data Origin (s : Store) (ps : List ℕ) (p : ℕ) (left : List ℕ) : Type 0 where
  cached : ps ≡ p ∷ left → Origin s ps p left
  fresh : ps ≡ [] → left ≡ [] → s.cell p ≡ none → Origin s ps p left

pub record Given (s s' : Store) (ps : List ℕ) (p : ℕ) (func : Option ℕ) (arg : ℕ) : Type 0 where
  pub content : Cell
  pub written : s'.cell ≡ update s.cell p (some content)
  pub clean : IsClean content
  pub has_func : content.func ≡ func
  pub has_arg : content.func_arg ≡ arg
  pub left : List ℕ
  pub origin : Origin s ps p left
  pub chain : Chain s'.cell s'.head left
  pub distinct : Distinct left

-- witem_alloc_from_heap gives a new block, with its fields reset.
record NewBlock (s s' : Store) (p : ℕ) : Type 0 where
  content : Cell
  new : s.cell p ≡ none
  written : s'.cell ≡ update s.cell p (some content)
  head : s'.head ≡ s.head
  clean : IsClean content

from_heap-NewBlock :
    (mallocs : List (Option (ℕ × Cell))) (s : Store) {p : ℕ} {s' : Store}
    → AreNew mallocs s.cell
    → witem_alloc_from_heap mallocs s ≡ ret (p, s')
    → NewBlock s s' p
unfolding witem_alloc_from_heap
from_heap-NewBlock [] s new call = cc
from_heap-NewBlock (none ∷ rest) s new call = from_heap-NewBlock rest s new call
from_heap-NewBlock (some (q, old) ∷ rest) s {p} {s'} (gone, new) call =
    let same : ◌≡◌ {A = ℕ × Store} (q, _) (p, s') = same_result refl call in
    subst (λ (x : ℕ × Store). NewBlock s x.1 x.0) same
      (record {
        content = record old { gencount = 0; flags = 0; stqe_next = none };
        new = gone;
        written = refl;
        head = refl;
        clean = record { no_next = refl; no_flags = refl; no_gencount = refl };
      })

pub from_empty :
    (mallocs : List (Option (ℕ × Cell))) (s : Store)
    → s.head ≡ none
    → take_witem mallocs s ≡ witem_alloc_from_heap mallocs s
unfolding take_witem
from_empty mallocs s e = ground (arith, e)

update_twice :
    (g : ℕ → Option Cell) (p : ℕ) (a b : Option Cell) (r : ℕ)
    → update (update g p a) p b r ≡ update g p b r
update_twice g p a b r = ground arith

pub witem_alloc-Given :
    (mallocs : List (Option (ℕ × Cell))) (func : Option ℕ) (arg : ℕ) (s : Store) (ps : List ℕ)
    {p : ℕ} {s' : Store}
    → IsCache s ps
    → AreNew mallocs s.cell
    → witem_alloc mallocs func arg s ≡ ret (p, s')
    → Given s s' ps p func arg
unfolding witem_alloc take_witem
witem_alloc-Given mallocs func arg s [] {p} {s'} v new call =
    let (x, one, rest) =
      >>=-eq-ret (take_witem mallocs s)
        (λ y. or_fault (y.1.cell y.0) >>= λ c. ret (
          y.0,
          record y.1 {
            cell = update y.1.cell y.0 (some (record c { func = func; func_arg = arg }));
          },
        ))
        call in
    let f = from_heap-NewBlock mallocs s new (sym (from_empty mallocs s v.chain) ∙ one) in
    let there : x.1.cell x.0 ≡ some f.content =
      ap (λ g. g x.0) f.written ∙ update_self s.cell x.0 (some f.content) in
    let content : Cell = record f.content { func = func; func_arg = arg } in
    let stored : ℕ × Store = (x.0, record x.1 { cell = update x.1.cell x.0 (some content) }) in
    let same : stored ≡ (p, s') = same_result (ground (arith, there)) rest in
    subst (λ (y : ℕ × Store). Given s y.1 [] y.0 func arg) same
      (record {
        content = content;
        written =
            ap (λ g. update g x.0 (some content)) f.written
            ∙ (λ i r. update_twice s.cell x.0 (some f.content) (some content) r i);
        clean = record {
          no_next = f.clean.no_next;
          no_flags = f.clean.no_flags;
          no_gencount = f.clean.no_gencount;
        };
        has_func = refl;
        has_arg = refl;
        left = [];
        origin = fresh refl refl f.new;
        chain = f.head ∙ v.chain;
        distinct = tt;
      })
witem_alloc-Given mallocs func arg s (q ∷ qs) {p} {s'} v new call =
    let (at, c, holds, clean, rest) = v.chain in
    let content : Cell = record c { func = func; func_arg = arg } in
    let given : witem_alloc mallocs func arg s
        ≡ ret (q, record { cell = update s.cell q (some content); head = c.wi_next }) =
      ground (arith, at, holds) in
    let same : ◌≡◌ {A = ℕ × Store} (q, _) (p, s') = same_result given call in
    subst (λ (x : ℕ × Store). Given s x.1 (q ∷ qs) x.0 func arg) same
      (record {
        content = content;
        written = refl;
        clean = record {
          no_next = clean.no_next;
          no_flags = clean.no_flags;
          no_gencount = clean.no_gencount;
        };
        has_func = refl;
        has_arg = refl;
        left = qs;
        origin = cached refl;
        chain = Chain-update s.cell q (some content) c.wi_next qs (v.distinct.0) rest;
        distinct = v.distinct.1;
      })
