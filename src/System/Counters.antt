-- ===== src/System/Counters.antt =====
-- The counters `idle`, `count` and `pending_thread_create` of src/posix/manager.c, against the number
-- of workers at each place.
use libpwq.Prelude.{
  ℕ, ◌+◌, ◌%◌, ◌<◌, ◌≤◌, ◌≡◌, true, false, arith, update, sum_over, sum_over-update, sum_over-le,
}
use libpwq.Word.{u32_mod}
use libpwq.Manager.{Manager}
use libpwq.Manager.Invariant.{Inv}
use libpwq.Manager.Pool.{worker_start}
use libpwq.System.{Pc, absent, created, running, Move, locks, holds, is_free}
use libpwq.System.Tally.{Tallied, Move-Tallied}

abbrev pub is_idle : Pc → ℕ
is_idle absent = 0
is_idle (running w) = 0
is_idle _ = 1

abbrev pub is_worker : Pc → ℕ
is_worker absent = 0
is_worker _ = 1

abbrev pub is_created : Pc → ℕ
is_created created = 1
is_created _ = 0

pub record Counted (n failed : ℕ) (m : Manager) (pc : ℕ → Pc) : Type 0 where
  pub few : n < u32_mod
  pub idle : m.scoreboard.idle ≡ sum_over is_idle n pc
  pub count : m.scoreboard.count ≡ sum_over is_worker n pc
  pub pending : m.pending_thread_create ≡ (sum_over is_created n pc + failed) % u32_mod
  pub one : sum_over holds n pc ≤ 1

small : (p : Pc) → (is_idle p ≤ 1) × (is_worker p ≤ 1) × (is_created p ≤ 1) × (holds p ≤ 1)
small p = (ground arith, ground arith, ground arith, ground arith)

module _ {n failed : ℕ} {m : Manager} {pc : ℕ → Pc} (c : Counted n failed m pc) (i : ℕ)
    (lt : i < n) where
  -- Worker `i` goes from `p` to `p'`.
  record Mover (p p' : Pc) : Type 0 where
    idle : sum_over is_idle n (update pc i p') + is_idle p ≡ sum_over is_idle n pc + is_idle p'
    count :
        sum_over is_worker n (update pc i p') + is_worker p ≡ sum_over is_worker n pc + is_worker p'
    pending :
        sum_over is_created n (update pc i p') + is_created p
        ≡ sum_over is_created n pc + is_created p'
    holders : sum_over holds n (update pc i p') + holds p ≡ sum_over holds n pc + holds p'
    idle_le : sum_over is_idle n (update pc i p') ≤ n
    count_le : sum_over is_worker n (update pc i p') ≤ n

  mover : (p' : Pc) → Mover (pc i) p'
  mover p' = record {
    idle = sum_over-update is_idle n pc i p' lt;
    count = sum_over-update is_worker n pc i p' lt;
    pending = sum_over-update is_created n pc i p' lt;
    holders = sum_over-update holds n pc i p' lt;
    idle_le = sum_over-le is_idle (λ p. (small p).0) n (update pc i p');
    count_le = sum_over-le is_worker (λ p. (small p).1) n (update pc i p');
  }

  counted :
      {p p' : Pc} {m' : Manager}
      → Move m (is_free n pc) p m' p'
      → Tallied m m' p p'
      → Mover p p'
      → Counted n failed m' (update pc i p')
  counted (locks free) t f = record {
    few = c.few;
    idle = ground (arith, c.idle, t.idle, f.idle, f.idle_le, c.few);
    count = ground (arith, c.count, t.count, f.count, f.count_le, c.few);
    pending = ground (arith, c.pending, t.pending, f.pending);
    one = ground (arith, c.one, f.holders, free);
  }
  counted mv t f = record {
    few = c.few;
    idle = ground (arith, c.idle, t.idle, f.idle, f.idle_le, c.few);
    count = ground (arith, c.count, t.count, f.count, f.count_le, c.few);
    pending = ground (arith, c.pending, t.pending, f.pending);
    one = ground (arith, c.one, f.holders);
  }

  pub Move-Counted :
      {p' : Pc} {m' : Manager}
      → Inv m
      → Move m (is_free n pc) (pc i) m' p'
      → Counted n failed m' (update pc i p')
  Move-Counted {p'} v mv = counted mv (Move-Tallied v mv) (mover p')

  pub start-Counted : pc i ≡ absent → Counted n failed (worker_start true m).0 (update pc i created)
  unfolding worker_start
  start-Counted none_here =
      let f = mover created in
      record {
        few = c.few;
        idle = ground (arith, none_here, c.idle, f.idle, f.idle_le, c.few);
        count = ground (arith, none_here, c.count, f.count, f.count_le, c.few);
        pending = ground (arith, none_here, c.pending, f.pending);
        one = ground (arith, none_here, c.one, f.holders);
      }

-- A failed pthread_create leaves `idle` and `count` as they were.
pub fail-Counted :
    {n failed : ℕ} {m : Manager} {pc : ℕ → Pc}
    → Counted n failed m pc
    → Counted n (failed + 1) (worker_start false m).0 pc
unfolding worker_start
fail-Counted {n} {failed} {m} {pc} c =
    let le = sum_over-le is_idle (λ p. (small p).0) n pc in
    let le' = sum_over-le is_worker (λ p. (small p).1) n pc in
    record {
      few = c.few;
      idle = omega (arith, c.idle, le, c.few);
      count = omega (arith, c.count, le', c.few);
      pending = omega (arith, c.pending);
      one = c.one;
    }
