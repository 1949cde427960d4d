-- ===== src/Linux/Threads/Laws.antt =====
-- threads_runnable of src/linux/thread_info.c and the directory /proc/self/task.
use libpwq.Prelude.{
  ℕ, ◌+◌, ◌<◌, ◌≤◌, ◌≡◌, refl, ap, ◌∙◌, some, List, [], ◌∷◌, ◌++◌, Bool, true, false, ◌==◌, ◌&&◌,
  if◌then◌else◌, length, arith,
}
use libpwq.Word.{u32_mod}
use libpwq.Linux.{is_digit, is_space}
use libpwq.Linux.Threads.{
  File, read_file, stat_path, is_word, drop_while, drop_sign, is_ok, count_state, scan_stat,
  count_thread, count_threads, threads_runnable,
}

unfoldable pub all : (ℕ → Bool) → List ℕ → Bool
all p [] = true
all p (c ∷ rest) = p c && all p rest

drop_while-append :
    (p : ℕ → Bool) (xs : List ℕ) (c : ℕ) (rest : List ℕ)
    → all p xs ≡ true
    → p c ≡ false
    → drop_while p (xs ++ c ∷ rest) ≡ c ∷ rest
unfolding all drop_while
drop_while-append p [] c rest every stop = rw stop refl
drop_while-append p (x ∷ xs) c rest every stop =
    ground (arith, every, drop_while-append p xs c rest, stop)

-- A thread as the kernel shows it: "pid (comm) state ...". Number and name are not empty.
pub record Thread : Type 0 where
  pub digit : ℕ
  pub digits : List ℕ
  pub letter : ℕ
  pub letters : List ℕ
  pub state : ℕ
  pub more : List ℕ

-- The number is of decimal digits, and the name has no blanks.
pub record IsThread (t : Thread) : Type 0 where
  pub number : all is_digit (t.digit ∷ t.digits) ≡ true
  pub plain : all is_word (t.letter ∷ t.letters) ≡ true
  pub shown : is_word t.state ≡ true

abbrev pub stat_of : Thread → List ℕ
stat_of t = (t.digit ∷ t.digits) ++ 32 ∷ ((t.letter ∷ t.letters) ++ 32 ∷ (t.state ∷ t.more))

after_blank :
    (c : ℕ) (rest : List ℕ) → is_space c ≡ false → drop_while is_space (32 ∷ (c ∷ rest)) ≡ c ∷ rest
unfolding drop_while
after_blank c rest e = rw (drop_while, e) refl

-- What follows a run of characters of one kind, one blank, and the next word.
next_word :
    (p : ℕ → Bool) (xs : List ℕ) (c : ℕ) (rest : List ℕ)
    → all p xs ≡ true
    → p 32 ≡ false
    → is_space c ≡ false
    → drop_while is_space (drop_while p (xs ++ 32 ∷ (c ∷ rest))) ≡ c ∷ rest
next_word p xs c rest every stop plain =
    ap (drop_while is_space) (drop_while-append p xs 32 (c ∷ rest) every stop)
    ∙ after_blank c rest plain

-- The number at the start is read where it stands.
starts_there :
    (d : ℕ) (rest : List ℕ)
    → is_digit d ≡ true
    → drop_sign (drop_while is_space (d ∷ rest)) ≡ d ∷ rest
unfolding drop_while
starts_there d rest digit = ground (arith, digit)

scan_line :
    (d : ℕ) (ds : List ℕ) (c : ℕ) (cs : List ℕ) (state : ℕ) (more : List ℕ)
    → all is_digit (d ∷ ds) ≡ true
    → all is_word (c ∷ cs) ≡ true
    → is_word state ≡ true
    → scan_stat ((d ∷ ds) ++ 32 ∷ ((c ∷ cs) ++ 32 ∷ (state ∷ more))) ≡ some state
unfolding scan_stat all
scan_line d ds c cs state more digits words shown =
    let after = (c ∷ cs) ++ 32 ∷ (state ∷ more) in
    let here = starts_there d (ds ++ 32 ∷ after) (ground (arith, digits)) in
    let word =
      next_word is_digit (d ∷ ds) c (cs ++ 32 ∷ (state ∷ more)) digits refl
        (ground (arith, words)) in
    let last = next_word is_word (c ∷ cs) state more words refl (ground (arith, shown)) in
    rw (scan_stat, here, word, last) (ground (arith, digits, words, shown))

abbrev pub file_of : Thread → File
file_of t = record { opens = true; nonblocking = true; bytes = some (stat_of t) }

counts_one :
    (t : Thread) (counts : ℕ × ℕ)
    → IsThread t
    → count_thread (file_of t) counts ≡ count_state (some t.state) counts
unfolding count_thread read_file
counts_one t counts v =
    let read =
      scan_line t.digit t.digits t.letter t.letters t.state t.more v.number v.plain v.shown in
    rw (count_thread, read_file, read) refl

counts_none :
    (file : File) (counts : ℕ × ℕ)
    → is_ok ((read_file file []).0) ≡ false
    → count_thread file counts ≡ counts
unfolding count_thread
counts_none file counts e = rw (count_thread, e) refl

-- What the directory shows: each name stands for a thread, or its file cannot be read.
pub data Listing (files : List ℕ → File) : List (List ℕ) → List Thread → Type 0 where
  ends : Listing files [] []
  shows :
      {name : List ℕ} {names : List (List ℕ)} {t : Thread} {ts : List Thread}
      → files (stat_path name) ≡ file_of t
      → IsThread t
      → Listing files names ts
      → Listing files (name ∷ names) (t ∷ ts)
  hides :
      {name : List ℕ} {names : List (List ℕ)} {ts : List Thread}
      → is_ok ((read_file (files (stat_path name)) []).0) ≡ false
      → Listing files names ts
      → Listing files (name ∷ names) ts

unfoldable pub running : List Thread → ℕ
running [] = 0
running (t ∷ ts) = (if t.state == 82 then 1 else 0) + running ts

running-le : (ts : List Thread) → running ts ≤ length ts
unfolding running
running-le [] = omega arith
running-le (t ∷ ts) = ground (arith, running-le ts)

counts_all :
    {files : List ℕ → File} {names : List (List ℕ)} {ts : List Thread}
    → Listing files names ts
    → (r n : ℕ) → r + running ts < u32_mod
    → n + length ts < u32_mod
    → count_threads files names (r, n) ≡ (r + running ts, n + length ts)
unfolding count_threads running
counts_all ends r n fits fits' = ground arith
counts_all {files} (shows {name} {names} {t} {ts} e v rest) r n fits fits' =
    let more : ℕ = if t.state == 82 then 1 else 0 in
    let one : count_thread (files (stat_path name)) (r, n) ≡ (r + more, n + 1) =
      ap (λ f. count_thread f (r, n)) e ∙ counts_one t (r, n) v ∙ ground (arith, fits, fits') in
    let later = counts_all rest (r + more) (n + 1) (omega (arith, fits)) (omega (arith, fits')) in
    ap (count_threads files names) one ∙ later ∙ ground arith
counts_all {files} (hides {name} {names} e rest) r n fits fits' =
    let same = counts_none (files (stat_path name)) (r, n) e in
    ap (count_threads files names) same ∙ counts_all rest r n fits fits'

-- If the directory shows threads, then threads_runnable gives how many of them are in the state 'R'
-- and how many there are, where the names whose file cannot be read count for nothing. A thread is
-- shown by a file "pid (comm) state ..." with a decimal number and a name with no blanks.
pub threads_runnable_counts :
    {files : List ℕ → File} {names : List (List ℕ)} {ts : List Thread}
    → Listing files names ts
    → length ts < u32_mod
    → threads_runnable files (some names) ≡ some (running ts, length ts)
unfolding threads_runnable
threads_runnable_counts {ts = ts} shown fits =
    ap some (
      counts_all shown 0 0 (omega (arith, running-le ts, fits)) (omega (arith, fits))
      ∙ ground arith)
