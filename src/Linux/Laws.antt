-- ===== src/Linux/Laws.antt =====
-- What the reading of /proc/stat gives.
use libpwq.Prelude.{
  ℕ, ◌+◌, ◌*◌, ◌<◌, ◌≡◌, refl, Option, none, some, List, [], ◌∷◌, ◌++◌, ◌==◌, ==_refl,
  if◌then◌else◌, arith,
}
use libpwq.Word.{u32_mod}
use libpwq.Linux.{
  digits_from, atoi, after_prefix, after_word, procs_running, drop_one, linux_get_runqueue_length,
}

-- A number in decimal digits, most significant digit first, and the number that they mean.
abbrev pub AreDigits : List ℕ → Type 0
AreDigits [] = Unit {0}
AreDigits (d ∷ ds) = (d < 10) × AreDigits ds

unfoldable pub to_number : ℕ → List ℕ → ℕ
to_number n [] = n
to_number n (d ∷ ds) = to_number (n * 10 + d) ds

unfoldable pub to_text : List ℕ → List ℕ
to_text [] = []
to_text (d ∷ ds) = (d + 48) ∷ to_text ds

digits_from-to_text :
    (n : ℕ) (ds rest : List ℕ)
    → AreDigits ds
    → digits_from n (to_text ds ++ 10 ∷ rest) ≡ to_number n ds
unfolding digits_from to_text to_number
digits_from-to_text n [] rest h = refl
digits_from-to_text n (d ∷ ds) rest (small, h) =
    let later = digits_from-to_text (n * 10 + d) ds rest h in ground (arith, small, later)

after_prefix_self : (word text : List ℕ) → after_prefix word (word ++ text) ≡ some text
unfolding after_prefix
after_prefix_self [] text = refl
after_prefix_self (c ∷ word) text = rw (==_refl c) (after_prefix_self word text)

-- In `before ++ text` the word stands at no place before `text`.
abbrev pub IsFirst : List ℕ → List ℕ → List ℕ → Type 0
IsFirst word [] text = Unit {0}
IsFirst word (d ∷ before) text =
    (after_prefix word (d ∷ (before ++ text)) ≡ none) × IsFirst word before text

after_word-first :
    (c : ℕ) (word before text : List ℕ)
    → IsFirst (c ∷ word) before ((c ∷ word) ++ text)
    → after_word (c ∷ word) (before ++ ((c ∷ word) ++ text)) ≡ some text
unfolding after_word
after_word-first c word [] text h =
    let here : after_prefix (c ∷ word) (c ∷ (word ++ text)) ≡ some text =
      after_prefix_self (c ∷ word) text in
    rw (after_word, here) refl
after_word-first c word (d ∷ before) text (not_here, h) =
    let later = after_word-first c word before text h in rw (after_word, not_here) later

atoi-to_text :
    (d : ℕ) (ds rest : List ℕ)
    → AreDigits (d ∷ ds)
    → atoi (to_text (d ∷ ds) ++ 10 ∷ rest) ≡ to_number 0 (d ∷ ds)
unfolding atoi to_text
atoi-to_text d ds rest (small, h) =
    let read = digits_from-to_text 0 (d ∷ ds) rest (small, h) in ground (arith, small, read)

-- The text of /proc/stat with a line "procs_running N".
abbrev pub stat_text : List ℕ → List ℕ → List ℕ → List ℕ
stat_text before ds rest = before ++ (procs_running ++ 32 ∷ (to_text ds ++ 10 ∷ rest))

-- If /proc/stat has the line "procs_running N", for an N in decimal digits that fits 32 bits, and
-- the word stands nowhere before, the run queue length is N, but 1 where N is 0.
pub runqueue_length_lem :
    (before : List ℕ) (d : ℕ) (ds rest : List ℕ)
    → AreDigits (d ∷ ds)
    → to_number 0 (d ∷ ds) < u32_mod
    → IsFirst procs_running before (procs_running ++ 32 ∷ (to_text (d ∷ ds) ++ 10 ∷ rest))
    → linux_get_runqueue_length (some (stat_text before (d ∷ ds) rest))
      ≡ (if to_number 0 (d ∷ ds) == 0 then 1 else to_number 0 (d ∷ ds))
unfolding linux_get_runqueue_length
runqueue_length_lem before d ds rest digits fits first =
    let line : List ℕ = 32 ∷ (to_text (d ∷ ds) ++ 10 ∷ rest) in
    let found : after_word procs_running (stat_text before (d ∷ ds) rest) ≡ some line =
      after_word-first 112 (drop_one procs_running) before line first in
    let read = atoi-to_text d ds rest digits in rw (found, read) (ground (arith, fits))

-- Whatever /proc/stat holds, and if it cannot be read, the run queue length is not 0.
pub runqueue_length_pos : (stat : Option (List ℕ)) → 0 < linux_get_runqueue_length stat
unfolding linux_get_runqueue_length
runqueue_length_pos none = omega arith
runqueue_length_pos (some stat) = ground arith
