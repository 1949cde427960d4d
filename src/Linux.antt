-- ===== src/Linux.antt =====
-- src/linux/load.c: the length of the run queue, from /proc/stat. A file is a list of bytes.
pub mod Laws
pub mod Threads
use libpwq.Prelude.{
  ℕ, ◌+◌, ◌-◌, ◌*◌, ◌%◌, Option, none, some, List, [], ◌∷◌, Bool, ◌==◌, ◌&&◌, ◌||◌, leb,
  if◌then◌else◌,
}
use libpwq.Word.{u32_mod}

abbrev pub is_digit : ℕ → Bool
is_digit c = leb 48 c && leb c 57

-- The characters that isspace accepts.
abbrev pub is_space : ℕ → Bool
is_space c = (c == 32) || (leb 9 c && leb c 13)

-- atoi of the C library on an unsigned number: blanks, then digits.
unfoldable pub digits_from : ℕ → List ℕ → ℕ
digits_from n [] = n
digits_from n (c ∷ rest) =
    let later = digits_from (n * 10 + (c - 48)) rest in if is_digit c then later else n

unfoldable pub atoi : List ℕ → ℕ
unfolding digits_from
atoi [] = 0
atoi (c ∷ rest) = let later = atoi rest in if is_space c then later else digits_from 0 (c ∷ rest)

-- What follows a prefix of the text, and what follows the first place of a word in it (strstr, and
-- the addition of the length of the word).
unfoldable pub after_prefix : List ℕ → List ℕ → Option (List ℕ)
after_prefix [] text = some text
after_prefix (c ∷ word) [] = none
after_prefix (c ∷ word) (d ∷ text) =
    let rest = after_prefix word text in if c == d then rest else none

unfoldable pub after_word : List ℕ → List ℕ → Option (List ℕ)
unfolding after_prefix
after_word word [] = after_prefix word []
after_word word (d ∷ text) =
    let later = after_word word text in
    elim (after_prefix word (d ∷ text)) [ some rest ↦ some rest | none ↦ later ]

-- "procs_running"
abbrev pub procs_running : List ℕ
procs_running = 112 ∷ 114 ∷ 111 ∷ 99 ∷ 115 ∷ 95 ∷ 114 ∷ 117 ∷ 110 ∷ 110 ∷ 105 ∷ 110 ∷ 103 ∷ []

-- The byte after the word is skipped too: `atoi(p + 14)`.
abbrev pub drop_one : List ℕ → List ℕ
drop_one [] = []
drop_one (c ∷ rest) = rest

-- `stat` is what open and read give of /proc/stat, at most 16383 bytes; `none` where one of them
-- fails. The buffer is taken to end with a NUL after these bytes.
unfoldable pub linux_get_runqueue_length : Option (List ℕ) → ℕ
unfolding atoi after_word
linux_get_runqueue_length none = 1
linux_get_runqueue_length (some stat) =
    let found : ℕ = elim (after_word procs_running stat) [
      | none ↦ 0
      | some rest ↦ atoi (drop_one rest) % u32_mod
    ] in
    if found == 0 then 1 else found
