-- ===== src/Linux/Threads.antt =====
-- src/linux/thread_info.c: the threads of the process in /proc/self/task, and the processors that it
-- may use. A file, a path and the name of a file are lists of bytes.
pub mod Laws
use libpwq.Prelude.{
  ℕ, ℤ, pos, negsuc, ◌+◌, ◌∷◌, ◌++◌, Option, none, some, List, [], Bool, false, not, ◌==◌, ◌&&◌,
  ◌||◌, if◌then◌else◌,
}
use libpwq.Word.{inc32}
use libpwq.Linux.{is_digit, is_space}

-- What the calls on a file give: open, fcntl, and read with at most 4096 bytes, `none` for -1.
pub record File : Type 0 where
  pub opens : Bool
  pub nonblocking : Bool
  pub bytes : Option (List ℕ)

-- The return value, and the text in the buffer, which was `result` before.
unfoldable pub read_file : File → List ℕ → ℤ × List ℕ
read_file file result =
    if not file.opens || not file.nonblocking then (negsuc 0, result) else elim file.bytes [
      | none ↦ (pos 0, result)
      | some [] ↦ (negsuc 0, result)
      | some (c ∷ rest) ↦ (pos 0, c ∷ rest)
    ]

-- "/proc/self/task"
abbrev pub task_path : List ℕ
task_path = 47 ∷ 112 ∷ 114 ∷ 111 ∷ 99 ∷ 47 ∷ 115 ∷ 101 ∷ 108 ∷ 102 ∷ 47 ∷ 116 ∷ 97 ∷ 115 ∷ 107 ∷ []

-- "%s/%s/stat"
abbrev pub stat_path : List ℕ → List ℕ
stat_path name = task_path ++ 47 ∷ (name ++ 47 ∷ 115 ∷ 116 ∷ 97 ∷ 116 ∷ [])

-- What a conversion %s of sscanf takes: neither a blank nor the end of the text.
abbrev pub is_word : ℕ → Bool
is_word c = not (is_space c) && not (c == 0)

unfoldable pub drop_while : (ℕ → Bool) → List ℕ → List ℕ
drop_while p [] = []
drop_while p (c ∷ rest) = let later = drop_while p rest in if p c then later else c ∷ rest

abbrev pub starts : (ℕ → Bool) → List ℕ → Bool
starts p [] = false
starts p (c ∷ rest) = p c

-- The sign that %d takes.
abbrev pub drop_sign : List ℕ → List ℕ
drop_sign [] = []
drop_sign (c ∷ rest) = if (c == 43) || (c == 45) then rest else c ∷ rest

abbrev pub first_char : List ℕ → Option ℕ
first_char [] = none
first_char (c ∷ rest) = if c == 0 then none else some c

-- sscanf(thread_data, "%d %s %c", &pid, dummy, &state) == 3, with the state.
unfoldable pub scan_stat : List ℕ → Option ℕ
unfolding drop_while
scan_stat text =
    let number = drop_sign (drop_while is_space text) in
    let word = drop_while is_space (drop_while is_digit number) in
    let state = drop_while is_space (drop_while is_word word) in
    if starts is_digit number && starts is_word word then first_char state else none

-- Is a value that was returned 0?
abbrev pub is_ok : ℤ → Bool
is_ok (pos k) = k == 0
is_ok (negsuc k) = false

-- `running_count` and `total_count` after a thread whose state was read.
abbrev pub count_state : Option ℕ → ℕ × ℕ → ℕ × ℕ
count_state none (running, total) = (running, total)
count_state (some state) (running, total) =
    (if state == 82 then inc32 running else running, inc32 total)

-- One entry of the directory.
unfoldable pub count_thread : File → ℕ × ℕ → ℕ × ℕ
unfolding read_file scan_stat
count_thread file counts =
    let (retval, thread_data) = read_file file [] in
    if is_ok retval then count_state (scan_stat thread_data) counts else counts

-- The loop over the names that readdir gives; `files` is what stands at a path.
unfoldable pub count_threads : (List ℕ → File) → List (List ℕ) → ℕ × ℕ → ℕ × ℕ
unfolding count_thread
count_threads files [] counts = counts
count_threads files (name ∷ rest) counts =
    count_threads files rest (count_thread (files (stat_path name)) counts)

-- The running threads and all threads; `none` where opendir fails and -1 is returned.
unfoldable pub threads_runnable : (List ℕ → File) → Option (List (List ℕ)) → Option (ℕ × ℕ)
unfolding count_threads
threads_runnable files none = none
threads_runnable files (some names) = some (count_threads files names (0, 0))

-- CPU_COUNT
unfoldable pub cpu_count : List Bool → ℕ
cpu_count [] = 0
cpu_count (cpu ∷ rest) = (if cpu then 1 else 0) + cpu_count rest

-- The set that pthread_getaffinity_np gives, `none` if it fails, and _SC_NPROCESSORS_ONLN.
unfoldable pub thread_entitled_cpus : Option (List Bool) → ℕ → ℕ
unfolding cpu_count
thread_entitled_cpus none online = online
thread_entitled_cpus (some cpuset) online = cpu_count cpuset
