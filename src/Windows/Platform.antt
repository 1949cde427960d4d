-- ===== src/Windows/Platform.antt =====
-- src/windows/platform.c: DllMain.
use libpwq.Prelude.{ℕ, ℤ, Bool, true, false, ◌==◌, if◌then◌else◌, is_negative}

abbrev pub dll_process_attach : ℕ
dll_process_attach = 1

-- `init` is what pthread_workqueue_init_np returns if it is called.
unfoldable pub dll_main : ℕ → ℤ → Bool
dll_main reason init =
    if reason == dll_process_attach then if is_negative init then false else true else true
