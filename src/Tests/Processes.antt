-- ===== src/Tests/Processes.antt =====
-- Processes on a concrete libuv, which accepts all but a call without arguments.
use libuv_rs.Common.{ℕ, ◌≡◌, refl, none, some, List, [], ◌∷◌}
use libuv_rs.Common.Int.{pos}
use libuv_rs.Memory.{Ptr, cb, nil}
use libuv_rs.Memory.Effect.{World, Fault, done, fails, fault, nul_error, has_nul, note_args, Args}
use libuv_rs.CStrings.Laws.{all_text}
use libuv_rs.Handle.Process.{ProcessOptions, UvProcess, fd, spawn, spawn_process, uv_exit_cb}
use libuv_rs.Handle.Process.Make.{process_ptr, with_process, new-Owned, spawn_process-nul}
use libuv_rs.Handle.Process.Spawn.{exit_cb_set, spawn_spec, spawn_lem, spawn-cwd}
use libuv_rs.Handle.Process.Exit.{after, spawn-uv_exit_cb}
use libuv_rs.Tests.{env, env-IsAllocator, empty, next_ptr-not_null}

abbrev uv : UvProcess
uv = record {
  uv_spawn = λ w lp handle view f. (pos 0, record f { type_ = pos 7 });
  uv_process_kill = λ _ _ _. pos 0;
  uv_kill = λ _ _ _. pos 0;
}

abbrev ls : List ℕ
ls = 108 ∷ 115 ∷ []

-- `ls -a` with one variable, and its output on descriptor 1.
abbrev list_all : ProcessOptions
list_all = record {
  exit_cb = cb 7;
  file = ls;
  args = ls ∷ (45 ∷ 97 ∷ []) ∷ [];
  environ = some ((72 ∷ 61 ∷ 47 ∷ []) ∷ []);
  cwd = none;
  process_flags = 0;
  stdio = (record { flags = 2; stdio_type = fd (pos 1) }) ∷ [];
  uid = 0;
  gid = 0;
}

abbrev in_root : ProcessOptions
in_root = record list_all { cwd = some (47 ∷ []) }

abbrev bad_file : ProcessOptions
bad_file = record list_all { file = 108 ∷ 0 ∷ [] }

abbrev handle : Ptr
handle = process_ptr env env-IsAllocator empty

abbrev one_process : World
one_process = with_process env env-IsAllocator empty

spawn_lem_example :
    spawn env uv 1 handle list_all one_process
    ≡ spawn_spec env env-IsAllocator uv 1 one_process
        (new-Owned env env-IsAllocator empty (next_ptr-not_null []))
        list_all
unfolding has_nul all_text
spawn_lem_example =
    spawn_lem env env-IsAllocator uv 1 one_process
      (new-Owned env env-IsAllocator empty (next_ptr-not_null [])) list_all refl refl refl refl

spawn-cwd_example : spawn env uv 1 handle in_root one_process ≡ fault Fault.dangling_pointer
unfolding has_nul all_text
spawn-cwd_example =
    spawn-cwd env env-IsAllocator uv 1 one_process
      (new-Owned env env-IsAllocator empty (next_ptr-not_null [])) in_root refl refl refl (47 ∷ [])
      refl refl

abbrev after_ls : World
after_ls =
    after env env-IsAllocator uv 1 one_process
      (new-Owned env env-IsAllocator empty (next_ptr-not_null [])) list_all

spawn-uv_exit_cb_example :
    (spawn env uv 1 handle list_all one_process ≡ done tt after_ls)
    × (uv_exit_cb handle (pos 0) (pos 15) after_ls
        ≡ done tt (record after_ls {
          log = note_args 7 handle none (Args.exit_args (pos 0) (pos 15)) [];
        }))
unfolding has_nul all_text
spawn-uv_exit_cb_example =
    spawn-uv_exit_cb env env-IsAllocator uv 1 one_process
      (new-Owned env env-IsAllocator empty (next_ptr-not_null [])) list_all 7 nil refl refl refl
      refl refl refl refl (pos 0) (pos 15)

spawn_process-nul_example :
    spawn_process env uv 1 bad_file empty
    ≡ fails nul_error (
        exit_cb_set env env-IsAllocator uv 1 one_process
          (new-Owned env env-IsAllocator empty (next_ptr-not_null []))
          bad_file)
unfolding has_nul
spawn_process-nul_example =
    spawn_process-nul env env-IsAllocator empty (next_ptr-not_null []) uv 1 bad_file refl
