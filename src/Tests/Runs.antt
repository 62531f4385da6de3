-- ===== src/Tests/Runs.antt =====
-- Runs of the file system operations on a concrete libuv.
use libuv_rs.Common.{ℕ, ◌≡◌, refl, none, [], ◌∷◌}
use libuv_rs.Common.Int.{pos}
use libuv_rs.Memory.{uv_fs_t, CCallback, cb, scandir_cb, fs_data, lookup, erase, update}
use libuv_rs.Memory.Effect.{World, done, fault, Fault, note, has_nul}
use libuv_rs.Req.Owned.{new_request-Owned}
use libuv_rs.Req.Fs.{uv_fs_cb, uv_fs_close, uv_fs_scandir}
use libuv_rs.Req.Fs.Laws.{uv_fs_cb-Owned}
use libuv_rs.Fs.Ops.{start, run_sync, op_close, op_mkdir, texts, call_of, answer, with_all_texts}
use libuv_rs.Fs.Ops.Laws.{start_lem, run_sync_lem}
use libuv_rs.Fs.Spec.{submit_spec, sync_spec, submitted}
use libuv_rs.Fs.Live.{Live}
use libuv_rs.Fs.Traces.{
  Reach, here, after, starts, reports, idle, completed, EndsLive, Reach-no_leak, Reach-start,
  Reach-uv_fs_cb,
}
use libuv_rs.Fs.Lifecycle.{reported, fs_scandir-uv_fs_cb}
use libuv_rs.Fs.Scandir.{fs_scandir}
use libuv_rs.Tests.{env, env-IsAllocator, libuv, empty, next_ptr, next_ptr-not_null, blank}

-- One close of descriptor 3 with closure 7, accepted.
abbrev one_started : World
one_started = submitted env libuv 1 (uv_fs_close (pos 3)) empty (cb 7)

start_close :
    start env libuv 1 (op_close (pos 3)) (cb 7) empty ≡ done (record { req = 100 }) one_started
unfolding submit_spec next_ptr texts call_of
start_close = rw (start_lem env env-IsAllocator libuv 1 empty (op_close (pos 3)) (cb 7)) refl

-- And then reported.
abbrev one_done : World
one_done = record { heap = []; pending = []; log = note 7 100 none [] }

report_close :
    uv_fs_cb env libuv 100 (completed env libuv 1 one_started [] 100 blank) ≡ done tt one_done
unfolding next_ptr lookup update erase
report_close =
    uv_fs_cb-Owned env libuv (completed env libuv 1 one_started [] 100 blank)
      (new_request-Owned env env-IsAllocator uv_fs_t (fs_data (cb 7)) empty (next_ptr-not_null [])
        blank)
      7 refl

Reach-started : Reach env libuv 1 idle one_started
Reach-started = after here (starts (op_close (pos 3)) 7 (record { req = 100 }) start_close)

Reach-done : Reach env libuv 1 idle one_done
unfolding next_ptr
Reach-done = after Reach-started (reports [] [] 100 CCallback.uv_fs_cb blank refl report_close)

Reach-no_leak_example : one_done.heap ≡ []
Reach-no_leak_example = Reach-no_leak env env-IsAllocator libuv 1 one_done Reach-done refl

Reach-uv_fs_cb_example :
    (n : ℕ) × (v : World) × (uv_fs_cb env libuv 100 (completed env libuv 1 one_started [] 100 blank)
      ≡ done tt v)
    × Live [] v.heap
    × (v.pending ≡ [])
    × (v.log ≡ note n 100 none [])
unfolding next_ptr
Reach-uv_fs_cb_example =
    Reach-uv_fs_cb env env-IsAllocator libuv 1 one_started [] [] 100 CCallback.uv_fs_cb blank
      Reach-started refl

Reach-start_example : EndsLive (start env libuv 1 (op_mkdir (46 ∷ []) (pos 511)) (cb 8) one_started)
Reach-start_example =
    Reach-start env env-IsAllocator libuv 1 one_started Reach-started (op_mkdir (46 ∷ []) (pos 511))
      8

run_sync_lem_example :
    run_sync env libuv 1 (op_close (pos 3)) empty
    ≡ with_all_texts (texts (op_close (pos 3))) empty (
        sync_spec env libuv 1
          (call_of (op_close (pos 3)))
          empty
          (answer env libuv (op_close (pos 3))))
run_sync_lem_example = run_sync_lem env env-IsAllocator libuv 1 empty (op_close (pos 3))

start_lem_example :
    start env libuv 1 (op_close (pos 3)) (cb 7) empty
    ≡ with_all_texts
        (texts (op_close (pos 3)))
        empty
        (submit_spec env libuv 1 (call_of (op_close (pos 3))) empty (cb 7))
start_lem_example = start_lem env env-IsAllocator libuv 1 empty (op_close (pos 3)) (cb 7)

fs_scandir-uv_fs_cb_example :
    (fs_scandir env libuv 1 (46 ∷ []) (pos 0) 9 empty
      ≡ done
          (record { req = 100 })
          (submitted env libuv 1 (uv_fs_scandir (46 ∷ []) (pos 0)) empty (scandir_cb 9)))
    × (uv_fs_cb env libuv 100 (
          reported env env-IsAllocator libuv 1
            (uv_fs_scandir (46 ∷ []) (pos 0))
            empty
            9
            (next_ptr-not_null [])
            (scandir_cb 9)
            blank)
        ≡ fault Fault.dangling_pointer)
unfolding next_ptr has_nul
fs_scandir-uv_fs_cb_example =
    fs_scandir-uv_fs_cb env env-IsAllocator libuv 1 empty (46 ∷ []) (pos 0) 9 blank
      (next_ptr-not_null []) refl refl
