-- ===== src/Handle/Process/Make.antt =====
-- src/handles/process.rs: a new process handle, and spawning on it at once.
use libuv_rs.Common.{◌≡◌, ◌≢◌, ◌==◌, true, inl, inr, Bool-cases, if◌then◌else◌, ==_refl, ==_ne}
use libuv_rs.Error.{Error}
use libuv_rs.Memory.{Ptr, null, Layout, nil, process_data, HandleData, handle_data, lookup, update}
use libuv_rs.Memory.Effect.{Env, IsAllocator, World, done, fails, uv, nul_error, has_nul}
use libuv_rs.Memory.Laws.{ne_of_test}
use libuv_rs.Memory.Boxed.{fresh_ptr, fresh_box, fresh_heap, fresh_ne, fresh-Boxed}
use libuv_rs.Handle.Owned.{HandleOwned}
use libuv_rs.Handle.Process.{ProcessOptions, UvProcess, new, spawn_process}
use libuv_rs.Handle.Process.Spawn.{exit_cb_set, spawn-nul_file}

module _ (env : Env) (law : IsAllocator env) (w : World) where
  abbrev pub process_ptr : Ptr
  process_ptr = fresh_ptr env Layout.uv_process_t env.garbage w.heap

  abbrev pub process_box : Ptr
  process_box = fresh_box env Layout.uv_process_t env.garbage w.heap

  abbrev pub new_data : HandleData
  new_data = record { close_cb = nil; addl = process_data nil }

  abbrev pub with_process : World
  with_process = record w {
    heap = fresh_heap env Layout.uv_process_t env.garbage w.heap (handle_data new_data) env.garbage;
  }

  pub new_lem :
      new env w
      ≡ (if process_ptr == null then fails (uv Error.enomem) w else done process_ptr with_process)
  unfolding new lookup update
  new_lem = elim (Bool-cases (process_ptr == null)) [
    | inl gone ↦ simp (gone, ==_refl)
    | inr got ↦
        simp
          (got, ==_refl, fresh_ne env Layout.uv_process_t env.garbage w.heap law (ne_of_test got))
  ]

  module _ (got : process_ptr ≢ null) where
    pub new-Owned :
        HandleOwned with_process.heap Layout.uv_process_t process_ptr process_box new_data
          env.garbage
    new-Owned =
        fresh-Boxed env Layout.uv_process_t env.garbage w.heap law got (handle_data new_data)
          env.garbage

    -- spawn_process with a file that has an inner zero byte, when the handle gets its memory,
    -- gives the error and leaves the new handle with its data in memory, with nobody to close it,
    -- with an allocator that returns fresh addresses.
    pub spawn_process-nul :
        (libuv : UvProcess) (lp : Ptr) (options : ProcessOptions)
        → has_nul options.file ≡ true
        → spawn_process env libuv lp options w
          ≡ fails nul_error (exit_cb_set env law libuv lp with_process new-Owned options)
    unfolding spawn_process
    spawn_process-nul libuv lp options bad = simp (
      new_lem,
      ==_ne process_ptr null got,
      spawn-nul_file env law libuv lp with_process new-Owned options bad,
    )
