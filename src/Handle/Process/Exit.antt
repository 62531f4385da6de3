-- ===== src/Handle/Process/Exit.antt =====
-- src/handles/process.rs: the end of a process that was spawned.
use libuv_rs.CStrings.Laws.{all_text}
use libuv_rs.Common.{ℕ, ◌≡◌, refl, true, false, ◌∙◌, none, some, ==_ne, ne_sym}
use libuv_rs.Common.Int.{ℤ, is_neg}
use libuv_rs.Memory.{
  Ptr, null, Layout, Callback, cb, AddlHandleData, process_data, HandleData, handle_data, Fields,
  lookup,
}
use libuv_rs.Memory.Effect.{Env, IsAllocator, World, Eff, done, note_args, Args, has_nul}
use libuv_rs.Memory.Laws.{lookup-update_ne, lookup-update_self}
use libuv_rs.Handle.{with_addl}
use libuv_rs.Handle.Owned.{HandleOwned}
use libuv_rs.Handle.Process.{ProcessOptions, UvProcess, set_exit_cb, run_exit_cb, uv_exit_cb, spawn}
use libuv_rs.Handle.Process.Spawn.{exit_cb_set, spawned, still_there, spawn_answer, spawn_lem}
use libuv_rs.Handle.Process.Laws.{listed}

module _ (env : Env) (law : IsAllocator env) (libuv : UvProcess) (lp : Ptr) {p q : Ptr}
    {d : HandleData} {f : Fields} (w : World) (o : HandleOwned w.heap Layout.uv_process_t p q d f)
    (options : ProcessOptions) where
  abbrev before : World
  before = exit_cb_set env law libuv lp w o options

  abbrev pub after : World
  after = spawned env law libuv lp w o options

  data_there :
      lookup q after.heap
      ≡ some (handle_data (record d { addl = set_exit_cb options.exit_cb d.addl }))
  data_there =
      lookup-update_ne q p _ before.heap (ne_sym o.apart) ∙ lookup-update_self q _ w.heap o.q_holds

  with_addl-after :
      (body : AddlHandleData → Eff (Unit {0}))
      → with_addl p body after ≡ body (set_exit_cb options.exit_cb d.addl) after
  unfolding with_addl
  with_addl-after body = simp (
    ==_ne p null o.p_not_null,
    lookup-update_self p _ before.heap (still_there env law libuv lp w o options),
    ==_ne q null o.q_not_null,
    data_there,
  )

  module _ (n : ℕ) (old : Callback) (shape : d.addl ≡ process_data old)
      (given : options.exit_cb ≡ cb n) (file_text : has_nul options.file ≡ false)
      (arg_texts : all_text options.args ≡ true)
      (environ_texts : all_text (listed options.environ) ≡ true) (no_cwd : options.cwd ≡ none)
      (good : is_neg (spawn_answer env law libuv lp w o options).0 ≡ false) where
    new_closure : set_exit_cb options.exit_cb d.addl ≡ process_data (cb n)
    new_closure = rw (given, shape)

    -- Spawning with a closure on a live process handle, with options without a directory and
    -- without inner zero bytes, when libuv accepts it, succeeds in a state in which the C callback
    -- of the exit calls exactly that closure, once, with the exit status and the signal, and
    -- changes nothing else, with an allocator that returns fresh addresses.
    pub spawn-uv_exit_cb :
        (exit_status term_signal : ℤ)
        → (spawn env libuv lp p options w ≡ done tt after)
          × (uv_exit_cb p exit_status term_signal after
              ≡ done tt (record after {
                log = note_args n p none (Args.exit_args exit_status term_signal) w.log;
              }))
    unfolding uv_exit_cb run_exit_cb
    spawn-uv_exit_cb exit_status term_signal = (
      rw (spawn_lem env law libuv lp w o options file_text arg_texts environ_texts no_cwd, good)
          refl,
      rw (with_addl-after (run_exit_cb exit_status term_signal p), new_closure) refl,
    )
