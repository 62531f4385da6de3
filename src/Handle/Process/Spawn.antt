-- ===== src/Handle/Process/Spawn.antt =====
-- src/handles/process.rs: spawning on a live handle, and what it leaves in memory.
use libuv_rs.Common.{
  ℕ, ◌≡◌, ◌∙◌, true, false, none, some, List, [], ◌∷◌, ◌++◌, map, ==_ne, ==_refl, inl, inr,
  Bool-cases, if◌then◌else◌,
}
use libuv_rs.Common.Int.{ℤ, is_neg}
use libuv_rs.Error.{from_inner as error_from_inner}
use libuv_rs.Memory.{
  Ptr, null, Layout, CCallback, HandleData, Fields, Heap, Block, struct, lookup, update, erase,
}
use libuv_rs.Memory.Effect.{
  Env, IsAllocator, World, Run, Fault, done, fails, fault, uv, nul_error, has_nul, use_c_callback,
  c_string_new, uvret, box_into_raw, release,
}
use libuv_rs.Memory.Laws.{lookup-update_ne}
use libuv_rs.CStrings.{reclaim, load_c_string}
use libuv_rs.CStrings.Laws.{
  all_text, push, addresses, made, update-push, NotIn-made, lookup-made, made-Apart,
  into_raw_all-done, into_raw_all-nul, reclaim-made,
}
use libuv_rs.Handle.Owned.{HandleOwned, with_data, update_addl-Owned}
use libuv_rs.Handle.Process.{
  ProcessOptions, UvProcess, SpawnView, stdio_container, set_exit_cb, call_spawn, spawn,
  optional_c_string, cwd_pointer, read_optional_text,
}
use libuv_rs.Handle.Process.Laws.{
  listed, pointers, with_args, with_texts, read_args, read_environ, reclaim_environ,
  optional_into_raw-done,
}

module _ (env : Env) (law : IsAllocator env) (libuv : UvProcess) (lp : Ptr) {p q : Ptr}
    {d : HandleData} {f : Fields} (w : World) (o : HandleOwned w.heap Layout.uv_process_t p q d f)
    (options : ProcessOptions) where
  -- The state with the new closure in the data.
  abbrev pub exit_cb_set : World
  exit_cb_set = with_data w o (record d { addl = set_exit_cb options.exit_cb d.addl })

  -- The structure is as it was.
  pub still_there :
      lookup p exit_cb_set.heap
      ≡ some (struct Layout.uv_process_t (record { data_ptr = some q; fields = f }))
  still_there = lookup-update_ne p q _ w.heap o.apart ∙ o.p_holds

  abbrev pub view : SpawnView
  view = record {
    exit_cb_uv = use_c_callback CCallback.uv_exit_cb options.exit_cb;
    file_text = options.file;
    arg_texts = options.args;
    environ_texts = options.environ;
    cwd_text = none;
    spawn_flags = options.process_flags;
    containers = map stdio_container options.stdio;
    user = options.uid;
    group = options.gid;
  }

  abbrev args_heap : Heap
  args_heap = with_args env law options.args options.environ exit_cb_set.heap

  abbrev texts_heap : Heap
  texts_heap = with_texts env law options.args options.environ exit_cb_set.heap

  -- What libuv answers, with the texts in memory.
  abbrev pub spawn_answer : ℤ × Fields
  spawn_answer = libuv.uv_spawn (record exit_cb_set { heap = texts_heap }) lp p view f

  abbrev pub spawned : World
  spawned = record w {
    heap =
        update p
          (struct Layout.uv_process_t (record { data_ptr = some q; fields = spawn_answer.1 }))
          exit_cb_set.heap;
  }

  abbrev pub spawn_spec : Run (Unit {0})
  spawn_spec =
      if is_neg spawn_answer.0
      then fails (uv (error_from_inner env.errno spawn_answer.0)) spawned
      else done tt spawned

  in_args :
      lookup p args_heap
      ≡ some (struct Layout.uv_process_t (record { data_ptr = some q; fields = f }))
  in_args = lookup-made env law p options.args exit_cb_set.heap still_there

  in_texts :
      lookup p texts_heap
      ≡ some (struct Layout.uv_process_t (record { data_ptr = some q; fields = f }))
  in_texts = lookup-made env law p (listed options.environ) args_heap in_args

  abbrev new_struct : Block
  new_struct = struct Layout.uv_process_t (record { data_ptr = some q; fields = spawn_answer.1 })

  -- The write of libuv, seen below the texts.
  update-texts_heap :
      update p new_struct texts_heap
      ≡ push
          (made env (listed options.environ) args_heap)
          (push (made env options.args exit_cb_set.heap) (update p new_struct exit_cb_set.heap))
  update-texts_heap =
      update-push p new_struct (made env (listed options.environ) args_heap) args_heap
        (NotIn-made env law p (listed options.environ) args_heap in_args)
      ∙ rw (
          update-push p new_struct (made env options.args exit_cb_set.heap) exit_cb_set.heap
            (NotIn-made env law p options.args exit_cb_set.heap still_there))

  abbrev below_texts : Heap
  below_texts = update p new_struct exit_cb_set.heap

  -- The call of libuv sees every text, and the structure.
  called :
      call_spawn env libuv lp p options
        (use_c_callback CCallback.uv_exit_cb options.exit_cb)
        (addresses (made env options.args exit_cb_set.heap) ++ (null ∷ []))
        (pointers env options.environ args_heap)
        none
        (record exit_cb_set { heap = texts_heap })
      ≡ (if is_neg spawn_answer.0
          then fails
              (uv (error_from_inner env.errno spawn_answer.0))
              (record w { heap = update p new_struct texts_heap })
          else done tt (record w { heap = update p new_struct texts_heap }))
  unfolding call_spawn read_optional_text uvret update
  called = elim (Bool-cases (is_neg spawn_answer.0)) [
    | inl bad ↦ simp (
      read_args env law options.args options.environ exit_cb_set.heap w,
      read_environ env law args_heap options.environ w,
      ==_ne p null o.p_not_null,
      in_texts,
      bad,
    )
    | inr good ↦ simp (
      read_args env law options.args options.environ exit_cb_set.heap w,
      read_environ env law args_heap options.environ w,
      ==_ne p null o.p_not_null,
      in_texts,
      good,
    )
  ]

  -- Both arrays go, whatever libuv answered.
  reclaimed_args :
      reclaim
        (addresses (made env options.args exit_cb_set.heap) ++ (null ∷ []))
        (record w { heap = update p new_struct texts_heap })
      ≡ done tt (record w { heap = push (made env (listed options.environ) args_heap) below_texts })
  reclaimed_args = rw update-texts_heap (
      reclaim-made (made env options.args exit_cb_set.heap)
        (made env (listed options.environ) args_heap) below_texts w
        (made-Apart env law options.args (listed options.environ) exit_cb_set.heap))

  module _ (file_text : has_nul options.file ≡ false) (arg_texts : all_text options.args ≡ true)
      (environ_texts : all_text (listed options.environ) ≡ true) where
    -- Spawning on a live process handle, with options without a directory and without inner zero
    -- bytes in the file, the arguments and the environment, implements one specification: libuv is
    -- asked once, with exactly the given texts and with a C callback exactly if there is a
    -- closure, a negative code gives its error and any other succeeds, and in both cases every C
    -- string is freed and the memory is as before except for the closure in the data of the handle
    -- and the fields that libuv set, with an allocator that returns fresh addresses.
    pub spawn_lem : options.cwd ≡ none → spawn env libuv lp p options w ≡ spawn_spec
    unfolding spawn optional_c_string cwd_pointer c_string_new
    spawn_lem no_cwd = elim (Bool-cases (is_neg spawn_answer.0)) [
      | inl bad ↦ simp (
        update_addl-Owned w o (set_exit_cb options.exit_cb),
        file_text,
        no_cwd,
        into_raw_all-done env options.args exit_cb_set arg_texts,
        optional_into_raw-done env options.environ (record w { heap = args_heap }) environ_texts,
        called,
        bad,
        reclaimed_args,
        reclaim_environ env law args_heap options.environ below_texts w,
      )
      | inr good ↦ simp (
        update_addl-Owned w o (set_exit_cb options.exit_cb),
        file_text,
        no_cwd,
        into_raw_all-done env options.args exit_cb_set arg_texts,
        optional_into_raw-done env options.environ (record w { heap = args_heap }) environ_texts,
        called,
        good,
        reclaimed_args,
        reclaim_environ env law args_heap options.environ below_texts w,
      )
    ]

    -- Spawning with a directory, under the same conditions on the other texts, makes libuv follow
    -- a dangling pointer: the C string of the directory is freed before the call, with an
    -- allocator that returns fresh addresses.
    pub spawn-cwd :
        (dir : List ℕ)
        → options.cwd ≡ some dir
        → has_nul dir ≡ false
        → spawn env libuv lp p options w ≡ fault Fault.dangling_pointer
    unfolding spawn optional_c_string cwd_pointer c_string_new call_spawn read_optional_text erase
        lookup box_into_raw release load_c_string
    spawn-cwd dir cwd dir_text = simp (
      update_addl-Owned w o (set_exit_cb options.exit_cb),
      file_text,
      cwd,
      dir_text,
      into_raw_all-done env options.args exit_cb_set arg_texts,
      optional_into_raw-done env options.environ (record w { heap = args_heap }) environ_texts,
      read_args env law options.args options.environ exit_cb_set.heap w,
      read_environ env law args_heap options.environ w,
      ==_refl,
      ==_ne (env.box_new texts_heap) null (law.box_not_null texts_heap),
      law.box_fresh texts_heap,
    )

  pub spawn-nul_file :
      has_nul options.file ≡ true → spawn env libuv lp p options w ≡ fails nul_error exit_cb_set
  unfolding spawn c_string_new
  spawn-nul_file bad = simp (update_addl-Owned w o (set_exit_cb options.exit_cb), bad)

  -- An argument with an inner zero byte.
  pub spawn-nul :
      (ts us : List (List ℕ)) (bad : List ℕ)
      → has_nul options.file ≡ false
      → options.args ≡ ts ++ (bad ∷ us)
      → all_text ts ≡ true
      → has_nul bad ≡ true
      → spawn env libuv lp p options w
        ≡ fails nul_error (record w { heap = push (made env ts exit_cb_set.heap) exit_cb_set.heap })
  unfolding spawn c_string_new
  spawn-nul ts us bad file_text args all nul = simp (
    update_addl-Owned w o (set_exit_cb options.exit_cb),
    file_text,
    args,
    into_raw_all-nul env ts us bad exit_cb_set all nul,
  )
