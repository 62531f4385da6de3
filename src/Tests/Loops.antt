-- ===== src/Tests/Loops.antt =====
-- Loops and the process title on a concrete libuv.
use libuv_rs.Common.{
  ℕ, ◌+◌, ◌≡◌, ◌≢◌, refl, true, false, none, some, List, [], ◌∷◌, arith, length, ltb, if◌then◌else◌,
}
use libuv_rs.Common.Int.{pos}
use libuv_rs.Common.Table.{is_distinct, is_fresh}
use libuv_rs.Error.{UvErrno, constants as error_constants}
use libuv_rs.Memory.{uv_loop_t, loop_data, Struct, struct, null, lookup, update, erase}
use libuv_rs.Memory.Effect.{World, done}
use libuv_rs.Loop.{Loop, UvLoop, new, drop, clone, default, walk}
use libuv_rs.Loop.Laws.{with_data, without_data, new-drop, default_world, default-twice, LoopOwned}
use libuv_rs.Loop.Walks.{walk_lem, walk_log}
use libuv_rs.Misc.{UvMisc, get_process_title}
use libuv_rs.Misc.Title.{HasTitle, get_process_title-done}
use libuv_rs.Tests.{env, env-IsAllocator, empty, next_ptr, blank, errno}

-- libuv's structure at address 100.
abbrev loop_struct : Struct
loop_struct = record { data_ptr = none; fields = blank }

abbrev made : World → World
made w = record w { heap = (100, struct uv_loop_t loop_struct) ∷ w.heap }

-- Every call succeeds, and the loop has the handles 7 and 8.
abbrev uv : UvLoop
uv = record {
  uv_loop_new = λ w. done 100 (made w);
  uv_loop_init = λ p w. done (pos 0) w;
  uv_loop_delete = λ p w. done tt (record w { heap = erase p w.heap });
  uv_loop_close = λ _ _. pos 0;
  uv_loop_fork = λ _ _. pos 0;
  uv_block_signal = λ _ _ _. pos 0;
  uv_run = λ _ _ _. pos 0;
  handles_of = λ _ _. 7 ∷ 8 ∷ [];
  loop_of = λ _ _. 100;
}

made_there : lookup 100 (made empty).heap ≡ some (struct uv_loop_t loop_struct)
unfolding lookup
made_there = refl

abbrev uv_owner : Loop
uv_owner = record { lp = 100; should_drop = true }

loop_got : 100 ≢ null
loop_got = λ e. ground arith

abbrev one_loop : World
one_loop =
    with_data env env-IsAllocator uv empty (made empty) (made empty) 100 (pos 0) loop_struct refl
      loop_got refl made_there

abbrev bare_loop : World
bare_loop =
    without_data env env-IsAllocator uv empty (made empty) (made empty) 100 (pos 0) loop_struct refl
      loop_got refl made_there

new-drop_example :
    (new env uv empty ≡ done uv_owner one_loop)
    × (drop uv (clone uv_owner) one_loop ≡ done tt one_loop)
    × (drop uv uv_owner one_loop ≡ uv.uv_loop_delete 100 bare_loop)
new-drop_example =
    new-drop env env-IsAllocator uv empty (made empty) (made empty) 100 (pos 0) loop_struct refl
      loop_got refl made_there refl

one_loop-LoopOwned : LoopOwned one_loop.heap 100 (next_ptr (made empty).heap) none blank
unfolding next_ptr lookup update erase
one_loop-LoopOwned = record {
  p_not_null = λ e. ground arith;
  q_not_null = λ e. ground arith;
  apart = λ e. ground arith;
  p_holds = refl;
  q_holds = refl;
  p_once = refl;
  q_once = refl;
}

abbrev after_walk : World
after_walk = record one_loop {
  heap = update (next_ptr (made empty).heap) (loop_data (some 3)) one_loop.heap;
  log = walk_log 3 (7 ∷ 8 ∷ []) [];
}

walk_lem_example : walk uv uv_owner 3 one_loop ≡ done tt after_walk
unfolding next_ptr
walk_lem_example =
    walk_lem uv one_loop one_loop-LoopOwned uv_owner 3 refl ((λ w. refl), ((λ w. refl), tt))

-- The default loop at address 50.
abbrev default_loop : World
default_loop = record empty {
  heap = (50, struct uv_loop_t (record { data_ptr = some null; fields = blank })) ∷ [];
}

default_ne : 50 ≢ null
default_ne = λ e. ground arith

default_holds :
    lookup 50 default_loop.heap
    ≡ some (struct uv_loop_t (record { data_ptr = some null; fields = blank }))
unfolding lookup
default_holds = refl

abbrev default_used : World
default_used = default_world env env-IsAllocator 50 blank default_loop default_ne default_holds

default-twice_example :
    (default env 50 default_loop ≡ done (record { lp = 50; should_drop = false }) default_used)
    × (default env 50 default_used ≡ done (record { lp = 50; should_drop = false }) default_used)
default-twice_example =
    default-twice env env-IsAllocator 50 blank default_loop default_ne default_holds

-- A title of forty characters, which does not fit at first.
abbrev title : List ℕ
title =
    1 ∷ 2 ∷ 3 ∷ 4 ∷ 5 ∷ 6 ∷ 7 ∷ 8 ∷ 9 ∷ 10 ∷ 1 ∷ 2 ∷ 3 ∷ 4 ∷ 5 ∷ 6 ∷ 7 ∷ 8 ∷ 9 ∷ 10 ∷ 1 ∷ 2 ∷ 3 ∷ 4
    ∷ 5 ∷ 6 ∷ 7 ∷ 8 ∷ 9 ∷ 10 ∷ 1 ∷ 2 ∷ 3 ∷ 4 ∷ 5 ∷ 6 ∷ 7 ∷ 8 ∷ 9 ∷ 10 ∷ []

abbrev misc : UvMisc
misc = record {
  uv_get_process_title =
      λ _ size. if ltb (length title) size then (pos 0, title) else (errno UvErrno.enobufs, []);
  uv_set_process_title = λ _ _. pos 0;
  uv_resident_set_memory = λ _. (pos 0, 0);
  uv_gettimeofday = λ _. (pos 0, record { tv_sec = pos 0; tv_usec = pos 0 });
  uv_cpu_info = λ _. (pos 0, []);
}

misc-HasTitle : HasTitle env misc title
unfolding is_distinct is_fresh error_constants
misc-HasTitle = record {
  enough = λ w size h. ground arith;
  short = λ w size p h. ground arith;
  codes_distinct = refl;
  enobufs_negative = refl;
}

get_process_title-done_example :
    get_process_title env misc (length title + 1) empty ≡ done (some title) empty
get_process_title-done_example =
    get_process_title-done env misc title misc-HasTitle empty (ground arith)
