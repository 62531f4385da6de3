-- ===== src/Loop.antt =====
-- src/loop.rs: event loops, their data box, their ownership, and walking over their handles. The
-- calls of libuv are a parameter.
pub mod Laws
pub mod Walks
use libuv_rs.Common.{
  ℕ, Bool, true, false, not, Option, none, some, List, [], ◌∷◌, ◌==◌, if◌then◌else◌,
}
use libuv_rs.Common.Int.{ℤ, is_neg, to_nat}
use libuv_rs.Error.{Error, from_inner as error_from_inner}
use libuv_rs.Memory.{Ptr, null, uv_loop_t, Block, loop_data, Fields}
use libuv_rs.Memory.Effect.{
  World, Fault, uv, Eff, pure, throw, crash, ◌>>=◌, ◌>>◌, when, Env, load, store, release,
  std_alloc, std_dealloc, box_into_raw, uv_get_data, uv_set_data, ask, uvret, done, note,
}

pub data RunMode : Type 0 where
  default_mode once no_wait : RunMode

-- `uv_run_mode`.
pub data UvRunMode : Type 0 where
  run_default run_once run_nowait : UvRunMode

abbrev pub run_mode : RunMode → UvRunMode
run_mode default_mode = run_default
run_mode once = run_once
run_mode no_wait = run_nowait

-- Making, initialising and deleting a loop are programs of libuv's own, over the same memory:
-- `uv_loop_new` allocates and initialises, and gives the null pointer if it cannot.
pub record UvLoop : Type 0 where
  pub uv_loop_new : Eff Ptr
  pub uv_loop_init : (lp : Ptr) → Eff ℤ
  pub uv_loop_delete : (lp : Ptr) → Eff (Unit {0})
  pub uv_loop_close : World → (lp : Ptr) → ℤ
  pub uv_loop_fork : World → (lp : Ptr) → ℤ
  pub uv_block_signal : World → (lp : Ptr) (signum : ℤ) → ℤ
  pub uv_run : World → (lp : Ptr) → UvRunMode → ℤ
  -- The handles of a loop, in the order in which libuv walks over them, and back.
  pub handles_of : World → (lp : Ptr) → List Ptr
  pub loop_of : World → (handle : Ptr) → Ptr

pub record Loop : Type 0 where
  pub lp : Ptr
  pub should_drop : Bool

abbrev pub as_loop_data : Block → Eff (Option ℕ)
as_loop_data (loop_data c) = pure c
as_loop_data _ = crash Fault.wrong_block

unfoldable pub get_data : Ptr → Eff Ptr
unfolding uv_get_data
get_data lp = uv_get_data lp

unfoldable pub load_data : Ptr → Eff (Option ℕ)
unfolding load
load_data p = do b ← load p; as_loop_data b

unfoldable pub free_data : Ptr → Eff (Unit {0})
unfolding get_data load_data release uv_set_data
free_data lp = do ptr ← get_data lp; load_data ptr; release ptr; uv_set_data lp null

-- `FromInner`: a loop that is not owned.
unfoldable pub from_inner : Ptr → Loop
from_inner lp = record { lp = lp; should_drop = false }

unfoldable pub clone : Loop → Loop
clone l = record { lp = l.lp; should_drop = false }

-- `Drop`.
unfoldable pub drop : UvLoop → Loop → Eff (Unit {0})
unfolding free_data
drop libuv l =
    when l.should_drop (when (not (l.lp == null)) (do free_data l.lp; libuv.uv_loop_delete l.lp))

module _ (env : Env) where
  unfoldable pub initialize_data : Ptr → Eff (Unit {0})
  unfolding box_into_raw uv_set_data
  initialize_data lp = do ptr ← box_into_raw env (loop_data none); uv_set_data lp ptr

  -- `Loop::default`; libuv gives the same loop each time, with a null user pointer at first.
  unfoldable pub default : (uv_default_loop : Ptr) → Eff Loop
  unfolding get_data initialize_data
  default lp = if lp == null then throw (uv Error.enomem) else (do
    ptr ← get_data lp
    when (ptr == null) (initialize_data lp)
    pure (record { lp = lp; should_drop = false }))

  module _ (libuv : UvLoop) where
    abbrev pub after_init : Ptr → ℤ → Eff Loop
    unfolding initialize_data
    after_init lp ret =
        if is_neg ret
        then libuv.uv_loop_delete lp >> throw (uv (error_from_inner env.errno ret))
        else initialize_data lp >> pure (record { lp = lp; should_drop = true })

    -- `Loop::new`, which initialises the loop that `uv_loop_new` gives once more.
    unfoldable pub new : Eff Loop
    unfolding after_init
    new = do
      lp ← libuv.uv_loop_new
      if lp == null then throw (uv Error.enomem) else libuv.uv_loop_init lp >>= after_init lp

    unfoldable pub block_signal : Loop → ℤ → Eff (Unit {0})
    unfolding ask uvret
    block_signal l signum = do code ← ask (λ w. libuv.uv_block_signal w l.lp signum); uvret env code

    unfoldable pub close : Loop → Eff (Unit {0})
    unfolding ask uvret
    close l = do code ← ask (λ w. libuv.uv_loop_close w l.lp); uvret env code

    unfoldable pub fork : Loop → Eff (Unit {0})
    unfolding ask uvret
    fork l = do code ← ask (λ w. libuv.uv_loop_fork w l.lp); uvret env code

    unfoldable pub run : Loop → RunMode → Eff ℕ
    unfolding ask
    run l mode = do
      ret ← ask (λ w. libuv.uv_run w l.lp (run_mode mode))
      if is_neg ret then throw (uv (error_from_inner env.errno ret)) else pure (to_nat ret)

-- `if let Some(f) = walk_cb { f(handle) }`.
abbrev pub call_walk : Ptr → Option ℕ → Eff (Unit {0})
call_walk handle none w = done tt w
call_walk handle (some f) w = done tt (record w { log = note f handle none w.log })

module _ (libuv : UvLoop) where
  -- The C callback of `uv_walk`.
  unfoldable pub uv_walk_cb : Ptr → Eff (Unit {0})
  unfolding ask get_data load_data
  uv_walk_cb handle = do
    lp ← ask (λ w. libuv.loop_of w handle)
    dataptr ← get_data lp
    when (not (dataptr == null)) (load_data dataptr >>= call_walk handle)

  -- libuv calls back for each of the handles.
  unfoldable pub walk_all : List Ptr → Eff (Unit {0})
  unfolding uv_walk_cb
  walk_all [] = pure tt
  walk_all (h ∷ hs) = do uv_walk_cb h; walk_all hs

  unfoldable pub walk : Loop → ℕ → Eff (Unit {0})
  unfolding get_data load_data store ask walk_all
  walk l f = do
    dataptr ← get_data l.lp
    when (not (dataptr == null)) (do load_data dataptr; store dataptr (loop_data (some f)))
    handles ← ask (λ w. libuv.handles_of w l.lp)
    walk_all handles
