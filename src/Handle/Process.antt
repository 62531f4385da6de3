-- ===== src/Handle/Process.antt =====
-- src/handles/process.rs: making a process handle, spawning a process and the C callback of its
-- end. The pointer of a text that Rust still owns during the call is the text; those that the
-- source turns into raw pointers are on the heap.
pub mod Exit
pub mod Laws
pub mod Make
pub mod Spawn
use libuv_rs.Common.{ℕ, Option, none, some, List, [], ◌∷◌, map, length, ◌==◌, if◌then◌else◌}
use libuv_rs.Common.Int.{ℤ}
use libuv_rs.Error.{Error}
use libuv_rs.HandleType.{HandleType}
use libuv_rs.Memory.{
  Ptr, null, Layout, Callback, nil, CCallback, AddlHandleData, process_data, Fields, struct,
  c_string,
}
use libuv_rs.Memory.Effect.{
  World, Fault, uv, Eff, pure, throw, crash, ◌>>=◌, ◌>>◌, attempt, give_back, Env, call_with, Args,
  use_c_callback, std_alloc, box_into_raw, release, load_struct, store, ask, uvret, c_string_new,
}
use libuv_rs.Handle.{UvHandle, initialize_data, with_addl, update_addl}
use libuv_rs.Handle.Conversion.{Conversion, convert}
use libuv_rs.CStrings.{load_c_string, read_array, into_raw_all, reclaim}

pub data StdioType : Type 0 where
  stream : (handle : Ptr) → StdioType
  fd : (file : ℤ) → StdioType

pub record StdioContainer : Type 0 where
  pub flags : ℕ
  pub stdio_type : StdioType

-- The union of `uv_stdio_container_t`: a pointer to a stream, or a descriptor.
pub data UvStdioData : Type 0 where
  uv_stream : (handle : Ptr) → UvStdioData
  uv_fd : (file : ℤ) → UvStdioData

pub record UvStdioContainer : Type 0 where
  pub uv_flags : ℕ
  pub uv_data : UvStdioData

-- `Inner` for `StdioType`.
unfoldable pub stdio_inner : StdioType → UvStdioData
stdio_inner (stream handle) = uv_stream handle
stdio_inner (fd file) = uv_fd file

abbrev pub stdio_container : StdioContainer → UvStdioContainer
stdio_container s = record { uv_flags = s.flags; uv_data = stdio_inner s.stdio_type }

pub record ProcessOptions : Type 0 where
  pub exit_cb : Callback
  pub file : List ℕ
  pub args : List (List ℕ)
  pub environ : Option (List (List ℕ))
  pub cwd : Option (List ℕ)
  pub process_flags : ℕ
  pub stdio : List StdioContainer
  pub uid : ℕ
  pub gid : ℕ

-- `ProcessOptions::new`, which panics without arguments.
unfoldable pub options_new : List (List ℕ) → Eff ProcessOptions
options_new [] = crash Fault.panic
options_new (program ∷ args) = pure (record {
  exit_cb = nil;
  file = program;
  args = program ∷ args;
  environ = none;
  cwd = none;
  process_flags = 0;
  stdio = [];
  uid = 0;
  gid = 0;
})

-- What libuv reads through `uv_process_options_t`.
pub record SpawnView : Type 0 where
  pub exit_cb_uv : Option CCallback
  pub file_text : List ℕ
  pub arg_texts : List (List ℕ)
  pub environ_texts : Option (List (List ℕ))
  pub cwd_text : Option (List ℕ)
  pub spawn_flags : ℕ
  pub containers : List UvStdioContainer
  pub user : ℕ
  pub group : ℕ

pub record UvProcess : Type 0 where
  -- The code, and the fields that libuv leaves in the structure.
  pub uv_spawn : World → (lp handle : Ptr) → SpawnView → Fields → ℤ × Fields
  pub uv_process_kill : World → (handle : Ptr) (signum : ℤ) → ℤ
  pub uv_kill : World → (pid signum : ℤ) → ℤ

abbrev pub set_exit_cb : Callback → AddlHandleData → AddlHandleData
set_exit_cb f (process_data _) = process_data f
set_exit_cb f d = d

abbrev pub run_exit_cb : ℤ → ℤ → Ptr → AddlHandleData → Eff (Unit {0})
unfolding call_with
run_exit_cb exit_status term_signal handle (process_data f) =
    call_with f handle none (Args.exit_args exit_status term_signal)
run_exit_cb exit_status term_signal handle _ = pure tt

unfoldable pub uv_exit_cb : Ptr → ℤ → ℤ → Eff (Unit {0})
uv_exit_cb handle exit_status term_signal =
    with_addl handle (run_exit_cb exit_status term_signal handle)

unfoldable pub try_from : UvHandle → Ptr → Eff Conversion
unfolding convert
try_from libuv handle = convert libuv HandleType.process handle

-- What libuv reads of an array that may be null.
unfoldable pub read_optional_array : Option (List Ptr) → Eff (Option (List (List ℕ)))
read_optional_array none = pure none
read_optional_array (some ps) = do texts ← read_array ps; pure (some texts)

-- And of a text that may be null.
unfoldable pub read_optional_text : Option Ptr → Eff (Option (List ℕ))
read_optional_text none = pure none
read_optional_text (some p) = do text ← load_c_string p; pure (some text)

unfoldable pub reclaim_optional : Option (List Ptr) → Eff (Unit {0})
reclaim_optional none = pure tt
reclaim_optional (some ps) = reclaim ps

unfoldable pub optional_c_string : Option (List ℕ) → Eff (Option (List ℕ))
optional_c_string none = pure none
optional_c_string (some text) = do s ← c_string_new text; pure (some s)

module _ (env : Env) where
  unfoldable pub new : Eff Ptr
  unfolding std_alloc initialize_data
  new = do
    handle ← std_alloc env Layout.uv_process_t
    if handle == null
        then throw (uv Error.enomem)
        else initialize_data env handle (process_data nil) >> pure handle

  -- `env.map(|env| ...).transpose()?`.
  unfoldable pub optional_into_raw : Option (List (List ℕ)) → Eff (Option (List Ptr))
  optional_into_raw none = pure none
  optional_into_raw (some texts) = do ps ← into_raw_all env texts; pure (some ps)

  -- `cwd.map_or(null(), |s| s.as_ptr())`: the closure owns the text, and drops it.
  unfoldable pub cwd_pointer : Option (List ℕ) → Eff (Option Ptr)
  cwd_pointer none = pure none
  cwd_pointer (some s) = do p ← box_into_raw env (c_string s); release p; pure (some p)

  module _ (libuv : UvProcess) where
    -- The call of libuv, which reads the texts and writes the structure.
    unfoldable pub call_spawn :
        (lp handle : Ptr)
        → ProcessOptions
        → Option CCallback
        → (args : List Ptr) → (environ : Option (List Ptr)) → (cwd : Option Ptr) → Eff (Unit {0})
    unfolding load_struct ask store uvret
    call_spawn lp handle options exit_cb_uv args environ cwd = do
      arg_texts ← read_array args
      environ_texts ← read_optional_array environ
      cwd_text ← read_optional_text cwd
      (l, s) ← load_struct handle
      answer ← ask (λ w.
          libuv.uv_spawn w lp handle
            (record {
              exit_cb_uv = exit_cb_uv;
              file_text = options.file;
              arg_texts = arg_texts;
              environ_texts = environ_texts;
              cwd_text = cwd_text;
              spawn_flags = options.process_flags;
              containers = map stdio_container options.stdio;
              user = options.uid;
              group = options.gid;
            })
            s.fields)
      store handle (struct l (record s { fields = answer.1 }))
      uvret env answer.0

    unfoldable pub spawn : (lp handle : Ptr) → ProcessOptions → Eff (Unit {0})
    unfolding update_addl
    spawn lp handle options = do
      let exit_cb_uv = use_c_callback CCallback.uv_exit_cb options.exit_cb
      update_addl handle (set_exit_cb options.exit_cb)
      c_string_new options.file
      args ← into_raw_all env options.args
      environ ← optional_into_raw options.environ
      cwd ← optional_c_string options.cwd
      cwd_ptr ← cwd_pointer cwd
      result ← attempt (call_spawn lp handle options exit_cb_uv args environ cwd_ptr)
      reclaim args
      reclaim_optional environ
      give_back result

    unfoldable pub spawn_process : (lp : Ptr) → ProcessOptions → Eff Ptr
    spawn_process lp options = do process ← new; spawn lp process options; pure process

    unfoldable pub kill : (handle : Ptr) (signum : ℤ) → Eff (Unit {0})
    unfolding ask uvret
    kill handle signum = do code ← ask (λ w. libuv.uv_process_kill w handle signum); uvret env code

    unfoldable pub kill_pid : (pid signum : ℤ) → Eff (Unit {0})
    unfolding ask uvret
    kill_pid pid signum = do code ← ask (λ w. libuv.uv_kill w pid signum); uvret env code
