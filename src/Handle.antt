-- ===== src/Handle.antt =====
-- src/handles/handle.rs: the data box that each handle owns, closing a handle, and the bodies that
-- the constructors, the starters and the C callbacks of the handles share. The calls of libuv are a
-- parameter; an answer may depend on all that has happened.
pub mod Async
pub mod Check
pub mod Conversion
pub mod Fires
pub mod FsEvent
pub mod FsPoll
pub mod Idle
pub mod Kinds
pub mod Live
pub mod Make
pub mod Makes
pub mod Ops
pub mod Owned
pub mod Pipe
pub mod Poll
pub mod Spec
pub mod Starts
pub mod Steps
pub mod Prepare
pub mod Process
pub mod Reached
pub mod Signal
pub mod Tcp
pub mod Timer
pub mod Traces
pub mod Tty
pub mod Udp
use libuv_rs.Common.{ℕ, Bool, Option, none, some, List, not, ◌==◌, if◌then◌else◌, ◌≡◌, false}
use libuv_rs.Common.Int.{ℤ, pos, is_neg}
use libuv_rs.Error.{Error, from_inner as error_from_inner}
use libuv_rs.HandleType.{HandleType, UvHandleType, from_inner as handle_type_from_inner}
use libuv_rs.FsStat.{UvStat}
use libuv_rs.Memory.{
  Ptr, null, Layout, CCallback, Callback, nil, AddlHandleData, HandleData, Fields, Struct, Block,
  struct, handle_data,
}
use libuv_rs.Memory.Effect.{
  World, Fault, uv, Eff, pure, throw, crash, ◌>>=◌, ◌>>◌, when, Env, load, store, load_struct,
  release, std_alloc, std_dealloc, box_into_raw, uv_get_data, uv_set_data, owe, call, ask, uvret,
}

-- The calls that initialise a handle.
pub data InitCall : Type 0 where
  uv_async_init : (c : Option CCallback) → InitCall
  uv_check_init uv_fs_event_init uv_fs_poll_init uv_idle_init uv_prepare_init : InitCall
  uv_signal_init uv_timer_init uv_tcp_init uv_udp_init : InitCall
  uv_tcp_init_ex uv_udp_init_ex : (flags : ℕ) → InitCall
  uv_pipe_init : (ipc : Bool) → InitCall
  uv_tty_init : (fd : ℤ) → InitCall
  uv_poll_init uv_poll_init_socket : (fd : ℤ) → InitCall

-- The calls that start a handle.
pub data StartCall : Type 0 where
  uv_check_start uv_idle_start uv_prepare_start : StartCall
  uv_timer_start : (timeout repeat : ℕ) → StartCall
  uv_signal_start uv_signal_start_oneshot : (signum : ℤ) → StartCall
  uv_poll_start : (events : ℕ) → StartCall
  uv_fs_event_start : (path : List ℕ) (flags : ℕ) → StartCall
  uv_fs_poll_start : (path : List ℕ) (interval : ℕ) → StartCall
  uv_listen : (backlog : ℤ) → StartCall
  uv_read_start uv_udp_recv_start : (alloc_cb : Option CCallback) → StartCall

-- The other calls that give a code.
pub data CodeCall : Type 0 where
  uv_check_stop uv_fs_event_stop uv_fs_poll_stop uv_idle_stop uv_poll_stop : CodeCall
  uv_prepare_stop uv_signal_stop uv_timer_stop uv_timer_again uv_async_send : CodeCall
  uv_read_stop uv_udp_recv_stop : CodeCall
  uv_accept : (client : Ptr) → CodeCall
  uv_stream_set_blocking : (blocking : Bool) → CodeCall

pub record UvHandle : Type 0 where
  pub handle_type : UvHandleType → ℤ
  -- The code and the fields that libuv leaves in the structure.
  pub uv_init : World → (lp handle : Ptr) → InitCall → Fields → ℤ × Fields
  pub uv_start : World → (handle : Ptr) → StartCall → Option CCallback → ℤ
  pub uv_code : World → (handle : Ptr) → CodeCall → ℤ

abbrev pub as_handle_data : Block → Eff HandleData
as_handle_data (handle_data d) = pure d
as_handle_data _ = crash Fault.wrong_block

unfoldable pub get_data : Ptr → Eff Ptr
unfolding uv_get_data
get_data handle = uv_get_data handle

-- `&mut *dataptr`.
unfoldable pub load_data : Ptr → Eff HandleData
unfolding load
load_data p = do b ← load p; as_handle_data b

unfoldable pub free_data : Ptr → Eff (Unit {0})
unfolding get_data load_data release uv_set_data
free_data handle = do ptr ← get_data handle; load_data ptr; release ptr; uv_set_data handle null

unfoldable pub initialize_data : Env → Ptr → AddlHandleData → Eff (Unit {0})
unfolding box_into_raw uv_set_data
initialize_data env handle addl = do
  ptr ← box_into_raw env (handle_data (record { close_cb = nil; addl = addl }))
  uv_set_data handle ptr

-- `IntoInner<Option<Layout>>` of `HandleType`.
unfoldable pub layout_of : HandleType → Option Layout
layout_of HandleType.async = some Layout.uv_async_t
layout_of HandleType.check = some Layout.uv_check_t
layout_of HandleType.fs_event = some Layout.uv_fs_event_t
layout_of HandleType.fs_poll = some Layout.uv_fs_poll_t
layout_of HandleType.handle = some Layout.uv_handle_t
layout_of HandleType.idle = some Layout.uv_idle_t
layout_of HandleType.named_pipe = some Layout.uv_pipe_t
layout_of HandleType.poll = some Layout.uv_poll_t
layout_of HandleType.prepare = some Layout.uv_prepare_t
layout_of HandleType.process = some Layout.uv_process_t
layout_of HandleType.signal = some Layout.uv_signal_t
layout_of HandleType.stream = some Layout.uv_stream_t
layout_of HandleType.tcp = some Layout.uv_tcp_t
layout_of HandleType.timer = some Layout.uv_timer_t
layout_of HandleType.tty = some Layout.uv_tty_t
layout_of HandleType.udp = some Layout.uv_udp_t
layout_of _ = none

-- `if let Some(layout) = layout { dealloc(handle, layout) }`.
abbrev pub dealloc_some : Ptr → Option Layout → Eff (Unit {0})
unfolding std_dealloc
dealloc_some handle none = pure tt
dealloc_some handle (some layout) = std_dealloc handle layout

-- `close` stores the closure and asks libuv to close the handle.
unfoldable pub set_close_cb : Callback → Ptr → Eff (Unit {0})
unfolding load_data store
set_close_cb f dataptr = do
  d ← load_data dataptr
  store dataptr (handle_data (record d { close_cb = f }))

unfoldable pub close : Ptr → Callback → Eff (Unit {0})
unfolding get_data set_close_cb
close handle f = do
  dataptr ← get_data handle
  when (not (dataptr == null)) (set_close_cb f dataptr)
  owe handle (some CCallback.uv_close_cb) (pos 0)

-- `if let XData(d) = &mut (*dataptr).addl { d.x_cb.call(...) }`, where the data is not null.
unfoldable pub with_addl : Ptr → (AddlHandleData → Eff (Unit {0})) → Eff (Unit {0})
unfolding get_data load_data
with_addl handle body = do
  dataptr ← get_data handle
  when (not (dataptr == null)) (do d ← load_data dataptr; body d.addl)

-- `if let XData(d) = &mut (*dataptr).addl { d.x_cb = cb }`, where the data is not null.
unfoldable pub set_addl : (AddlHandleData → AddlHandleData) → Ptr → Eff (Unit {0})
unfolding load_data store
set_addl f dataptr = do
  d ← load_data dataptr
  store dataptr (handle_data (record d { addl = f d.addl }))

unfoldable pub update_addl : Ptr → (AddlHandleData → AddlHandleData) → Eff (Unit {0})
unfolding get_data set_addl
update_addl handle f = do
  dataptr ← get_data handle
  when (not (dataptr == null)) (set_addl f dataptr)

module _ (libuv : UvHandle) where
  unfoldable pub get_type : Ptr → Eff HandleType
  unfolding load_struct handle_type_from_inner
  get_type handle = do
    (_, s) ← load_struct handle
    pure (handle_type_from_inner libuv.handle_type s.fields.type_)

  -- The C callback of `uv_close`.
  unfoldable pub uv_close_cb : Ptr → Eff (Unit {0})
  unfolding get_data load_data call free_data get_type dealloc_some layout_of
  uv_close_cb handle = do
    dataptr ← get_data handle
    when (not (dataptr == null)) (do d ← load_data dataptr; call d.close_cb handle none)
    free_data handle
    t ← get_type handle
    dealloc_some handle (layout_of t)

  -- libuv writes the structure that it initialises, not its user pointer.
  unfoldable pub init : Ptr → Ptr → InitCall → Eff ℤ
  unfolding load_struct store ask
  init lp handle c = do
    (l, s) ← load_struct handle
    answer ← ask (λ w. libuv.uv_init w lp handle c s.fields)
    store handle (struct l (record s { fields = answer.1 }))
    pure answer.0

  module _ (env : Env) where
    -- The end of a constructor, once libuv has answered.
    abbrev pub after_init : Layout → AddlHandleData → Ptr → ℤ → Eff Ptr
    unfolding std_dealloc initialize_data
    after_init layout addl handle ret =
        if is_neg ret
        then std_dealloc handle layout >> throw (uv (error_from_inner env.errno ret))
        else initialize_data env handle addl >> pure handle

    -- The body that the constructors of the handles share: allocate, refuse null, let libuv
    -- initialise the structure, give it back if that fails, attach the data.
    unfoldable pub new_handle : Ptr → Layout → InitCall → AddlHandleData → Eff Ptr
    unfolding std_alloc init after_init
    new_handle lp layout c addl = do
      handle ← std_alloc env layout
      if handle == null
          then throw (uv Error.enomem)
          else init lp handle c >>= after_init layout addl handle

    -- The end of a starter.
    unfoldable pub start_code : Ptr → StartCall → Option CCallback → Eff (Unit {0})
    unfolding ask uvret
    start_code handle c uv_cb = do code ← ask (λ w. libuv.uv_start w handle c uv_cb); uvret env code

    -- The calls that only give a code.
    unfoldable pub code_of : Ptr → CodeCall → Eff (Unit {0})
    unfolding ask uvret
    code_of handle c = do code ← ask (λ w. libuv.uv_code w handle c); uvret env code
