-- ===== src/Handle/Makes.antt =====
-- src/handles: every constructor implements the specification of its table.
use libuv_rs.Common.{◌≡◌, ◌≢◌, ◌==◌, true, false, ==_refl, ==_ne, inl, inr, Bool-cases, some}
use libuv_rs.Common.Int.{is_neg}
use libuv_rs.Common.Table.{is_distinct}
use libuv_rs.HandleType.{constants, from_inner as handle_type_from_inner}
use libuv_rs.HandleType.RoundTrip.{from_inner-value}
use libuv_rs.Memory.{Ptr, null, Layout, Callback, Fields, lookup, update, erase}
use libuv_rs.Memory.Effect.{Env, World, IsAllocator}
use libuv_rs.Memory.Laws.{ne_of_test}
use libuv_rs.Memory.Boxed.{fresh_ne, fresh-Boxed}
use libuv_rs.Handle.{UvHandle, InitCall, layout_of}
use libuv_rs.Handle.Async
use libuv_rs.Handle.Make.{new_handle_lem, fresh_data}
use libuv_rs.Handle.Owned.{HandleOwned}
use libuv_rs.Handle.Ops.{
  make, NewOp, new_timer, new_check, new_prepare, new_idle, new_signal, new_fs_event, new_fs_poll,
  new_tcp, new_udp, new_poll, new_poll_socket, new_tty, new_tcp_ex, new_udp_ex, new_pipe, new_async,
}
use libuv_rs.Handle.Spec.{
  layout_of_new, init_call_of, addl_of_new, type_of_call, make_spec, made_ptr, made_box, made_heap,
  made_answer, boxed_fields,
}
use libuv_rs.Handle.Timer
use libuv_rs.Handle.Check
use libuv_rs.Handle.Prepare
use libuv_rs.Handle.Idle
use libuv_rs.Handle.Signal
use libuv_rs.Handle.FsEvent
use libuv_rs.Handle.FsPoll
use libuv_rs.Handle.Tcp
use libuv_rs.Handle.Udp
use libuv_rs.Handle.Poll
use libuv_rs.Handle.Tty
use libuv_rs.Handle.Pipe

module _ (libuv : UvHandle) (env : Env) (law : IsAllocator env) (lp : Ptr) (w : World) where
  async-make_spec :
      (f : Callback) → Async.new libuv env lp f w ≡ make_spec libuv env lp (new_async f) w
  unfolding Async.new lookup update erase
  async-make_spec f = elim (Bool-cases (made_ptr libuv env lp (new_async f) w == null)) [
    | inl gone ↦ simp (gone, ==_refl)
    | inr got ↦ elim (Bool-cases (is_neg (made_answer libuv env lp (new_async f) w).0)) [
      | inl bad ↦ simp (
        got,
        bad,
        ==_refl,
        ==_ne (env.box_new _) null (law.box_not_null _),
        fresh_ne env Layout.uv_async_t env.garbage w.heap law (ne_of_test got),
      )
      | inr good ↦ simp (
        got,
        good,
        ==_refl,
        fresh_ne env Layout.uv_async_t env.garbage w.heap law (ne_of_test got),
      )
    ]
  ]

  -- Each of the sixteen constructors implements one specification in any state, with an allocator
  -- that returns fresh addresses: without memory ENOMEM, refused by libuv its error, both with the
  -- state as it was, and otherwise a handle with the fields that libuv set and the data of its
  -- kind.
  pub make_lem : (op : NewOp) → make libuv env lp op w ≡ make_spec libuv env lp op w
  unfolding make Timer.new Check.new Prepare.new Idle.new Signal.new FsEvent.new FsPoll.new Tcp.new
      Udp.new Poll.new Tty.new Pipe.new Poll.new_socket Tcp.new_ex Udp.new_ex
  make_lem new_timer = new_handle_lem libuv env lp _ _ w law _
  make_lem new_check = new_handle_lem libuv env lp _ _ w law _
  make_lem new_prepare = new_handle_lem libuv env lp _ _ w law _
  make_lem new_idle = new_handle_lem libuv env lp _ _ w law _
  make_lem new_signal = new_handle_lem libuv env lp _ _ w law _
  make_lem new_fs_event = new_handle_lem libuv env lp _ _ w law _
  make_lem new_fs_poll = new_handle_lem libuv env lp _ _ w law _
  make_lem new_tcp = new_handle_lem libuv env lp _ _ w law _
  make_lem new_udp = new_handle_lem libuv env lp _ _ w law _
  make_lem (new_poll fd) = new_handle_lem libuv env lp _ _ w law _
  make_lem (new_poll_socket fd) = new_handle_lem libuv env lp _ _ w law _
  make_lem (new_tty fd) = new_handle_lem libuv env lp _ _ w law _
  make_lem (new_tcp_ex flags) = new_handle_lem libuv env lp _ _ w law _
  make_lem (new_udp_ex flags) = new_handle_lem libuv env lp _ _ w law _
  make_lem (new_pipe ipc) = new_handle_lem libuv env lp _ _ w law _
  make_lem (new_async f) = async-make_spec f

  pub make-HandleOwned :
      (op : NewOp)
      → made_ptr libuv env lp op w ≢ null
      → HandleOwned
          (made_heap libuv env lp op w)
          (layout_of_new op)
          (made_ptr libuv env lp op w)
          (made_box libuv env lp op w)
          (fresh_data (addl_of_new op))
          (made_answer libuv env lp op w).1
  make-HandleOwned op got =
      fresh-Boxed env (layout_of_new op) (boxed_fields libuv env lp op w) w.heap law got _ _

-- What libuv documents: a handle that it has initialised has the type of the call, and the types
-- have different numbers.
pub record IsUvHandle (libuv : UvHandle) : Type 0 where
  pub type_set :
      (w : World) (lp p : Ptr) (c : InitCall) (f : Fields)
      → is_neg (libuv.uv_init w lp p c f).0 ≡ false
      → (libuv.uv_init w lp p c f).1.type_ ≡ libuv.handle_type (type_of_call c)
  pub types_distinct : is_distinct libuv.handle_type constants ≡ true

-- A handle of each kind is given back with the layout that it was taken with.
pub layout_of-type_of_call :
    (libuv : UvHandle)
    → IsUvHandle libuv
    → (op : NewOp)
    → layout_of (
        handle_type_from_inner libuv.handle_type
          (libuv.handle_type (type_of_call (init_call_of op))))
      ≡ some (layout_of_new op)
unfolding layout_of
layout_of-type_of_call libuv known new_timer = rw (
    from_inner-value libuv.handle_type known.types_distinct (type_of_call (init_call_of new_timer)))
layout_of-type_of_call libuv known new_check = rw (
    from_inner-value libuv.handle_type known.types_distinct (type_of_call (init_call_of new_check)))
layout_of-type_of_call libuv known new_prepare = rw (
    from_inner-value libuv.handle_type known.types_distinct
      (type_of_call (init_call_of new_prepare)))
layout_of-type_of_call libuv known new_idle =
    rw (
      from_inner-value libuv.handle_type known.types_distinct
        (type_of_call (init_call_of new_idle)))
layout_of-type_of_call libuv known new_signal = rw (
    from_inner-value libuv.handle_type known.types_distinct
      (type_of_call (init_call_of new_signal)))
layout_of-type_of_call libuv known new_fs_event = rw (
    from_inner-value libuv.handle_type known.types_distinct
      (type_of_call (init_call_of new_fs_event)))
layout_of-type_of_call libuv known new_fs_poll = rw (
    from_inner-value libuv.handle_type known.types_distinct
      (type_of_call (init_call_of new_fs_poll)))
layout_of-type_of_call libuv known new_tcp =
    rw (
      from_inner-value libuv.handle_type known.types_distinct (type_of_call (init_call_of new_tcp)))
layout_of-type_of_call libuv known new_udp =
    rw (
      from_inner-value libuv.handle_type known.types_distinct (type_of_call (init_call_of new_udp)))
layout_of-type_of_call libuv known (new_poll fd) = rw (
    from_inner-value libuv.handle_type known.types_distinct
      (type_of_call (init_call_of (new_poll fd))))
layout_of-type_of_call libuv known (new_poll_socket fd) = rw (
    from_inner-value libuv.handle_type known.types_distinct
      (type_of_call (init_call_of (new_poll_socket fd))))
layout_of-type_of_call libuv known (new_tty fd) = rw (
    from_inner-value libuv.handle_type known.types_distinct
      (type_of_call (init_call_of (new_tty fd))))
layout_of-type_of_call libuv known (new_tcp_ex flags) = rw (
    from_inner-value libuv.handle_type known.types_distinct
      (type_of_call (init_call_of (new_tcp_ex flags))))
layout_of-type_of_call libuv known (new_udp_ex flags) = rw (
    from_inner-value libuv.handle_type known.types_distinct
      (type_of_call (init_call_of (new_udp_ex flags))))
layout_of-type_of_call libuv known (new_pipe ipc) = rw (
    from_inner-value libuv.handle_type known.types_distinct
      (type_of_call (init_call_of (new_pipe ipc))))
layout_of-type_of_call libuv known (new_async f) = rw (
    from_inner-value libuv.handle_type known.types_distinct
      (type_of_call (init_call_of (new_async f))))
