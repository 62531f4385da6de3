-- ===== src/Handle/Fires.antt =====
-- src/handles: every C callback implements the specification of its table.
use libuv_rs.Common.{ℕ, ◌≡◌, ◌∙◌, refl, Option, List, some, none, if◌then◌else◌}
use Prim.Native.Nat.{bit_and}
use libuv_rs.Net.{SocketAddr}
use libuv_rs.Net.AddrInfos.{result_ok}
use libuv_rs.Net.AddrInfos.Laws.{built, build_socketaddr_lem}
use libuv_rs.Socket.Address.{UvAddress}
use libuv_rs.Common.Int.{ℤ}
use libuv_rs.FsStat.{UvStat}
use libuv_rs.Memory.{
  Ptr, UvBuf, Layout, HandleData, Fields, AddlHandleData, Callback, cb, scandir_cb, nil,
  stream_data, udp_data,
}
use libuv_rs.Memory.Effect.{
  Env, World, Run, Fault, fault, Result, ok, err, Args, done, call, call_with, and_then,
  attempt_run, give_back, status_of,
}
use libuv_rs.Handle.Owned.{HandleOwned, with_addl-Owned, with_stream_data-Owned}
use libuv_rs.Handle.Ops.{
  fire, FireOp, fire_timer, fire_check, fire_prepare, fire_idle, fire_async, fire_signal, fire_poll,
  fire_fs_event, fire_fs_poll, fire_connection, fire_read, fire_recv,
}
use libuv_rs.Handle.Spec.{
  called, heard, recv_from, unaddressed, noted_args, status_of_fire, args_of_fire,
}
use libuv_rs.Stream.Data
use libuv_rs.Handle.Timer
use libuv_rs.Handle.Check
use libuv_rs.Handle.Prepare
use libuv_rs.Handle.Idle
use libuv_rs.Handle.Signal
use libuv_rs.Handle.FsEvent
use libuv_rs.Handle.FsPoll
use libuv_rs.Handle.Udp
use libuv_rs.Handle.Poll
use libuv_rs.Handle.Async

module _ (p : Ptr) (st : Option (Result ℕ)) (w : World) where
  call_lem :
      (f : Callback)
      → call f p st w ≡ done tt (record w { log = noted_args f p st Args.no_args w.log })
  unfolding call
  call_lem (cb n) = refl
  call_lem (scandir_cb n) = refl
  call_lem nil = refl

  call_with_lem :
      (f : Callback) (a : Args)
      → call_with f p st a w ≡ done tt (record w { log = noted_args f p st a w.log })
  unfolding call_with
  call_with_lem (cb n) a = refl
  call_with_lem (scandir_cb n) a = refl
  call_with_lem nil a = refl

module _ (env : Env) (all_poll all_fs_event all_udp : ℕ) (address : UvAddress) where
  -- The state after a report to a handle with this data.
  abbrev pub after_fire : FireOp → AddlHandleData → Ptr → World → World
  after_fire op a p w = record w {
    log =
        noted_args (called env all_poll all_fs_event all_udp address op a) p
          (status_of_fire env all_poll all_fs_event all_udp address op)
          (args_of_fire env all_poll all_fs_event all_udp address op) w.log;
  }

  -- How a report ends.
  abbrev pub fired : FireOp → AddlHandleData → Ptr → World → Run (Unit {0})
  fired op a p w =
      if unaddressed op a then fault Fault.null_pointer else done tt (after_fire op a p w)

  module _ (p : Ptr) (w : World) where
    timer_lem :
        (a : AddlHandleData) → Timer.run_timer_cb p a w ≡ done tt (after_fire fire_timer a p w)
    unfolding Timer.run_timer_cb
    timer_lem (AddlHandleData.timer_data f) = call_lem p _ w f
    timer_lem _ = refl

    check_lem :
        (a : AddlHandleData) → Check.run_check_cb p a w ≡ done tt (after_fire fire_check a p w)
    unfolding Check.run_check_cb
    check_lem (AddlHandleData.check_data f) = call_lem p _ w f
    check_lem _ = refl

    prepare_lem :
        (a : AddlHandleData)
        → Prepare.run_prepare_cb p a w ≡ done tt (after_fire fire_prepare a p w)
    unfolding Prepare.run_prepare_cb
    prepare_lem (AddlHandleData.prepare_data f) = call_lem p _ w f
    prepare_lem _ = refl

    idle_lem : (a : AddlHandleData) → Idle.run_idle_cb p a w ≡ done tt (after_fire fire_idle a p w)
    unfolding Idle.run_idle_cb
    idle_lem (AddlHandleData.idle_data f) = call_lem p _ w f
    idle_lem _ = refl

    async_lem :
        (a : AddlHandleData) → Async.run_async_cb p a w ≡ done tt (after_fire fire_async a p w)
    unfolding Async.run_async_cb
    async_lem (AddlHandleData.async_data f) = call_lem p _ w f
    async_lem _ = refl

    signal_lem :
        (s : ℤ) (a : AddlHandleData)
        → Signal.run_signal_cb s p a w ≡ done tt (after_fire (fire_signal s) a p w)
    unfolding Signal.run_signal_cb
    signal_lem s (AddlHandleData.signal_data f) = call_with_lem p _ w f _
    signal_lem s _ = refl

    poll_lem :
        (s : ℤ) (e : ℕ) (a : AddlHandleData)
        → Poll.run_poll_cb env all_poll s e p a w ≡ done tt (after_fire (fire_poll s e) a p w)
    unfolding Poll.run_poll_cb
    poll_lem s e (AddlHandleData.poll_data f) = call_with_lem p _ w f _
    poll_lem s e _ = refl

    fs_event_lem :
        (n : Option (List ℕ)) (e : ℕ) (s : ℤ) (a : AddlHandleData)
        → FsEvent.run_fs_event_cb env all_fs_event n e s p a w
          ≡ done tt (after_fire (fire_fs_event n e s) a p w)
    unfolding FsEvent.run_fs_event_cb
    fs_event_lem n e s (AddlHandleData.fs_event_data f) = call_with_lem p _ w f _
    fs_event_lem n e s _ = refl

    fs_poll_lem :
        (s : ℤ) (x y : UvStat) (a : AddlHandleData)
        → FsPoll.run_fs_poll_cb env s x y p a w ≡ done tt (after_fire (fire_fs_poll s x y) a p w)
    unfolding FsPoll.run_fs_poll_cb
    fs_poll_lem s x y (AddlHandleData.fs_poll_data f) = call_with_lem p _ w f _
    fs_poll_lem s x y _ = refl

    connection_lem :
        (s : ℤ) (a : AddlHandleData)
        → Data.run_connection_cb env s p a w ≡ done tt (after_fire (fire_connection s) a p w)
    unfolding Data.run_connection_cb
    connection_lem s (stream_data _ f _ _) = call_lem p _ w f
    connection_lem s _ = refl

    read_lem :
        (n : ℤ) (b : UvBuf) (a : AddlHandleData)
        → Data.run_read_cb env n b p a w ≡ done tt (after_fire (fire_read n b) a p w)
    unfolding Data.run_read_cb
    read_lem n b (stream_data _ _ f _) = call_with_lem p _ w f _
    read_lem n b _ = refl

    heard_lem :
        (n : ℤ) (b : UvBuf) (g : ℕ) (f : Callback) (r : Result SocketAddr)
        → and_then (attempt_run (give_back r w)) (Udp.call_recv env address all_udp f n b g p)
          ≡ done tt (record w {
            log =
                noted_args
                  (heard f (result_ok r))
                  p
                  (some (status_of env n))
                  (recv_from b (result_ok r) (bit_and g all_udp))
                  w.log;
          })
    heard_lem n b g f (ok addr) = call_with_lem p _ w f _
    heard_lem n b g f (err e) = refl

    recv_lem :
        (n : ℤ) (b : UvBuf) (addr : Option (List ℕ)) (g : ℕ) (a : AddlHandleData)
        → Udp.run_recv_cb env address all_udp n b addr g p a w ≡ fired (fire_recv n b addr g) a p w
    unfolding Udp.run_recv_cb Udp.load_sockaddr
    recv_lem n b none g (stream_data _ _ _ (udp_data f)) = refl
    recv_lem n b (some s) g (stream_data _ _ _ (udp_data f)) =
        rw (build_socketaddr_lem env address s w) (heard_lem n b g f (built env address s))
    recv_lem n b addr g _ = refl

  pub fire_lem :
      {l : Layout} {p q : Ptr} {d : HandleData} {f0 : Fields} (w : World)
      → HandleOwned w.heap l p q d f0
      → (op : FireOp) → fire env all_poll all_fs_event all_udp address op p w ≡ fired op d.addl p w
  unfolding fire Timer.uv_timer_cb Check.uv_check_cb Prepare.uv_prepare_cb Idle.uv_idle_cb
      Async.uv_async_cb Signal.uv_signal_cb Poll.uv_poll_cb FsEvent.uv_fs_event_cb
      FsPoll.uv_fs_poll_cb Data.uv_connection_cb Data.uv_read_cb Udp.uv_udp_recv_cb
  fire_lem w o fire_timer = with_addl-Owned w o _ ∙ timer_lem _ w _
  fire_lem w o fire_check = with_addl-Owned w o _ ∙ check_lem _ w _
  fire_lem w o fire_prepare = with_addl-Owned w o _ ∙ prepare_lem _ w _
  fire_lem w o fire_idle = with_addl-Owned w o _ ∙ idle_lem _ w _
  fire_lem w o fire_async = with_addl-Owned w o _ ∙ async_lem _ w _
  fire_lem w o (fire_signal s) = with_addl-Owned w o _ ∙ signal_lem _ w s _
  fire_lem w o (fire_poll s e) = with_addl-Owned w o _ ∙ poll_lem _ w s e _
  fire_lem w o (fire_fs_event n e s) = with_addl-Owned w o _ ∙ fs_event_lem _ w n e s _
  fire_lem w o (fire_fs_poll s x y) = with_addl-Owned w o _ ∙ fs_poll_lem _ w s x y _
  fire_lem w o (fire_connection s) = with_stream_data-Owned w o _ ∙ connection_lem _ w s _
  fire_lem w o (fire_read n b) = with_stream_data-Owned w o _ ∙ read_lem _ w n b _
  fire_lem w o (fire_recv n b addr g) = with_stream_data-Owned w o _ ∙ recv_lem _ w n b addr g _
