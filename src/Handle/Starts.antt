-- ===== src/Handle/Starts.antt =====
-- src/handles: every starter implements the specification of its table.
use libuv_rs.Common.{◌≡◌, inl, inr, Bool-cases, if◌then◌else◌, List, ℕ, Option}
use libuv_rs.Common.Int.{is_neg}
use libuv_rs.Error.{from_inner as error_from_inner}
use libuv_rs.Memory.{Ptr, Layout, HandleData, Fields, CCallback}
use libuv_rs.Memory.Effect.{
  Env, World, Run, Eff, done, fails, uv, has_nul, c_string_new, ◌>>=◌, nul_error,
}
use libuv_rs.Handle.{UvHandle, start_code, StartCall}
use libuv_rs.Handle.Owned.{HandleOwned, with_data, update_addl-Owned, update_stream_data-Owned}
use libuv_rs.Handle.Ops.{
  start, StartOp, start_timer, start_check, start_prepare, start_idle, start_signal,
  start_signal_oneshot, start_poll, start_fs_event, start_fs_poll, start_listen, start_read,
  start_recv,
}
use libuv_rs.Handle.Spec.{stored, start_spec}
use libuv_rs.Stream.Data
use libuv_rs.Handle.Timer
use libuv_rs.Handle.Check
use libuv_rs.Handle.Prepare
use libuv_rs.Handle.Idle
use libuv_rs.Handle.Signal
use libuv_rs.Handle.FsEvent
use libuv_rs.Handle.FsPoll
use libuv_rs.Handle.Udp
use libuv_rs.Handle.Poll

module _ (libuv : UvHandle) (env : Env) (p : Ptr) (v : World) where
  start_code_lem :
      (c : StartCall) (u : Option CCallback)
      → start_code libuv env p c u v ≡ (
          if is_neg (libuv.uv_start v p c u)
          then fails (uv (error_from_inner env.errno (libuv.uv_start v p c u))) v
          else done tt v)
  unfolding start_code
  start_code_lem c u = elim (Bool-cases (is_neg (libuv.uv_start v p c u))) [
    | inl bad ↦ simp bad
    | inr good ↦ simp good
  ]

module _ (libuv : UvHandle) (env : Env) {l : Layout} {p q : Ptr} {d : HandleData} {f0 : Fields}
    (w : World) (o : HandleOwned w.heap l p q d f0) where
  -- The state in which libuv is asked: the data has the new closures.
  abbrev pub stored_world : StartOp → World
  stored_world op = with_data w o (record d { addl = stored op d.addl })

  -- A path is tested before all else.
  with_path :
      (path : List ℕ) (m : List ℕ → Eff (Unit {0})) (r : Run (Unit {0}))
      → m path w ≡ r
      → (c_string_new path >>= m) w ≡ (if has_nul path then fails nul_error w else r)
  unfolding c_string_new
  with_path path m r e = elim (Bool-cases (has_nul path)) [
    | inl bad ↦ simp bad
    | inr good ↦ simp (good, e)
  ]

  -- Each of the twelve starters implements one specification on any live handle: a path with an
  -- inner zero byte is refused first, with the state as it was; otherwise the closures are stored
  -- in the data, if it is of the right kind, before libuv is asked, and stay there when libuv
  -- refuses with an error.
  pub start_lem_handle :
      (op : StartOp) → start libuv env op p w ≡ start_spec libuv env op p w (stored_world op)
  unfolding start Timer.start Check.start Prepare.start Idle.start Signal.start Signal.start_oneshot
      Poll.start FsEvent.start FsPoll.start Data.listen Data.read_start Udp.recv_start has_nul
  start_lem_handle (start_timer t r f) = simp (update_addl-Owned w o, start_code_lem)
  start_lem_handle (start_check f) = simp (update_addl-Owned w o, start_code_lem)
  start_lem_handle (start_prepare f) = simp (update_addl-Owned w o, start_code_lem)
  start_lem_handle (start_idle f) = simp (update_addl-Owned w o, start_code_lem)
  start_lem_handle (start_signal signum f) = simp (update_addl-Owned w o, start_code_lem)
  start_lem_handle (start_signal_oneshot signum f) = simp (update_addl-Owned w o, start_code_lem)
  start_lem_handle (start_poll events f) = simp (update_addl-Owned w o, start_code_lem)
  start_lem_handle (start_fs_event path flags f) =
      with_path path _ _ (simp (update_addl-Owned w o, start_code_lem))
  start_lem_handle (start_fs_poll path interval f) =
      with_path path _ _ (simp (update_addl-Owned w o, start_code_lem))
  start_lem_handle (start_listen backlog f) = simp (update_stream_data-Owned w o, start_code_lem)
  start_lem_handle (start_read a f) = simp (update_stream_data-Owned w o, start_code_lem)
  start_lem_handle (start_recv a f) = simp (update_stream_data-Owned w o, start_code_lem)
