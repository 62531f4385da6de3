-- ===== src/Tests/Handles.antt =====
-- Handles and loops on a concrete libuv.
use libuv_rs.Common.{◌≡◌, refl, none, [], ◌∷◌, arith}
use libuv_rs.Common.Int.{pos}
use libuv_rs.Common.Table.{is_distinct, is_fresh}
use libuv_rs.HandleType.{HandleType, constants as handle_constants}
use libuv_rs.HandleType.RoundTrip.{place as handle_place}
use libuv_rs.Memory.{cb, nil, CCallback, AddlHandleData, handle_data, Layout, lookup, update, erase}
use libuv_rs.Memory.Effect.{World, done, note, owe}
use libuv_rs.Handle.{UvHandle, close, uv_close_cb}
use libuv_rs.Handle.Owned.{noted, HandleOwned}
use libuv_rs.Handle.Conversion.{Conversion}
use libuv_rs.Handle.Kinds.{Kind, try_into, make-try_into}
use libuv_rs.Handle.Makes.{IsUvHandle, make_lem, make-HandleOwned}
use libuv_rs.Handle.Starts.{start_lem_handle, stored_world}
use libuv_rs.Handle.Ops.{make, start, fire, new_timer, new_signal, start_timer, fire_timer}
use libuv_rs.Handle.Spec.{type_of_call, made_heap, make_spec, start_spec}
use libuv_rs.Handle.Fires.{after_fire}
use libuv_rs.Handle.Live.{opened, closing, owed_closes}
use libuv_rs.Handle.Steps.{Ends, IsLive, after_start}
use libuv_rs.Handle.Traces.{State, Reach, Drain, here, after, nothing, makes, closes, closed}
use libuv_rs.Handle.Reached.{
  Reach-fire, Reach-make, Reach-start_handle, Reach-uv_close_cb, Reach-no_handle, Reach-drain,
  Emptied,
}
use libuv_rs.Tests.Addresses.{address}
use libuv_rs.Tests.{env, env-IsAllocator, empty, next_ptr, blank}

-- Accepts every call and sets the type of the handle.
abbrev uv : UvHandle
uv = record {
  handle_type = λ t. pos (handle_place t);
  uv_init = λ _ _ _ c f. (pos 0, record f { type_ = pos (handle_place (type_of_call c)) });
  uv_start = λ _ _ _ _. pos 0;
  uv_code = λ _ _ _. pos 0;
}

uv-IsUvHandle : IsUvHandle uv
unfolding is_distinct is_fresh handle_constants
uv-IsUvHandle = record { type_set = λ w lp p c f h. refl; types_distinct = refl }

-- One timer.
abbrev one_timer : World
one_timer = record empty { heap = made_heap uv env 1 new_timer empty }

make_timer : make uv env 1 new_timer empty ≡ done 100 one_timer
unfolding next_ptr
make_timer = rw (make_lem uv env env-IsAllocator 1 empty new_timer) refl

make_lem_example : make uv env 1 new_timer empty ≡ make_spec uv env 1 new_timer empty
make_lem_example = make_lem uv env env-IsAllocator 1 empty new_timer

abbrev timer_state : State
timer_state = record {
  table = (100, opened (AddlHandleData.timer_data nil)) ∷ [];
  world = one_timer;
}

timer_reached : Reach uv env 1 15 3 7 address nothing timer_state
timer_reached = after here (makes new_timer 100 make_timer)

Reach-fire_example :
    fire env 15 3 7 address fire_timer 100 one_timer
    ≡ done tt
        (after_fire env 15 3 7 address fire_timer (AddlHandleData.timer_data nil) 100 one_timer)
Reach-fire_example =
    Reach-fire uv uv-IsUvHandle env env-IsAllocator 1 15 3 7 address timer_state [] [] 100
      (AddlHandleData.timer_data nil) fire_timer timer_reached refl

Reach-make_example :
    Ends
      (make uv env 1 new_signal one_timer)
      (λ p. IsLive uv ((p, opened (AddlHandleData.signal_data nil)) ∷ timer_state.table))
      (IsLive uv timer_state.table)
Reach-make_example =
    Reach-make uv uv-IsUvHandle env env-IsAllocator 1 15 3 7 address timer_state new_signal
      timer_reached

Reach-start_handle_example :
    Ends
      (start uv env (start_timer 5 0 (cb 7)) 100 one_timer)
      (λ _.
        IsLive uv (
          (100, opened (after_start (start_timer 5 0 (cb 7)) (AddlHandleData.timer_data nil)))
          ∷ []))
      (IsLive uv
        ((100, opened (after_start (start_timer 5 0 (cb 7)) (AddlHandleData.timer_data nil))) ∷ []))
Reach-start_handle_example =
    Reach-start_handle uv uv-IsUvHandle env env-IsAllocator 1 15 3 7 address timer_state [] [] 100
      (AddlHandleData.timer_data nil) (start_timer 5 0 (cb 7)) timer_reached refl

-- Closed with closure 9, and then reported.
abbrev closing_world : World
closing_world = record {
  heap =
      update 201 (handle_data (record { close_cb = cb 9; addl = AddlHandleData.timer_data nil }))
        one_timer.heap;
  pending = (100, CCallback.uv_close_cb) ∷ [];
  log = [];
}

close_timer : close 100 (cb 9) one_timer ≡ done tt closing_world
unfolding close owe next_ptr lookup update
close_timer = refl

abbrev closing_state : State
closing_state = record { table = (100, closing (cb 9)) ∷ []; world = closing_world }

closing_reached : Reach uv env 1 15 3 7 address nothing closing_state
closing_reached =
    after timer_reached (closes [] [] 100 (AddlHandleData.timer_data nil) (cb 9) close_timer)

Reach-uv_close_cb_example :
    (v : World) × (uv_close_cb uv 100 (record closing_world { pending = [] }) ≡ done tt v)
    × IsLive uv [] v
    × (v.log ≡ noted (cb 9) 100 [])
unfolding owed_closes
Reach-uv_close_cb_example =
    Reach-uv_close_cb uv uv-IsUvHandle env env-IsAllocator 1 15 3 7 address closing_state [] [] 100
      (cb 9) closing_reached refl

abbrev closed_state : State
closed_state = record {
  table = [];
  world = record { heap = []; pending = []; log = note 9 100 none [] };
}

close_timer_reported :
    uv_close_cb uv 100 (record closing_world { pending = [] }) ≡ done tt closed_state.world
unfolding uv_close_cb next_ptr lookup update erase
close_timer_reported = refl

closed_reached : Reach uv env 1 15 3 7 address nothing closed_state
unfolding owed_closes
closed_reached = after closing_reached (closed [] [] 100 (cb 9) close_timer_reported)

Reach-no_handle_example : (closed_state.world.heap ≡ []) × (closed_state.world.pending ≡ [])
Reach-no_handle_example =
    Reach-no_handle uv uv-IsUvHandle env env-IsAllocator 1 15 3 7 address closed_state
      closed_reached refl

Reach-drain_example :
    (u : State) × Drain uv env 1 15 3 7 address timer_state u
    × Emptied uv uv-IsUvHandle env env-IsAllocator 1 15 3 7 address u
Reach-drain_example =
    Reach-drain uv uv-IsUvHandle env env-IsAllocator 1 15 3 7 address timer_state timer_reached

make-try_into_example :
    (make uv env 1 new_timer empty ≡ done 100 one_timer)
    × (try_into uv Kind.idle 100 one_timer
        ≡ done (Conversion.conversion_error HandleType.timer HandleType.idle) one_timer)
unfolding next_ptr
make-try_into_example =
    make-try_into uv uv-IsUvHandle env env-IsAllocator 1 new_timer empty (λ e. ground arith) refl
      Kind.idle

timer_owned :
    HandleOwned one_timer.heap Layout.uv_timer_t 100 201
      (record { close_cb = nil; addl = AddlHandleData.timer_data nil })
      (record blank { type_ = pos 14 })
unfolding next_ptr
timer_owned = make-HandleOwned uv env env-IsAllocator 1 empty new_timer (λ e. ground arith)

-- Starting the timer with closure 7.
start_lem_handle_example :
    start uv env (start_timer 5 0 (cb 7)) 100 one_timer
    ≡ start_spec uv env
        (start_timer 5 0 (cb 7))
        100
        one_timer
        (stored_world uv env one_timer timer_owned (start_timer 5 0 (cb 7)))
start_lem_handle_example = start_lem_handle uv env one_timer timer_owned (start_timer 5 0 (cb 7))
