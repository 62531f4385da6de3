-- ===== src/Handle/Make.antt =====
-- src/handles: what the constructors do, in one specification.
use libuv_rs.Common.{◌≡◌, ◌≢◌, ◌==◌, none, ◌∷◌, ==_refl, inl, inr, Bool-cases, if◌then◌else◌}
use libuv_rs.Common.Int.{ℤ, is_neg}
use libuv_rs.Error.{Error, from_inner as error_from_inner}
use libuv_rs.Memory.{
  Ptr, null, Layout, nil, AddlHandleData, HandleData, Fields, struct, Heap, handle_data, lookup,
  update, erase,
}
use libuv_rs.Memory.Effect.{Env, World, Run, IsAllocator, done, fails, uv}
use libuv_rs.Memory.Laws.{ne_of_test}
use libuv_rs.Memory.Boxed.{fresh_ptr, fresh_box, fresh_heap, fresh_ne, fresh-Boxed}
use libuv_rs.Handle.{UvHandle, InitCall, new_handle}
use libuv_rs.Handle.Owned.{HandleOwned}

abbrev pub fresh_data : AddlHandleData → HandleData
fresh_data addl = record { close_cb = nil; addl = addl }

module _ (libuv : UvHandle) (env : Env) (lp : Ptr) (l : Layout) (c : InitCall) (w : World) where
  abbrev pub handle_ptr : Ptr
  handle_ptr = fresh_ptr env l env.garbage w.heap

  -- What libuv answers about the new structure.
  abbrev pub init_answer : ℤ × Fields
  init_answer =
      libuv.uv_init
        (record w {
          heap = (handle_ptr, struct l (record { data_ptr = none; fields = env.garbage })) ∷ w.heap;
        })
        lp handle_ptr c env.garbage

  abbrev pub handle_heap : AddlHandleData → Heap
  handle_heap addl =
      fresh_heap env l init_answer.1 w.heap (handle_data (fresh_data addl)) init_answer.1

  abbrev pub handle_box : Ptr
  handle_box = fresh_box env l init_answer.1 w.heap

  -- Without memory ENOMEM, refused by libuv its error, both with the state as it was, otherwise a
  -- handle with the data.
  abbrev pub new_spec : AddlHandleData → Run Ptr
  new_spec addl =
      if handle_ptr == null
      then fails (uv Error.enomem) w
      else if is_neg init_answer.0
      then fails (uv (error_from_inner env.errno init_answer.0)) w
      else done handle_ptr (record w { heap = handle_heap addl })

  module _ (law : IsAllocator env) (addl : AddlHandleData) where
    pub new_handle_lem : new_handle libuv env lp l c addl w ≡ new_spec addl
    unfolding new_handle lookup update erase
    new_handle_lem = elim (Bool-cases (handle_ptr == null)) [
      | inl gone ↦ simp (gone, ==_refl)
      | inr got ↦ elim (Bool-cases (is_neg init_answer.0)) [
        | inl bad ↦ simp (got, bad, ==_refl)
        | inr good ↦
            simp (got, good, ==_refl, fresh_ne env l init_answer.1 w.heap law (ne_of_test got))
      ]
    ]

    pub new_handle-Owned :
        handle_ptr ≢ null
        → HandleOwned (handle_heap addl) l handle_ptr handle_box (fresh_data addl) init_answer.1
    new_handle-Owned got = fresh-Boxed env l init_answer.1 w.heap law got _ init_answer.1
