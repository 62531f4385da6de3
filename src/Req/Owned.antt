-- ===== src/Req/Owned.antt =====
-- A request and the data box that its user pointer leads to.
use libuv_rs.Common.{◌≡◌, ◌≢◌, ◌==◌, true, some, none, ◌∷◌, ==_refl, ==_ne}
use libuv_rs.Memory.{
  Ptr, null, Layout, ReqData, Fields, Block, struct, req_data, Heap, lookup, erase, update,
}
use libuv_rs.Memory.Effect.{Env, World, IsAllocator, done, fails, uv}
use libuv_rs.Error.{Error}
use libuv_rs.Memory.Laws.{lookup-erase_ne, erase-update, erase_comm}
use libuv_rs.Memory.Boxed.{
  Boxed, with_box, lookup-erased_box, lookup-both_erased, fresh_apart, fresh_ne, fresh-Boxed,
  update-fresh_heap, erase-fresh_heap,
}
use libuv_rs.Req.{new_request, get_data, load_data, free_data, destroy_request}

abbrev pub Owned : Heap → Layout → Ptr → Ptr → ReqData → Fields → Type 0
Owned h l p q d f = Boxed h l p q (req_data d) f

-- The heap with a new request in front.
abbrev pub with_request : Layout → Ptr → Ptr → ReqData → Fields → Heap → Heap
with_request l p q d f h = with_box l p q (req_data d) f h

module _ {l : Layout} {p q : Ptr} {d : ReqData} {f : Fields} (w : World)
    (o : Owned w.heap l p q d f) where
  pub get_data-Owned : get_data p w ≡ done q w
  unfolding get_data
  get_data-Owned = rw (==_ne p null o.p_not_null, o.p_holds)

  pub load_data-Owned : load_data q w ≡ done d w
  unfolding load_data
  load_data-Owned = rw (==_ne q null o.q_not_null, o.q_holds)

  -- The heap without the box, the user pointer cleared.
  abbrev pub freed : Heap
  freed = update p (struct l (record { data_ptr = some null; fields = f })) (erase q w.heap)

  pub lookup-freed : (b : Block) → lookup p (update p b (erase q w.heap)) ≡ some b
  lookup-freed = lookup-erased_box o

  pub free_data-Owned : free_data p w ≡ done tt (record w { heap = freed })
  unfolding free_data
  free_data-Owned = simp (
    ==_ne p null o.p_not_null,
    o.p_holds,
    ==_ne q null o.q_not_null,
    o.q_holds,
    lookup-erase_ne p q w.heap o.apart,
  )

  pub destroy_request-Owned :
      destroy_request p l w ≡ done tt (record w { heap = erase p (erase q w.heap) })
  unfolding destroy_request
  destroy_request-Owned = simp (
    ==_ne p null o.p_not_null,
    o.p_holds,
    ==_ne q null o.q_not_null,
    o.q_holds,
    lookup-erase_ne p q w.heap o.apart,
    lookup-freed,
    ==_refl,
    erase-update,
    erase_comm,
  )

  -- Afterwards the address of the request is free.
  pub lookup-destroyed : lookup p (erase p (erase q w.heap)) ≡ none
  lookup-destroyed = lookup-both_erased o

-- A request that was just made, and the state that making it leaves.
module _ (env : Env) (l : Layout) (w : World) where
  abbrev pub new_ptr : Ptr
  new_ptr = env.alloc w.heap l

  abbrev pub new_box : Ptr
  new_box =
      env.box_new ((new_ptr, struct l (record { data_ptr = none; fields = env.garbage })) ∷ w.heap)

  -- The heap with the new request in front, `f` its fields.
  abbrev pub new_heap : ReqData → Fields → Heap
  new_heap d f = with_request l new_ptr new_box d f w.heap

  -- Freeing it at once leaves the heap as it was.
  pub erase-new_heap :
      (d : ReqData) (f : Fields) → erase new_ptr (erase new_box (new_heap d f)) ≡ w.heap
  erase-new_heap d f = erase-fresh_heap env l env.garbage w.heap (req_data d) f

pub new_request-null :
    (env : Env) (l : Layout) (d : ReqData) (w : World)
    → (env.alloc w.heap l == null) ≡ true
    → new_request env l d w ≡ fails (uv Error.enomem) w
unfolding new_request
new_request-null env l d w gone = simp (gone, ==_refl)

module _ (env : Env) (law : IsAllocator env) (l : Layout) (d : ReqData) (w : World)
    (got : env.alloc w.heap l ≢ null) where
  pub new_apart : new_box env l w ≢ new_ptr env l w
  new_apart = fresh_apart env l env.garbage w.heap law got

  pub new_request-done :
      new_request env l d w
      ≡ done (new_ptr env l w) (record w { heap = new_heap env l w d env.garbage })
  unfolding new_request lookup update
  new_request-done =
      simp (==_ne (new_ptr env l w) null got, fresh_ne env l env.garbage w.heap law got, ==_refl)

  pub new_request-Owned :
      (f : Fields) → Owned (new_heap env l w d f) l (new_ptr env l w) (new_box env l w) d f
  new_request-Owned f = fresh-Boxed env l env.garbage w.heap law got (req_data d) f

  -- A write to the fields of a new request.
  pub update-new_heap :
      (f g : Fields)
      → update
          (new_ptr env l w)
          (struct l (record { data_ptr = some (new_box env l w); fields = g }))
          (new_heap env l w d f)
        ≡ new_heap env l w d g
  update-new_heap f g = update-fresh_heap env l env.garbage w.heap law got (req_data d) f g
