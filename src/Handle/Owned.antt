-- ===== src/Handle/Owned.antt =====
-- src/handles/handle.rs: what the shared bodies do on a live handle.
use libuv_rs.Common.{◌≡◌, none, some, List, ◌∷◌, ==_refl, ==_ne}
use libuv_rs.HandleType.{from_inner as handle_type_from_inner}
use libuv_rs.Memory.{
  Ptr, null, Layout, Callback, cb, scandir_cb, nil, CCallback, AddlHandleData, HandleData, Fields,
  handle_data, Heap, erase, update,
}
use libuv_rs.Memory.Effect.{World, Eff, Call, done, note, owe}
use libuv_rs.Memory.Laws.{lookup-erase_ne, erase-update, erase_comm}
use libuv_rs.Memory.Boxed.{Boxed, lookup-erased_box}
use libuv_rs.Handle.{UvHandle, with_addl, update_addl, close, uv_close_cb, layout_of}
use libuv_rs.Stream.Data.{with_stream_data, update_stream_data}

abbrev pub HandleOwned : Heap → Layout → Ptr → Ptr → HandleData → Fields → Type 0
HandleOwned h l p q d f = Boxed h l p q (handle_data d) f

-- The calls of the user, with that of a closure of a handle in front.
abbrev pub noted : Callback → Ptr → List Call → List Call
noted (cb n) p log = note n p none log
noted (scandir_cb n) p log = note n p none log
noted nil p log = log

module _ {l : Layout} {p q : Ptr} {d : HandleData} {f : Fields} (w : World)
    (o : HandleOwned w.heap l p q d f) where
  pub with_addl-Owned :
      (body : AddlHandleData → Eff (Unit {0})) → with_addl p body w ≡ body d.addl w
  unfolding with_addl
  with_addl-Owned body =
      simp (==_ne p null o.p_not_null, o.p_holds, ==_ne q null o.q_not_null, o.q_holds)

  pub with_stream_data-Owned :
      (body : AddlHandleData → Eff (Unit {0})) → with_stream_data p body w ≡ body d.addl w
  unfolding with_stream_data
  with_stream_data-Owned body =
      simp (==_ne p null o.p_not_null, o.p_holds, ==_ne q null o.q_not_null, o.q_holds)

  -- The state with new data in the box.
  abbrev pub with_data : HandleData → World
  with_data e = record w { heap = update q (handle_data e) w.heap }

  pub update_addl-Owned :
      (g : AddlHandleData → AddlHandleData)
      → update_addl p g w ≡ done tt (with_data (record d { addl = g d.addl }))
  unfolding update_addl
  update_addl-Owned g =
      simp (==_ne p null o.p_not_null, o.p_holds, ==_ne q null o.q_not_null, o.q_holds)

  pub update_stream_data-Owned :
      (g : AddlHandleData → AddlHandleData)
      → update_stream_data p g w ≡ done tt (with_data (record d { addl = g d.addl }))
  unfolding update_stream_data
  update_stream_data-Owned g =
      simp (==_ne p null o.p_not_null, o.p_holds, ==_ne q null o.q_not_null, o.q_holds)

  pub close-Owned :
      (g : Callback)
      → close p g w
        ≡ done tt (record w {
          heap = update q (handle_data (record d { close_cb = g })) w.heap;
          pending = (p, CCallback.uv_close_cb) ∷ w.pending;
        })
  unfolding close owe
  close-Owned g = simp (==_ne p null o.p_not_null, o.p_holds, ==_ne q null o.q_not_null, o.q_holds)

module _ (libuv : UvHandle) {l : Layout} {p q : Ptr} {a : AddlHandleData} {f : Fields}
    (known : layout_of (handle_type_from_inner libuv.handle_type f.type_) ≡ some l) where
  uv_close_cb-cases :
      (g : Callback) (w : World)
      → HandleOwned w.heap l p q (record { close_cb = g; addl = a }) f
      → uv_close_cb libuv p w
        ≡ done tt (record w { heap = erase p (erase q w.heap); log = noted g p w.log })
  unfolding uv_close_cb
  uv_close_cb-cases (cb n) w o = simp (
    ==_ne p null o.p_not_null,
    o.p_holds,
    ==_ne q null o.q_not_null,
    o.q_holds,
    lookup-erase_ne p q w.heap o.apart,
    lookup-erased_box o,
    known,
    ==_refl,
    erase-update,
    erase_comm,
  )
  uv_close_cb-cases (scandir_cb n) w o = simp (
    ==_ne p null o.p_not_null,
    o.p_holds,
    ==_ne q null o.q_not_null,
    o.q_holds,
    lookup-erase_ne p q w.heap o.apart,
    lookup-erased_box o,
    known,
    ==_refl,
    erase-update,
    erase_comm,
  )
  uv_close_cb-cases nil w o = simp (
    ==_ne p null o.p_not_null,
    o.p_holds,
    ==_ne q null o.q_not_null,
    o.q_holds,
    lookup-erase_ne p q w.heap o.apart,
    lookup-erased_box o,
    known,
    ==_refl,
    erase-update,
    erase_comm,
  )

pub uv_close_cb-Owned :
    (libuv : UvHandle) {l : Layout} {p q : Ptr} {d : HandleData} {f : Fields}
    → layout_of (handle_type_from_inner libuv.handle_type f.type_) ≡ some l
    → (w : World) → HandleOwned w.heap l p q d f
    → uv_close_cb libuv p w
      ≡ done tt (record w { heap = erase p (erase q w.heap); log = noted d.close_cb p w.log })
uv_close_cb-Owned libuv {d = d} known w o = uv_close_cb-cases libuv known d.close_cb w o
