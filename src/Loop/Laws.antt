-- ===== src/Loop/Laws.antt =====
-- src/loop.rs: making a loop, sharing it and dropping it.
use libuv_rs.Common.{
  ℕ, ◌≡◌, ◌≢◌, true, false, Option, none, some, ◌∷◌, ==_refl, ==_ne, refl, ◌∙◌, ne_sym,
}
use libuv_rs.Common.Int.{ℤ, is_neg}
use libuv_rs.Error.{from_inner as error_from_inner}
use libuv_rs.Memory.{
  Ptr, null, uv_loop_t, loop_data, Fields, Heap, Struct, struct, lookup, update, erase,
}
use libuv_rs.Memory.Effect.{Env, World, IsAllocator, done, and_then, throw, uv}
use libuv_rs.Memory.Laws.{ne_of_lookup, lookup-cons_ne, lookup-update_self, update-update}
use libuv_rs.Memory.Boxed.{Boxed}
use libuv_rs.Loop.{Loop, UvLoop, new, default, drop, clone}

-- A loop with its data box.
abbrev pub LoopOwned : Heap → Ptr → Ptr → Option ℕ → Fields → Type 0
LoopOwned h p q c f = Boxed h uv_loop_t p q (loop_data c) f

module _ {p q : Ptr} {c : Option ℕ} {f : Fields} (w : World) (o : LoopOwned w.heap p q c f) where
  -- The default loop, once it has its data, is only handed out again.
  pub default-LoopOwned :
      (env : Env) → default env p w ≡ done (record { lp = p; should_drop = false }) w
  unfolding default
  default-LoopOwned env = simp (==_ne p null o.p_not_null, o.p_holds, ==_ne q null o.q_not_null)

-- libuv makes a loop and initialises it, which leaves a structure in memory.
module _ (env : Env) (law : IsAllocator env) (libuv : UvLoop) (w given ready : World) (lp : Ptr)
    (code : ℤ) (s : Struct) (made : libuv.uv_loop_new w ≡ done lp given) (got : lp ≢ null)
    (asked : libuv.uv_loop_init lp given ≡ done code ready)
    (there : lookup lp ready.heap ≡ some (struct uv_loop_t s)) where
  abbrev pub box : Ptr
  box = env.box_new ready.heap

  apart : lp ≢ box
  apart = ne_of_lookup lp box ready.heap there (law.box_fresh ready.heap)

  -- With the data box.
  abbrev pub with_data : World
  with_data = record ready {
    heap =
        update lp (struct uv_loop_t (record s { data_ptr = some box }))
          ((box, loop_data none) ∷ ready.heap);
  }

  -- As libuv left it, but for the user pointer.
  abbrev pub without_data : World
  without_data = record ready {
    heap = update lp (struct uv_loop_t (record s { data_ptr = some null })) ready.heap;
  }

  abbrev pub owner : Loop
  owner = record { lp = lp; should_drop = true }

  pub new-refused :
      is_neg code ≡ true
      → new env libuv w
        ≡ and_then
            (libuv.uv_loop_delete lp ready)
            (λ _. throw (uv (error_from_inner env.errno code)))
  unfolding new
  new-refused bad = simp (made, ==_ne lp null got, asked, bad)

  new-ready : is_neg code ≡ false → new env libuv w ≡ done owner with_data
  unfolding new lookup update
  new-ready good =
      simp (made, ==_ne lp null got, asked, good, ==_ne box lp (ne_sym apart), there, ==_refl)

  drop-owner : drop libuv owner with_data ≡ libuv.uv_loop_delete lp without_data
  unfolding drop lookup update erase
  drop-owner = simp (
    ==_ne lp null got,
    ==_ne box lp (ne_sym apart),
    ==_ne lp box apart,
    lookup-update_self lp (struct uv_loop_t (record s { data_ptr = some box })) ready.heap there,
    ==_ne box null (law.box_not_null ready.heap),
    ==_refl,
    update-update lp (struct uv_loop_t (record s { data_ptr = some null }))
        (struct uv_loop_t (record s { data_ptr = some box })) ready.heap,
  )

  -- When libuv makes a loop and accepts to initialise it once more, with a structure in memory,
  -- Loop::new gives an owner of it, with a data box; dropping a clone of it changes nothing, and
  -- dropping the owner frees the data box and then gives libuv the loop to delete, with a null
  -- user pointer and all else as libuv left it, with an allocator that returns fresh addresses.
  pub new-drop :
      is_neg code ≡ false
      → (new env libuv w ≡ done owner with_data)
        × (drop libuv (clone owner) with_data ≡ done tt with_data)
        × (drop libuv owner with_data ≡ libuv.uv_loop_delete lp without_data)
  unfolding drop clone
  new-drop good = (new-ready good, refl, drop-owner)

-- The default loop before its first use: its user pointer is null.
module _ (env : Env) (law : IsAllocator env) (p : Ptr) (f : Fields) (w : World) (ne : p ≢ null)
    (e : lookup p w.heap
      ≡ some (struct uv_loop_t (record { data_ptr = some null; fields = f }))) where
  abbrev pub default_box : Ptr
  default_box = env.box_new w.heap

  abbrev pub default_world : World
  default_world = record w {
    heap =
        update p (struct uv_loop_t (record { data_ptr = some default_box; fields = f }))
          ((default_box, loop_data none) ∷ w.heap);
  }

  still_there :
      lookup p ((default_box, loop_data none) ∷ w.heap)
      ≡ some (struct uv_loop_t (record { data_ptr = some null; fields = f }))
  still_there =
      lookup-cons_ne p default_box (loop_data none) w.heap
        (ne_sym (ne_of_lookup p default_box w.heap e (law.box_fresh w.heap)))
      ∙ e

  -- The first use of the default loop attaches its data, and the second hands out the same loop and
  -- leaves the memory as it is.
  pub default-twice :
      (default env p w ≡ done (record { lp = p; should_drop = false }) default_world)
      × (default env p default_world ≡ done (record { lp = p; should_drop = false }) default_world)
  unfolding default
  default-twice = (
    simp (==_ne p null ne, e, ==_refl, still_there),
    simp (
      ==_ne p null ne,
      lookup-update_self p (struct uv_loop_t (record { data_ptr = some default_box; fields = f }))
          ((default_box, loop_data none) ∷ w.heap) still_there,
      ==_ne default_box null (law.box_not_null w.heap),
    ),
  )
