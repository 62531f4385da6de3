-- ===== src/Loop/Walks.antt =====
-- src/loop.rs: walking over the handles of a loop.
use libuv_rs.Common.{ℕ, ◌≡◌, refl, Option, none, some, List, [], ◌∷◌, ==_ne}
use libuv_rs.Memory.{Ptr, null, loop_data, Fields, update}
use libuv_rs.Memory.Effect.{World, Call, done, note}
use libuv_rs.Memory.Frame.{Boxed-set_box}
use libuv_rs.Loop.{Loop, UvLoop, uv_walk_cb, walk_all, walk}
use libuv_rs.Loop.Laws.{LoopOwned}

-- The calls of a closure, one for each handle, the last one first, before those made earlier.
abbrev pub walk_log : ℕ → List Ptr → List Call → List Call
walk_log f [] log = log
walk_log f (h ∷ hs) log = walk_log f hs (note f h none log)

-- Every handle of the list belongs to the loop.
abbrev pub BelongTo : UvLoop → Ptr → List Ptr → Type 0
BelongTo libuv p [] = Unit
BelongTo libuv p (h ∷ hs) = ((w : World) → libuv.loop_of w h ≡ p) × BelongTo libuv p hs

module _ (libuv : UvLoop) {p q : Ptr} {f : ℕ} {g : Fields} where
  uv_walk_cb-LoopOwned :
      (h : Ptr) (w : World)
      → ((v : World) → libuv.loop_of v h ≡ p)
      → LoopOwned w.heap p q (some f) g
      → uv_walk_cb libuv h w ≡ done tt (record w { log = note f h none w.log })
  unfolding uv_walk_cb
  uv_walk_cb-LoopOwned h w belongs o =
      simp (belongs, ==_ne p null o.p_not_null, o.p_holds, ==_ne q null o.q_not_null, o.q_holds)

  walk_all-LoopOwned :
      (hs : List Ptr) (w : World)
      → BelongTo libuv p hs
      → LoopOwned w.heap p q (some f) g
      → walk_all libuv hs w ≡ done tt (record w { log = walk_log f hs w.log })
  unfolding walk_all
  walk_all-LoopOwned [] w belong o = refl
  walk_all-LoopOwned (h ∷ hs) w belong o =
      rw (uv_walk_cb-LoopOwned h w belong.0 o)
        (walk_all-LoopOwned hs (record w { log = note f h none w.log }) belong.1 o)

module _ (libuv : UvLoop) {p q : Ptr} {c : Option ℕ} {g : Fields} (w : World)
    (o : LoopOwned w.heap p q c g) where
  -- The state with the closure in the data box.
  abbrev pub walking : ℕ → World
  walking f = record w { heap = update q (loop_data (some f)) w.heap }

  -- Walking over a live loop stores the closure in its data in place of the last one and calls it
  -- exactly once for each of its handles, in the order of libuv, if libuv lists handles of this
  -- loop only.
  pub walk_lem :
      (l : Loop) (f : ℕ)
      → l.lp ≡ p
      → BelongTo libuv p (libuv.handles_of (walking f) p)
      → walk libuv l f w
        ≡ done tt (record (walking f) { log = walk_log f (libuv.handles_of (walking f) p) w.log })
  unfolding walk
  walk_lem l f e belong = simp (
    e,
    ==_ne p null o.p_not_null,
    o.p_holds,
    ==_ne q null o.q_not_null,
    o.q_holds,
    walk_all-LoopOwned libuv (libuv.handles_of (walking f) p) (walking f) belong
        (Boxed-set_box o (loop_data (some f))),
  )
