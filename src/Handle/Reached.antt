-- ===== src/Handle/Reached.antt =====
-- src/handles: what holds in every state that a program reaches from an empty memory.
use libuv_rs.Common.{ℕ, ◌≡◌, refl, subst, List, [], ◌∷◌, ◌++◌}
use libuv_rs.Memory.{Ptr, Callback, nil, AddlHandleData}
use libuv_rs.Memory.Effect.{Env, World, IsAllocator, done}
use libuv_rs.Handle.{UvHandle, uv_close_cb}
use libuv_rs.Handle.Owned.{noted}
use libuv_rs.Handle.Makes.{IsUvHandle}
use libuv_rs.Handle.Fires.{fired}
use libuv_rs.Socket.Address.{UvAddress}
use libuv_rs.Handle.Ops.{NewOp, StartOp, FireOp, make, start, fire}
use libuv_rs.Handle.Spec.{addl_of_new}
use libuv_rs.Handle.Live.{opened, closing, Table, owed_closes, Live, no_handle}
use libuv_rs.Handle.Steps.{
  after_start, Ends, IsLive, make-IsLive, start-IsLive, fire-opened, close-opened,
  uv_close_cb-closing, closed_world, closed-IsLive,
}
use libuv_rs.Handle.Traces.{
  State, Reach, here, after, nothing, StateIsLive, Step-IsLive, closes, closed, Drain, drained,
  first,
}

module _ (libuv : UvHandle) (known : IsUvHandle libuv) (env : Env) (law : IsAllocator env)
    (lp : Ptr) (all_poll all_fs_event all_udp : ℕ) (address : UvAddress) where
  Reach-IsLive :
      {s : State}
      → Reach libuv env lp all_poll all_fs_event all_udp address nothing s
      → StateIsLive libuv s
  unfolding owed_closes
  Reach-IsLive here = (no_handle, refl)
  Reach-IsLive (after reach step) =
      Step-IsLive libuv known env law lp all_poll all_fs_event all_udp address step
        (Reach-IsLive reach)

  at_table : (s : State) {t : Table} → StateIsLive libuv s → s.table ≡ t → IsLive libuv t s.world
  at_table s live e = subst (λ t. IsLive libuv t s.world) e live

  Live-nothing : {h : List _} → Live libuv [] h → h ≡ []
  Live-nothing no_handle = refl

  -- In every state that a program reaches from an empty memory by making, starting, reporting and
  -- closing handles of the thirteen kinds, in any order, a report of libuv of any of the twelve
  -- sorts, with any arguments, to any open handle leaves the memory as it was and calls exactly
  -- the closure that the starts of the program left in the data of the handle for that sort of
  -- report, once and with the arguments that libuv gave, or nothing if there is none or if the
  -- address of a datagram cannot be read; but a report of a datagram without an address, to a UDP
  -- handle, follows the null pointer, with an allocator that returns fresh addresses and a libuv
  -- that sets the type of the handles it initialises.
  pub Reach-fire :
      (s : State) (l r : Table) (p : Ptr) (a : AddlHandleData) (op : FireOp)
      → Reach libuv env lp all_poll all_fs_event all_udp address nothing s
      → s.table ≡ l ++ (p, opened a) ∷ r
      → fire env all_poll all_fs_event all_udp address op p s.world
        ≡ fired env all_poll all_fs_event all_udp address op a p s.world
  Reach-fire s l r p a op reach e =
      fire-opened libuv known env law lp all_poll all_fs_event all_udp address l r p a s.world
        (at_table s (Reach-IsLive reach) e) op

  -- In every state that a program reaches from an empty memory by making, starting, reporting and
  -- closing handles of the thirteen kinds, in any order, each of the sixteen constructors ends
  -- without a fault: with one more handle, whose memory and data are its own, or with an error and
  -- exactly the handles that there were, with an allocator that returns fresh addresses and a
  -- libuv that sets the type of the handles it initialises.
  pub Reach-make :
      (s : State) (op : NewOp)
      → Reach libuv env lp all_poll all_fs_event all_udp address nothing s
      → Ends
          (make libuv env lp op s.world)
          (λ p. IsLive libuv ((p, opened (addl_of_new op)) ∷ s.table))
          (IsLive libuv s.table)
  Reach-make s op reach =
      make-IsLive libuv known env law lp all_poll all_fs_event all_udp address s.table s.world
        (Reach-IsLive reach) op

  pub Reach-start_handle :
      (s : State) (l r : Table) (p : Ptr) (a : AddlHandleData) (op : StartOp)
      → Reach libuv env lp all_poll all_fs_event all_udp address nothing s
      → s.table ≡ l ++ (p, opened a) ∷ r
      → Ends
          (start libuv env op p s.world)
          (λ _. IsLive libuv ((p, opened (after_start op a)) ∷ l ++ r))
          (IsLive libuv ((p, opened (after_start op a)) ∷ l ++ r))
  Reach-start_handle s l r p a op reach e =
      start-IsLive libuv known env law lp all_poll all_fs_event all_udp address l r p a s.world
        (at_table s (Reach-IsLive reach) e) op

  -- In every state that a program reaches from an empty memory by making, starting, reporting and
  -- closing handles of the thirteen kinds, in any order, for each closing handle, wherever it
  -- stands, the C callback of the closing ends without a fault: it calls the closure that was
  -- given to close exactly once, if there was one, and leaves in memory exactly the other handles,
  -- with an allocator that returns fresh addresses and a libuv that sets the type of the handles
  -- it initialises.
  pub Reach-uv_close_cb :
      (s : State) (l r : Table) (p : Ptr) (g : Callback)
      → Reach libuv env lp all_poll all_fs_event all_udp address nothing s
      → s.table ≡ l ++ (p, closing g) ∷ r
      → (v : World) × (uv_close_cb libuv p (record s.world { pending = owed_closes (l ++ r) })
          ≡ done tt v)
        × IsLive libuv (l ++ r) v
        × (v.log ≡ noted g p s.world.log)
  Reach-uv_close_cb s l r p g reach e =
      let live = at_table s (Reach-IsLive reach) e in
      (
        _,
        uv_close_cb-closing libuv known env law lp all_poll all_fs_event all_udp address l r p g
            s.world live,
        closed-IsLive libuv known env law lp all_poll all_fs_event all_udp address l r p g s.world
            live,
        refl,
      )

  -- In every state that a program reaches from an empty memory by making, starting, reporting and
  -- closing handles of the thirteen kinds, in any order, if no handle is open or closing then no
  -- block is live and libuv owes nothing: nothing leaks, whichever constructors and starters
  -- failed on the way, with an allocator that returns fresh addresses and a libuv that sets the
  -- type of the handles it initialises.
  pub Reach-no_handle :
      (s : State)
      → Reach libuv env lp all_poll all_fs_event all_udp address nothing s
      → s.table ≡ []
      → (s.world.heap ≡ []) × (s.world.pending ≡ [])
  unfolding owed_closes
  Reach-no_handle s reach e =
      let live = at_table s (Reach-IsLive reach) e in (Live-nothing live.0, live.1)

  -- A state without handles.
  abbrev pub Emptied : State → Type 0
  Emptied u = (u.table ≡ []) × (u.world.heap ≡ []) × (u.world.pending ≡ [])

  drain :
      (t : Table) (w : World)
      → IsLive libuv t w
      → (u : State) × Drain libuv env lp all_poll all_fs_event all_udp address
          (record { table = t; world = w })
          u
        × Emptied u
  unfolding owed_closes
  drain [] w live = (record { table = []; world = w }, drained, (refl, Live-nothing live.0, live.1))
  drain ((p, closing g) ∷ t) w live =
      let v =
        closed_world libuv known env law lp all_poll all_fs_event all_udp address [] t p g w live in
      let rest = drain t v (
        closed-IsLive libuv known env law lp all_poll all_fs_event all_udp address [] t p g w
          live) in
      (
        rest.0,
        first
            (closed [] t p g (
              uv_close_cb-closing libuv known env law lp all_poll all_fs_event all_udp address [] t
                p g w live))
            refl rest.1,
        rest.2,
      )
  drain ((p, opened a) ∷ t) w live =
      let k =
        close-opened libuv known env law lp all_poll all_fs_event all_udp address [] t p a w live
          nil in
      let v =
        closed_world libuv known env law lp all_poll all_fs_event all_udp address [] t p nil k.0
          k.2 in
      let rest = drain t v (
        closed-IsLive libuv known env law lp all_poll all_fs_event all_udp address [] t p nil k.0
          k.2) in
      (
        rest.0,
        first (closes [] t p a nil k.1) refl (
            first
              (closed [] t p nil (
                uv_close_cb-closing libuv known env law lp all_poll all_fs_event all_udp address []
                  t p nil k.0 k.2))
              refl rest.1),
        rest.2,
      )

  -- In every state that a program reaches from an empty memory by making, starting, reporting and
  -- closing handles of the thirteen kinds, in any order, some further sequence of steps, each of
  -- which closes an open handle or reports a closed one, leads to a state without handles, with
  -- nothing in memory and nothing owed by libuv, with an allocator that returns fresh addresses
  -- and a libuv that sets the type of the handles it initialises.
  pub Reach-drain :
      (s : State)
      → Reach libuv env lp all_poll all_fs_event all_udp address nothing s
      → (u : State) × Drain libuv env lp all_poll all_fs_event all_udp address s u × Emptied u
  Reach-drain s reach = drain s.table s.world (Reach-IsLive reach)
