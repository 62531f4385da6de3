-- ===== src/Handle/Traces.antt =====
-- src/handles: programs that make, start, report and close handles of every kind, in any order.
use libuv_rs.Common.{if◌then◌else◌, Bool, true, false, ℕ, ◌≡◌, sym, subst, ◌∙◌, [], ◌∷◌, ◌++◌}
use libuv_rs.Memory.{Ptr, Callback, AddlHandleData}
use libuv_rs.Memory.Effect.{Env, World, Run, IsAllocator, done, fails, fault, Fault, Failure}
use libuv_rs.Handle.{UvHandle, close, uv_close_cb}
use libuv_rs.Handle.Makes.{IsUvHandle}
use libuv_rs.Handle.Ops.{NewOp, StartOp, FireOp, make, start, fire}
use libuv_rs.Handle.Spec.{addl_of_new, unaddressed}
use libuv_rs.Socket.Address.{UvAddress}
use libuv_rs.Handle.Live.{opened, closing, Table, owed_closes}
use libuv_rs.Handle.Steps.{
  after_start, Ends, IsLive, make-IsLive, start-IsLive, fire-opened, close-opened,
  uv_close_cb-closing, closed-IsLive,
}

-- The table of the handles and the state of the memory.
pub record State : Type 0 where
  pub table : Table
  pub world : World

module _ (libuv : UvHandle) (env : Env) (lp : Ptr) (all_poll all_fs_event all_udp : ℕ)
    (address : UvAddress) where
  pub data Step : State → State → Type 0 where
    makes :
        {t : Table} {w v : World} (op : NewOp) (p : Ptr)
        → make libuv env lp op w ≡ done p v
        → Step
            (record { table = t; world = w })
            (record { table = (p, opened (addl_of_new op)) ∷ t; world = v })
    make_fails :
        {t : Table} {w v : World} (op : NewOp) (e : Failure)
        → make libuv env lp op w ≡ fails e v
        → Step (record { table = t; world = w }) (record { table = t; world = v })
    starts :
        {w v : World} (l r : Table) (p : Ptr) (a : AddlHandleData) (op : StartOp)
        → start libuv env op p w ≡ done tt v
        → Step
            (record { table = l ++ (p, opened a) ∷ r; world = w })
            (record { table = (p, opened (after_start op a)) ∷ l ++ r; world = v })
    start_fails :
        {w v : World} (l r : Table) (p : Ptr) (a : AddlHandleData) (op : StartOp) (e : Failure)
        → start libuv env op p w ≡ fails e v
        → Step
            (record { table = l ++ (p, opened a) ∷ r; world = w })
            (record { table = (p, opened (after_start op a)) ∷ l ++ r; world = v })
    fires :
        {w v : World} (l r : Table) (p : Ptr) (a : AddlHandleData) (op : FireOp)
        → fire env all_poll all_fs_event all_udp address op p w ≡ done tt v
        → Step
            (record { table = l ++ (p, opened a) ∷ r; world = w })
            (record { table = l ++ (p, opened a) ∷ r; world = v })
    closes :
        {w v : World} (l r : Table) (p : Ptr) (a : AddlHandleData) (g : Callback)
        → close p g w ≡ done tt v
        → Step
            (record { table = l ++ (p, opened a) ∷ r; world = w })
            (record { table = (p, closing g) ∷ l ++ r; world = v })
    -- libuv reports one of the handles that it owes the closing of.
    closed :
        {w v : World} (l r : Table) (p : Ptr) (g : Callback)
        → uv_close_cb libuv p (record w { pending = owed_closes (l ++ r) }) ≡ done tt v
        → Step
            (record { table = l ++ (p, closing g) ∷ r; world = w })
            (record { table = l ++ r; world = v })

  -- A step that closes a handle, or that reports a handle that is closed.
  abbrev pub is_closing : {s u : State} → Step s u → Bool
  is_closing (closes _ _ _ _ _ _) = true
  is_closing (closed _ _ _ _ _) = true
  is_closing _ = false

  -- A sequence of such steps.
  pub data Drain : State → State → Type 0 where
    drained : {s : State} → Drain s s
    first : {s t u : State} (step : Step s t) → is_closing step ≡ true → Drain t u → Drain s u

  pub data Reach (s : State) : State → Type 0 where
    here : Reach s s
    after : {t u : State} → Reach s t → Step t u → Reach s u

-- A program that has done nothing yet.
abbrev pub nothing : State
nothing = record { table = []; world = record { heap = []; pending = []; log = [] } }

abbrev pub StateIsLive : UvHandle → State → Type 0
StateIsLive libuv s = IsLive libuv s.table s.world

-- The state of a report that ends.
abbrev ended_run : Bool → World → Run (Unit {0})
ended_run b w = if b then fault Fault.null_pointer else done tt w

ended : {w v : World} (b : Bool) → ended_run b w ≡ done tt v → w ≡ v
ended true e = absurd (cc e)
ended false e = cc e

module _ (libuv : UvHandle) (known : IsUvHandle libuv) (env : Env) (law : IsAllocator env)
    (lp : Ptr) (all_poll all_fs_event all_udp : ℕ) (address : UvAddress) where
  pub Step-IsLive :
      {s u : State}
      → Step libuv env lp all_poll all_fs_event all_udp address s u
      → StateIsLive libuv s
      → StateIsLive libuv u
  Step-IsLive (makes {t = t} {w = w} op p e) live =
      subst (λ m. Ends m (λ p. IsLive libuv ((p, opened (addl_of_new op)) ∷ t)) (IsLive libuv t)) e
        (make-IsLive libuv known env law lp all_poll all_fs_event all_udp address t w live op)
  Step-IsLive (make_fails {t = t} {w = w} op x e) live =
      subst (λ m. Ends m (λ p. IsLive libuv ((p, opened (addl_of_new op)) ∷ t)) (IsLive libuv t)) e
        (make-IsLive libuv known env law lp all_poll all_fs_event all_udp address t w live op)
  Step-IsLive (starts {w = w} l r p a op e) live =
      subst
        (λ m.
          Ends m (λ _. IsLive libuv ((p, opened (after_start op a)) ∷ l ++ r))
            (IsLive libuv ((p, opened (after_start op a)) ∷ l ++ r)))
        e
        (start-IsLive libuv known env law lp all_poll all_fs_event all_udp address l r p a w live
          op)
  Step-IsLive (start_fails {w = w} l r p a op x e) live =
      subst
        (λ m.
          Ends m (λ _. IsLive libuv ((p, opened (after_start op a)) ∷ l ++ r))
            (IsLive libuv ((p, opened (after_start op a)) ∷ l ++ r)))
        e
        (start-IsLive libuv known env law lp all_poll all_fs_event all_udp address l r p a w live
          op)
  Step-IsLive (fires {w = w} l r p a op e) live =
      subst (IsLive libuv (l ++ (p, opened a) ∷ r))
        (ended (unaddressed op a) (
          sym (
            fire-opened libuv known env law lp all_poll all_fs_event all_udp address l r p a w live
              op)
          ∙ e))
        live
  Step-IsLive (closes {w = w} l r p a g e) live =
      let k =
        close-opened libuv known env law lp all_poll all_fs_event all_udp address l r p a w live
          g in
      subst (λ m. Ends m (λ _. IsLive libuv ((p, closing g) ∷ l ++ r)) (λ _. ⊥)) (sym k.1 ∙ e) k.2
  Step-IsLive (closed {w = w} l r p g e) live =
      subst (λ m. Ends m (λ _. IsLive libuv (l ++ r)) (λ _. ⊥))
        (sym (
            uv_close_cb-closing libuv known env law lp all_poll all_fs_event all_udp address l r p g
              w live)
          ∙ e)
        (closed-IsLive libuv known env law lp all_poll all_fs_event all_udp address l r p g w live)
