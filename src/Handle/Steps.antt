-- ===== src/Handle/Steps.antt =====
-- src/handles: one operation on a memory that holds exactly the handles of a table.
use libuv_rs.Common.{
  ℕ, ◌≡◌, ◌≢◌, refl, ap, ◌∙◌, inl, inr, ◌∷◌, ◌++◌, ◌==◌, Bool-cases, if◌then◌else◌, false,
}
use libuv_rs.Common.Int.{is_neg}
use libuv_rs.Memory.{
  Ptr, null, Callback, CCallback, AddlHandleData, HandleData, handle_data, update,
}
use libuv_rs.Memory.Effect.{Env, World, Run, IsAllocator, done, fails, fault, has_nul}
use libuv_rs.Memory.Laws.{ne_of_test}
use libuv_rs.Memory.Boxed.{erase-fresh_heap}
use libuv_rs.Handle.{UvHandle, close, uv_close_cb}
use libuv_rs.Handle.Owned.{close-Owned, uv_close_cb-Owned, noted}
use libuv_rs.Handle.Make.{fresh_data}
use libuv_rs.Handle.Makes.{IsUvHandle, make_lem, make-HandleOwned, layout_of-type_of_call}
use libuv_rs.Handle.Starts.{start_lem_handle, stored_world}
use libuv_rs.Handle.Fires.{fire_lem, fired}
use libuv_rs.Socket.Address.{UvAddress}
use libuv_rs.Handle.Ops.{NewOp, StartOp, FireOp, make, start, fire}
use libuv_rs.Handle.Spec.{
  layout_of_new, addl_of_new, made_ptr, made_answer, boxed_fields, made_heap, made_box, stored,
  path_of, start_answer,
}
use libuv_rs.Handle.Live.{
  Status, opened, closing, Table, Fits, owed_closes, owed_closes-opened, without, Live, handle,
  Picked, pick, Handled-set_box, Live-set_box,
}

-- What a start leaves in the table: a refused path leaves the data as it was.
abbrev pub after_start : StartOp → AddlHandleData → AddlHandleData
after_start op a = if has_nul (path_of op) then a else stored op a

-- The end of a run: with a value, with an error, and never in a fault.
abbrev pub Ends : {A : Type 0} → Run A → (A → World → Type 0) → (World → Type 0) → Type 0
Ends (done a v) P Q = P a v
Ends (fails e v) P Q = Q v
Ends (fault x) P Q = ⊥

-- The memory and what libuv owes are what the table says.
abbrev pub IsLive : UvHandle → Table → World → Type 0
IsLive libuv t w = Live libuv t w.heap × (w.pending ≡ owed_closes t)

module _ (libuv : UvHandle) (known : IsUvHandle libuv) (env : Env) (law : IsAllocator env)
    (lp : Ptr) (all_poll all_fs_event all_udp : ℕ) (address : UvAddress) where
  made-Handled :
      {t : Table} (op : NewOp) (w : World)
      → made_ptr libuv env lp op w ≢ null
      → is_neg (made_answer libuv env lp op w).0 ≡ false
      → Live libuv t w.heap
      → Live libuv
          ((made_ptr libuv env lp op w, opened (addl_of_new op)) ∷ t)
          (made_heap libuv env lp op w)
  made-Handled op w got good live =
      handle
        (record {
          l = layout_of_new op;
          q = made_box libuv env lp op w;
          f = (made_answer libuv env lp op w).1;
          owned = make-HandleOwned libuv env law lp w op got;
          known = rw (known.type_set _ _ _ _ _ good) (layout_of-type_of_call libuv known op);
        })
        (refl, refl)
        (rw
          (erase-fresh_heap env (layout_of_new op) (boxed_fields libuv env lp op w) w.heap
            (handle_data (fresh_data (addl_of_new op))) (made_answer libuv env lp op w).1)
          live)

  module _ (t : Table) (w : World) (live : IsLive libuv t w) where
    pub make-IsLive :
        (op : NewOp)
        → Ends
            (make libuv env lp op w)
            (λ p. IsLive libuv ((p, opened (addl_of_new op)) ∷ t))
            (IsLive libuv t)
    unfolding owed_closes
    make-IsLive op =
        rw (make_lem libuv env law lp w op)
          (elim (Bool-cases (made_ptr libuv env lp op w == null)) [
            | inl gone ↦ simp gone live
            | inr got ↦ elim (Bool-cases (is_neg (made_answer libuv env lp op w).0)) [
              | inl bad ↦ simp (got, bad) live
              | inr good ↦ simp (got, good) (made-Handled op w (ne_of_test got) good live.0, live.1)
            ]
          ])

  module _ (l r : Table) (p : Ptr) (a : AddlHandleData) (w : World)
      (live : IsLive libuv (l ++ (p, opened a) ∷ r) w) where
    abbrev picked : Picked libuv (l ++ r) w.heap p (opened a)
    picked = pick libuv l r p (opened a) live.0

    -- New data for the handle.
    set_data :
        (e : HandleData) (s : Status)
        → Fits s e
        → Live libuv ((p, s) ∷ l ++ r) (update picked.handled.q (handle_data e) w.heap)
    set_data e s fits =
        handle (Handled-set_box libuv picked.handled e) fits
          (Live-set_box libuv picked.handled e picked.others)

    stored-IsLive :
        (op : StartOp)
        → IsLive libuv
            ((p, opened (stored op a)) ∷ l ++ r)
            (stored_world libuv env w picked.handled.owned op)
    unfolding owed_closes
    stored-IsLive op = (
      set_data _ _ (picked.fits.0, ap (stored op) picked.fits.1),
      live.1 ∙ owed_closes-opened l r p a,
    )

    kept-IsLive : IsLive libuv ((p, opened a) ∷ l ++ r) w
    unfolding owed_closes
    kept-IsLive =
        (handle picked.handled picked.fits picked.others, live.1 ∙ owed_closes-opened l r p a)

    pub start-IsLive :
        (op : StartOp)
        → Ends
            (start libuv env op p w)
            (λ _. IsLive libuv ((p, opened (after_start op a)) ∷ l ++ r))
            (IsLive libuv ((p, opened (after_start op a)) ∷ l ++ r))
    start-IsLive op =
        rw (start_lem_handle libuv env w picked.handled.owned op)
          (elim (Bool-cases (has_nul (path_of op))) [
            | inl bad ↦ simp bad kept-IsLive
            | inr fine ↦
                elim (Bool-cases (
                  is_neg (
                    start_answer libuv env op p
                      (stored_world libuv env w picked.handled.owned op)))) [
                        | inl bad ↦ simp (fine, bad) (stored-IsLive op)
                        | inr good ↦ simp (fine, good) (stored-IsLive op)
                      ]
          ])

    pub fire-opened :
        (op : FireOp)
        → fire env all_poll all_fs_event all_udp address op p w
          ≡ fired env all_poll all_fs_event all_udp address op a p w
    fire-opened op =
        fire_lem env all_poll all_fs_event all_udp address w picked.handled.owned op
        ∙ ap (λ b. fired env all_poll all_fs_event all_udp address op b p w) picked.fits.1

    pub close-opened :
        (g : Callback)
        → (v : World) × (close p g w ≡ done tt v) × IsLive libuv ((p, closing g) ∷ l ++ r) v
    unfolding owed_closes
    close-opened g = (
      _,
      close-Owned w picked.handled.owned g,
      (
        set_data _ _ refl,
        ap (λ k. (p, CCallback.uv_close_cb) ∷ k) (live.1 ∙ owed_closes-opened l r p a),
      ),
    )

  module _ (l r : Table) (p : Ptr) (g : Callback) (w : World)
      (live : IsLive libuv (l ++ (p, closing g) ∷ r) w) where
    abbrev closing_one : Picked libuv (l ++ r) w.heap p (closing g)
    closing_one = pick libuv l r p (closing g) live.0

    -- The state after the report.
    abbrev pub closed_world : World
    closed_world = record w {
      heap = without libuv closing_one.handled;
      pending = owed_closes (l ++ r);
      log = noted g p w.log;
    }

    pub uv_close_cb-closing :
        uv_close_cb libuv p (record w { pending = owed_closes (l ++ r) }) ≡ done tt closed_world
    uv_close_cb-closing =
        uv_close_cb-Owned libuv closing_one.handled.known
          (record w { pending = owed_closes (l ++ r) }) closing_one.handled.owned
        ∙ ap
            (λ f. done tt (record w {
              heap = without libuv closing_one.handled;
              pending = owed_closes (l ++ r);
              log = noted f p w.log;
            }))
            closing_one.fits

    pub closed-IsLive : IsLive libuv (l ++ r) closed_world
    closed-IsLive = (closing_one.others, refl)
