-- ===== src/Fs/Traces.antt =====
-- src/fs/mod.rs and src/requests/fs.rs: programs that start file system operations, with callbacks
-- and without, while libuv reports the pending ones in any order.
use libuv_rs.Common.{
  ℕ, ◌≡◌, sym, subst, ◌∙◌, inl, inr, Option, none, some, List, [], ◌∷◌, ◌++◌, ◌==◌, Bool-cases,
  refl,
}
use libuv_rs.Common.Int.{is_neg}
use libuv_rs.Memory.{
  Ptr, null, CCallback, cb, Fields, Block, struct, Heap, lookup, update, erase, fs_data, uv_fs_t,
}
use libuv_rs.Memory.Effect.{
  Env, World, Run, done, fails, fault, Failure, note, IsAllocator, has_nul,
}
use libuv_rs.Memory.Laws.{ne_of_test}
use libuv_rs.Req.Owned.{new_request-Owned, erase-new_heap}
use libuv_rs.Memory.Frame.{Boxed-update}
use libuv_rs.Req.Fs.{FsReq, Uv, uv_fs_cb}
use libuv_rs.Req.Fs.Laws.{uv_fs_cb-Owned}
use libuv_rs.Fs.Spec.{submit_spec, reply}
use libuv_rs.Fs.Submit.{erase-written}
use libuv_rs.Fs.Ops.{Op, Outcome, start, run_sync, with_all_texts, texts, call_of}
use libuv_rs.Fs.Ops.Keeps.{run_sync-Keeps, Keeps}
use libuv_rs.Fs.Ops.Laws.{start_lem}
use libuv_rs.Fs.Live.{Live, no_request, request, Picked, pick}

-- libuv writes the fields of a request when it completes.
abbrev pub fill_block : Ptr → Fields → Heap → Option Block → Heap
fill_block p g h (some (struct l s)) = update p (struct l (record s { fields = g })) h
fill_block p g h _ = h

abbrev pub fill : Ptr → Fields → Heap → Heap
fill p g h = fill_block p g h (lookup p h)

-- Every end of a run has the invariant, and none is a fault.
abbrev pub EndsLive : {A : Type 0} → Run A → Type 0
EndsLive (done a v) = Live v.pending v.heap
EndsLive (fails e v) = Live v.pending v.heap
EndsLive (fault x) = ⊥

module _ (env : Env) (libuv : Uv) (lp : Ptr) where
  -- The state in which libuv calls back for one of its pending requests.
  abbrev pub completed : World → List (Ptr × CCallback) → Ptr → Fields → World
  completed w others p g = record w { heap = fill p g w.heap; pending = others }

  pub data Step : World → World → Type 0 where
    starts :
        {w v : World} (op : Op) (n : ℕ) (r : FsReq)
        → start env libuv lp op (cb n) w ≡ done r v
        → Step w v
    start_fails :
        {w v : World} (op : Op) (n : ℕ) (e : Failure)
        → start env libuv lp op (cb n) w ≡ fails e v
        → Step w v
    syncs : {w v : World} (op : Op) (a : Outcome) → run_sync env libuv lp op w ≡ done a v → Step w v
    sync_fails :
        {w v : World} (op : Op) (e : Failure) → run_sync env libuv lp op w ≡ fails e v → Step w v
    reports :
        {w v : World} (l r : List (Ptr × CCallback)) (p : Ptr) (c : CCallback) (g : Fields)
        → w.pending ≡ l ++ (p, c) ∷ r
        → uv_fs_cb env libuv p (completed w (l ++ r) p g) ≡ done tt v
        → Step w v

  pub data Reach (w : World) : World → Type 0 where
    here : Reach w w
    after : {v u : World} → Reach w v → Step v u → Reach w u

module _ (env : Env) (law : IsAllocator env) (libuv : Uv) (lp : Ptr) (w : World)
    (live : Live w.pending w.heap) where
  EndsLive-with_all_texts :
      {A : Type 0} (ss : List (List ℕ)) (r : Run A) → EndsLive r → EndsLive (with_all_texts ss w r)
  EndsLive-with_all_texts [] r k = k
  EndsLive-with_all_texts (s ∷ ss) r k = elim (Bool-cases (has_nul s)) [
    | inl bad ↦ simp bad live
    | inr good ↦ simp good (EndsLive-with_all_texts ss r k)
  ]

  pub start-EndsLive : (op : Op) (n : ℕ) → EndsLive (start env libuv lp op (cb n) w)
  unfolding submit_spec
  start-EndsLive op n = rw (start_lem env law libuv lp w op (cb n)) (
      EndsLive-with_all_texts (texts op) _ (elim (Bool-cases (env.alloc w.heap uv_fs_t == null)) [
        | inl gone ↦ simp gone live
        | inr got ↦ elim (Bool-cases (is_neg (reply env libuv lp (call_of op) w (cb n)).0)) [
          | inl bad ↦ simp (got, bad) live
          | inr good ↦
              simp (got, good)
                (request (new_request-Owned env law uv_fs_t (fs_data (cb n)) w (ne_of_test got) _) (
                  rw
                    (erase-new_heap env uv_fs_t w (fs_data (cb n))
                      (reply env libuv lp (call_of op) w (cb n)).1)
                    live))
        ]
      ]))

  Keeps-EndsLive : {A : Type 0} (r : Run A) → Keeps w r → EndsLive r
  Keeps-EndsLive (done a v) k = rw k live
  Keeps-EndsLive (fails e v) k = rw k live
  Keeps-EndsLive (fault _) k = elim k [ ]

  run_sync-EndsLive : (op : Op) → EndsLive (run_sync env libuv lp op w)
  run_sync-EndsLive op = Keeps-EndsLive _ (run_sync-Keeps env law libuv lp w op)

  module _ (l r : List (Ptr × CCallback)) (p : Ptr) (c : CCallback)
      (e : w.pending ≡ l ++ (p, c) ∷ r) where
    abbrev pub picked : Picked (l ++ r) w.heap p c
    picked = pick l r p c (rw (sym e) live)

    pub uv_fs_cb-completed :
        (g : Fields)
        → uv_fs_cb env libuv p (completed env libuv lp w (l ++ r) p g)
          ≡ done tt (record w {
            heap = erase p (erase picked.q w.heap);
            pending = l ++ r;
            log = note picked.n p none w.log;
          })
    uv_fs_cb-completed g = rw (picked.owned.p_holds) (
        rw
          (
            uv_fs_cb-Owned env libuv
                (record w {
                  heap =
                      update p (struct uv_fs_t (record { data_ptr = some picked.q; fields = g }))
                        w.heap;
                  pending = l ++ r;
                })
                (Boxed-update picked.owned g) picked.n refl,
            erase-written p picked.q
                (struct uv_fs_t (record { data_ptr = some picked.q; fields = g })) w.heap
                picked.owned.apart,
          )
          refl)

-- The state of a program that has done nothing yet.
abbrev pub idle : World
idle = record { heap = []; pending = []; log = [] }

module _ (env : Env) (law : IsAllocator env) (libuv : Uv) (lp : Ptr) where
  Step-Live : {w v : World} → Step env libuv lp w v → Live w.pending w.heap → Live v.pending v.heap
  Step-Live {w} (starts op n r e) live =
      subst EndsLive e (start-EndsLive env law libuv lp w live op n)
  Step-Live {w} (start_fails op n x e) live =
      subst EndsLive e (start-EndsLive env law libuv lp w live op n)
  Step-Live {w} (syncs op a e) live =
      subst EndsLive e (run_sync-EndsLive env law libuv lp w live op)
  Step-Live {w} (sync_fails op x e) live =
      subst EndsLive e (run_sync-EndsLive env law libuv lp w live op)
  Step-Live {w} (reports l r p c g split e) live =
      subst EndsLive (sym (uv_fs_cb-completed env law libuv lp w live l r p c split g) ∙ e)
        (picked env law libuv lp w live l r p c split).others

  pub Reach-Live : {w : World} → Reach env libuv lp idle w → Live w.pending w.heap
  Reach-Live here = no_request
  Reach-Live (after reach step) = Step-Live step (Reach-Live reach)

  Live-empty : {l : List (Ptr × CCallback)} {h : Heap} → Live l h → l ≡ [] → h ≡ []
  Live-empty no_request e = refl
  Live-empty (request o live) e = cc

  -- In every state that a program reaches from an empty memory by file system operations of the
  -- thirty-one kinds, with a callback or synchronous, refused or accepted, and by reports of
  -- pending requests in any order, if no request is pending then no block is live: nothing leaks,
  -- with any allocator that returns fresh addresses.
  pub Reach-no_leak : (w : World) → Reach env libuv lp idle w → w.pending ≡ [] → w.heap ≡ []
  Reach-no_leak w reach e = Live-empty (Reach-Live reach) e

  -- In every state that a program reaches from an empty memory by file system operations of the
  -- thirty-one kinds and by reports of pending requests in any order, starting any of these
  -- operations with a callback ends without a fault, with a request or an error, and in both cases
  -- the memory afterwards holds exactly the pending requests.
  pub Reach-start :
      (w : World)
      → Reach env libuv lp idle w
      → (op : Op) (n : ℕ) → EndsLive (start env libuv lp op (cb n) w)
  Reach-start w reach op n = start-EndsLive env law libuv lp w (Reach-Live reach) op n

  -- In every state that a program reaches from an empty memory by file system operations of the
  -- thirty-one kinds and by reports of pending requests in any order, for each pending request,
  -- wherever it stands among the pending ones and whatever libuv wrote into its fields, the C
  -- callback ends without a fault: it calls one closure of the user, once and on that request, and
  -- leaves in memory exactly the other pending requests, each with its own structure and data.
  pub Reach-uv_fs_cb :
      (w : World) (l r : List (Ptr × CCallback)) (p : Ptr) (c : CCallback) (g : Fields)
      → Reach env libuv lp idle w
      → w.pending ≡ l ++ (p, c) ∷ r
      → (n : ℕ) × (v : World) × (uv_fs_cb env libuv p (completed env libuv lp w (l ++ r) p g)
          ≡ done tt v)
        × Live (l ++ r) v.heap
        × (v.pending ≡ l ++ r)
        × (v.log ≡ note n p none w.log)
  Reach-uv_fs_cb w l r p c g reach split =
      let k = picked env law libuv lp w (Reach-Live reach) l r p c split in
      (
        k.n,
        _,
        uv_fs_cb-completed env law libuv lp w (Reach-Live reach) l r p c split g,
        k.others,
        refl,
        refl,
      )
