-- ===== src/Fs/Ops/Keeps.antt =====
-- src/fs/mod.rs: the synchronous operations leave the state as they found it.
use libuv_rs.Common.{◌≡◌, refl, inl, inr, Bool-cases, ℕ, List, [], ◌∷◌, ◌==◌}
use libuv_rs.Common.Int.{is_neg}
use libuv_rs.Memory.{Ptr, null, nil, Fields, uv_fs_t}
use libuv_rs.Memory.Effect.{
  Env, World, Run, done, fails, fault, IsAllocator, Result, ok, err, has_nul, give_back,
}
use libuv_rs.Req.Fs.{Uv, FsCall}
use libuv_rs.Fs.Spec.{sync_spec, reply}
use libuv_rs.Fs.Ops.{Op, texts, call_of, with_all_texts, answer, run_sync}
use libuv_rs.Fs.Ops.Laws.{run_sync_lem}

-- `r` ends, without a fault, in the state `w`.
abbrev pub Keeps : {A : Type 0} → World → Run A → Type 0
Keeps w (done a v) = v ≡ w
Keeps w (fails e v) = v ≡ w
Keeps w (fault x) = ⊥

module _ (env : Env) (law : IsAllocator env) (libuv : Uv) (lp : Ptr) (w : World) where
  Keeps-give_back : {A : Type 0} (r : Result A) → Keeps w (give_back r w)
  Keeps-give_back (ok a) = refl
  Keeps-give_back (err e) = refl

  Keeps-sync_spec :
      {A : Type 0} (c : FsCall) (read : Fields → Result A)
      → Keeps w (sync_spec env libuv lp c w read)
  unfolding sync_spec
  Keeps-sync_spec c read = elim (Bool-cases (env.alloc w.heap uv_fs_t == null)) [
    | inl gone ↦ simp gone
    | inr got ↦ elim (Bool-cases (is_neg (reply env libuv lp c w nil).0)) [
      | inl bad ↦ simp (got, bad)
      | inr good ↦ simp (got, good) (Keeps-give_back (read (reply env libuv lp c w nil).1))
    ]
  ]

  Keeps-with_all_texts :
      {A : Type 0} (ss : List (List ℕ)) (r : Run A) → Keeps w r → Keeps w (with_all_texts ss w r)
  Keeps-with_all_texts [] r k = k
  Keeps-with_all_texts (s ∷ ss) r k = elim (Bool-cases (has_nul s)) [
    | inl bad ↦ simp bad
    | inr good ↦ simp good (Keeps-with_all_texts ss r k)
  ]

  -- Every synchronous operation of the family, in any state and whatever libuv answers, ends
  -- without a fault in the very state it began in: no memory is left over, no callback is pending
  -- and no closure was called.
  pub run_sync-Keeps : (op : Op) → Keeps w (run_sync env libuv lp op w)
  run_sync-Keeps op =
      rw (run_sync_lem env law libuv lp w op)
        (Keeps-with_all_texts (texts op) _ (Keeps-sync_spec (call_of op) (answer env libuv op)))
