-- ===== src/Fs/Scandir/Laws.antt =====
-- src/fs/mod.rs: directory listings, the iterator's life and its items.
use libuv_rs.Common.{◌≡◌, ◌≢◌, refl, ap, true, none, some, ℕ, List}
use libuv_rs.Common.Int.{ℤ, is_neg}
use libuv_rs.Common.Table.{is_distinct}
use libuv_rs.Error.{Error, UvErrno, constants}
use libuv_rs.Error.Places.{meaning}
use libuv_rs.Error.RoundTrip.{from_inner-value}
use libuv_rs.Memory.{Ptr, nil}
use libuv_rs.Memory.Effect.{
  Env, World, Run, done, fails, fault, and_then, IsAllocator, ok, err, uv, Eff, ◌>>=◌, pure,
}
use libuv_rs.Req.Fs.{FsReq, Uv, uv_fs_scandir}
use libuv_rs.Req.Fs.Laws.{destroy-Owned}
use libuv_rs.DirentType.{UvDirentType}
use libuv_rs.Fs.Spec.{sync_spec, with_text, by_text_then}
use libuv_rs.Fs.Laws.{Finishes, sync_lem}
use libuv_rs.Fs.Scandir.{UvDirent, do_fs_scandir, fs_scandir_sync, drop_iter, next, next_item}

and_then_assoc :
    {A B C : Type 0} (r : Run A) (k : A → Eff B) (m : B → Eff C)
    → and_then (and_then r k) m ≡ and_then r (λ a v. and_then (k a v) m)
and_then_assoc (done a w) k m = refl
and_then_assoc (fails e w) k m = refl
and_then_assoc (fault x) k m = refl

module _ (env : Env) (law : IsAllocator env) (libuv : Uv) (lp : Ptr) where
  -- The iterator made and dropped, without an item taken.
  abbrev pub made_and_dropped : FsReq → Eff (Unit {0})
  made_and_dropped req = drop_iter env libuv lp (record { req = req })

  made_and_dropped_lem : Finishes made_and_dropped (λ _. ok tt)
  unfolding drop_iter
  made_and_dropped_lem v p q g o = simp (destroy-Owned env libuv v o)

  -- A synchronous listing whose iterator is dropped reports the errors of the operation and
  -- restores the memory on every branch: the request is freed once.
  pub fs_scandir_sync-drop_iter :
      (path : List ℕ) (flags : ℤ) (w : World)
      → (fs_scandir_sync env libuv lp path flags >>= drop_iter env libuv lp) w
        ≡ with_text path w (sync_spec env libuv lp (uv_fs_scandir path flags) w (λ _. ok tt))
  unfolding fs_scandir_sync do_fs_scandir
  fs_scandir_sync-drop_iter path flags w =
      rw
        (and_then_assoc (do_fs_scandir env libuv lp path flags nil w)
          (λ req. pure (record { req = req })) (drop_iter env libuv lp))
        (by_text_then made_and_dropped path w _
          (sync_lem env law libuv lp w (uv_fs_scandir path flags) _ _ made_and_dropped_lem))

next_item-error :
    (env : Env) (value : UvDirentType → ℤ) (d : UvDirent) (e : Error)
    → e ≢ Error.eof
    → next_item env value d (err (uv e)) ≡ some (err (uv e))
unfolding next_item
next_item-error env value d Error.eof ne = absurd (ne refl)
next_item-error env value d _ ne = refl

module _ (env : Env) (value : UvDirentType → ℤ) (distinct : is_distinct env.errno constants ≡ true)
    (d : UvDirent) (w : World) where
  -- With distinct error constants, a negative end-of-file code ends the iteration and is not
  -- passed on as an error.
  pub next-eof :
      is_neg (env.errno UvErrno.eof) ≡ true
      → next env value (env.errno UvErrno.eof, d) w ≡ done none w
  unfolding next
  next-eof neg = rw (neg, from_inner-value env.errno distinct UvErrno.eof)

  -- With distinct error constants, the iterator passes every negative code of a named libuv error
  -- other than end of file on as that error.
  pub next-error :
      (c : UvErrno)
      → is_neg (env.errno c) ≡ true
      → meaning c ≢ Error.eof
      → next env value (env.errno c, d) w ≡ done (some (err (uv (meaning c)))) w
  unfolding next
  next-error c neg other =
      rw (neg, from_inner-value env.errno distinct c)
        (ap (λ i. done i w) (next_item-error env value d (meaning c) other))
