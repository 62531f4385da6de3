-- ===== src/Fs/Submit.antt =====
-- src/fs/mod.rs: the call of libuv on a live request, whatever else is in memory.
use libuv_rs.Common.{◌≡◌, inl, inr, none, some, Bool-cases, if◌then◌else◌, ==_ne, sym}
use libuv_rs.Common.Int.{ℤ, is_neg}
use libuv_rs.Error.{from_inner as error_from_inner}
use libuv_rs.Memory.{
  Ptr, null, Callback, CCallback, fs_data, Fields, uv_fs_t, struct, Heap, Block, update, erase,
}
use libuv_rs.Memory.Effect.{
  uv, Env, World, done, fails, Result, Eff, ◌>>=◌, give_back, use_c_callback, uvret,
}
use libuv_rs.Memory.Laws.{owe-neg, owe-pos, owed, erase_comm, erase-update}
use libuv_rs.Req.Owned.{Owned}
use libuv_rs.Memory.Frame.{Boxed-update}
use libuv_rs.Req.Fs.{FsReq, FsCall, Uv}
use libuv_rs.Req.Fs.Laws.{destroy-Owned}
use libuv_rs.Fs.{submit}
use libuv_rs.Fs.Laws.{Finishes}

pub erase-written :
    (p q : Ptr) (b : Block) (h : Heap)
    → ((q ≡ p) → ⊥)
    → erase p (erase q (update p b h)) ≡ erase p (erase q h)
erase-written p q b h ne =
    rw (erase_comm p q (update p b h) ne, erase-update p b h) (sym (erase_comm p q h ne))

module _ (env : Env) (libuv : Uv) (lp : Ptr) {p q : Ptr} {f : Callback} {g : Fields} (v : World)
    (o : Owned v.heap uv_fs_t p q (fs_data f) g) (c : FsCall) where
  abbrev pub answered : ℤ × Fields
  answered = libuv.uv_fs lp c (use_c_callback CCallback.uv_fs_cb f) g

  -- The state without the request and its data.
  abbrev pub destroyed : World
  destroyed = record v { heap = erase p (erase q v.heap) }

  abbrev pub accepted : World
  accepted = record v {
    heap = update p (struct uv_fs_t (record { data_ptr = some q; fields = answered.1 })) v.heap;
    pending = owed p (use_c_callback CCallback.uv_fs_cb f) v.pending;
  }

  pub submit-Owned :
      submit env libuv lp (record { req = p }) c (use_c_callback CCallback.uv_fs_cb f) v ≡ (
        if is_neg answered.0
        then fails (uv (error_from_inner env.errno answered.0)) destroyed
        else done (record { req = p }) accepted)
  unfolding submit uvret
  submit-Owned = elim (Bool-cases (is_neg answered.0)) [
    | inl bad ↦ simp (
      ==_ne p null o.p_not_null,
      o.p_holds,
      owe-neg _ _ _ _ bad,
      bad,
      destroy-Owned env libuv _ (Boxed-update o answered.1),
      erase-written p q _ v.heap o.apart,
    )
    | inr good ↦ simp (==_ne p null o.p_not_null, o.p_holds, owe-pos _ _ _ _ good, good)
  ]

module _ (env : Env) (libuv : Uv) (lp : Ptr) {p q : Ptr} {g : Fields} (v : World)
    (o : Owned v.heap uv_fs_t p q (fs_data Callback.nil) g) (c : FsCall) where
  pub submit_finish :
      {A : Type 0} (finish : FsReq → Eff A) (read : Fields → Result A)
      → Finishes finish read
      → (submit env libuv lp (record { req = p }) c none >>= finish) v ≡ (
          if is_neg (answered env libuv lp v o c).0
          then fails
              (uv (error_from_inner env.errno (answered env libuv lp v o c).0))
              (destroyed env libuv lp v o c)
          else give_back (read (answered env libuv lp v o c).1) (destroyed env libuv lp v o c))
  submit_finish finish read ends = elim (Bool-cases (is_neg (answered env libuv lp v o c).0)) [
    | inl bad ↦ simp (submit-Owned env libuv lp v o c, bad)
    | inr good ↦ simp (
      submit-Owned env libuv lp v o c,
      good,
      ends (accepted env libuv lp v o c) _ _ _ (Boxed-update o (answered env libuv lp v o c).1),
      erase-written p q _ v.heap o.apart,
    )
  ]
