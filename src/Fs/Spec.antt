-- ===== src/Fs/Spec.antt =====
-- What an operation of the file system does, in one equation: the request is made, libuv is asked,
-- and the memory is left with a live request or as it was.
use libuv_rs.Common.{◌≡◌, ℕ, inl, inr, List, ◌==◌, Bool-cases, if◌then◌else◌}
use libuv_rs.Common.Int.{ℤ, is_neg}
use libuv_rs.Error.{Error, from_inner as error_from_inner}
use libuv_rs.Memory.{Ptr, null, Callback, CCallback, fs_data, Fields, uv_fs_t}
use libuv_rs.Memory.Effect.{
  uv, nul_error, has_nul, c_string_new, Env, World, Run, done, fails, Result, Eff, ◌>>=◌, give_back,
  use_c_callback,
}
use libuv_rs.Memory.Laws.{owed}
use libuv_rs.Req.Owned.{new_ptr, new_heap}
use libuv_rs.Req.Fs.{FsReq, FsCall, Uv}

module _ (env : Env) (libuv : Uv) (lp : Ptr) (c : FsCall) (w : World) where
  -- What libuv answers to the call on a new request.
  abbrev pub reply : Callback → ℤ × Fields
  reply f = libuv.uv_fs lp c (use_c_callback CCallback.uv_fs_cb f) env.garbage

  abbrev pub fs_ptr : Ptr
  fs_ptr = new_ptr env uv_fs_t w

  -- The state with the request live, its callback owed if it has one.
  abbrev pub submitted : Callback → World
  submitted f = record w {
    heap = new_heap env uv_fs_t w (fs_data f) (reply f).1;
    pending = owed fs_ptr (use_c_callback CCallback.uv_fs_cb f) w.pending;
  }

  -- No memory, refused by libuv, or accepted.
  unfoldable pub submit_spec : Callback → Run FsReq
  submit_spec f =
      if fs_ptr == null
      then fails (uv Error.enomem) w
      else if is_neg (reply f).0
      then fails (uv (error_from_inner env.errno (reply f).0)) w
      else done (record { req = fs_ptr }) (submitted f)

  -- A call without a callback: the outcome, read from the request; the state is as before.
  unfoldable pub sync_spec : {A : Type 0} → (Fields → Result A) → Run A
  sync_spec read =
      if fs_ptr == null
      then fails (uv Error.enomem) w
      else if is_neg (reply Callback.nil).0
      then fails (uv (error_from_inner env.errno (reply Callback.nil).0)) w
      else give_back (read (reply Callback.nil).1) w

-- A text with an inner zero byte is refused before anything else.
abbrev pub with_text : {A : Type 0} → List ℕ → World → Run A → Run A
with_text s w r = if has_nul s then fails nul_error w else r

abbrev pub with_texts : {A : Type 0} → List ℕ → List ℕ → World → Run A → Run A
with_texts s t w r = with_text s w (with_text t w r)

pub by_text :
    {A : Type 0} (s : List ℕ) (w : World) (m : List ℕ → Eff A) {r : Run A}
    → m s w ≡ r
    → (c_string_new s >>= m) w ≡ with_text s w r
unfolding c_string_new
by_text s w m e = elim (Bool-cases (has_nul s)) [ inl bad ↦ simp bad | inr good ↦ simp good e ]

pub by_texts :
    {A : Type 0} (s t : List ℕ) (w : World) (m : List ℕ → List ℕ → Eff A) {r : Run A}
    → m s t w ≡ r
    → (c_string_new s >>= λ s'. c_string_new t >>= m s') w ≡ with_texts s t w r
by_texts s t w m e = by_text s w (λ s'. c_string_new t >>= m s') (by_text t w (m s) e)

-- The same where the operation goes on with its request.
module _ {A B : Type 0} (k : A → Eff B) where
  pub by_text_then :
      (s : List ℕ) (w : World) (m : List ℕ → Eff A) {r : Run B}
      → (m s >>= k) w ≡ r
      → ((c_string_new s >>= m) >>= k) w ≡ with_text s w r
  unfolding c_string_new
  by_text_then s w m e = elim (Bool-cases (has_nul s)) [
    | inl bad ↦ simp bad
    | inr good ↦ simp good e
  ]

  pub by_texts_then :
      (s t : List ℕ) (w : World) (m : List ℕ → List ℕ → Eff A) {r : Run B}
      → (m s t >>= k) w ≡ r
      → ((c_string_new s >>= λ s'. c_string_new t >>= m s') >>= k) w ≡ with_texts s t w r
  by_texts_then s t w m e =
      by_text_then s w (λ s'. c_string_new t >>= m s') (by_text_then t w (m s) e)
