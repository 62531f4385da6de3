-- ===== src/Fs/Scandir.antt =====
-- src/fs/mod.rs: directory listings through an iterator, which owns its request.
pub mod Laws
use libuv_rs.Common.{ℕ, List, Option, none, some}
use libuv_rs.Common.Int.{ℤ}
use libuv_rs.DirentType.{DirentType, UvDirentType, from_inner as dirent_type_from_inner}
use libuv_rs.Error.{Error}
pub use libuv_rs.Memory.{UvDirent}
use libuv_rs.Memory.{Ptr, Callback, cb, scandir_cb, nil, uv_fs_cb}
use libuv_rs.Memory.Effect.{
  Failure, uv, Eff, pure, ◌>>=◌, ◌>>◌, attempt, Env, Result, ok, err, use_c_callback, c_string_new,
  uvret,
}
use libuv_rs.Req.Fs.{FsReq, Uv, new, destroy, uv_fs_scandir}
use libuv_rs.Fs.{submit}

-- src/fs/dirent.rs.
pub record Dirent : Type 0 where
  pub name : List ℕ
  pub type_ : DirentType

unfoldable pub dirent_of : (UvDirentType → ℤ) → UvDirent → Dirent
unfolding dirent_type_from_inner
dirent_of value d = record { name = d.name; type_ = dirent_type_from_inner value d.type_ }

pub record ScandirIter : Type 0 where
  pub req : FsReq

module _ (env : Env) (libuv : Uv) (lp : Ptr) where
  unfoldable pub do_fs_scandir : List ℕ → ℤ → Callback → Eff FsReq
  do_fs_scandir path flags fs_cb = do
    let uv_cb = use_c_callback uv_fs_cb fs_cb
    path ← c_string_new path
    req ← new env libuv fs_cb
    submit env libuv lp req (uv_fs_scandir path flags) uv_cb

  -- The closure of the user is wrapped: it is given an iterator, dropped when it returns.
  unfoldable pub fs_scandir : List ℕ → ℤ → ℕ → Eff FsReq
  unfolding do_fs_scandir
  fs_scandir path flags f = do_fs_scandir path flags (scandir_cb f)

  unfoldable pub fs_scandir_sync : List ℕ → ℤ → Eff ScandirIter
  unfolding do_fs_scandir
  fs_scandir_sync path flags = do req ← do_fs_scandir path flags nil; pure (record { req = req })

  -- `drop` of the iterator.
  unfoldable pub drop_iter : ScandirIter → Eff (Unit {0})
  drop_iter iter = do destroy env libuv iter.req; pure tt

-- `ScandirIter::next`, over what `uv_fs_scandir_next` returns: its code and the entry it filled in.
module _ (env : Env) (value : UvDirentType → ℤ) where
  abbrev pub next_item : UvDirent → Result (Unit {0}) → Option (Result Dirent)
  unfolding dirent_of
  next_item d (ok _) = some (ok (dirent_of value d))
  next_item d (err (uv Error.eof)) = none
  next_item d (err e) = some (err e)

  unfoldable pub next : ℤ × UvDirent → Eff (Option (Result Dirent))
  unfolding uvret next_item
  next (code, d) = do result ← attempt (uvret env code); pure (next_item d result)
