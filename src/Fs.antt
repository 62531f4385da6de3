-- ===== src/Fs.antt =====
-- src/fs/mod.rs: the file system operations of the loop. Each has a private function that makes the
-- request and calls libuv, an asynchronous one with a callback, and a synchronous one without.
pub mod Bufs
pub mod Cwd
pub mod DirEntries
pub mod Lifecycle
pub mod ReadDir
pub mod Scandir
pub mod Laws
pub mod Finish
pub mod Live
pub mod Spec
pub mod Traces
pub mod Submit
pub mod Files
pub mod Ops
pub mod Owners
pub mod Paths
pub mod Pairs
pub mod Queries
use libuv_rs.Common.{ℕ, ◌+◌, ◌-◌, ◌%◌, ◌^◌, Bool, Option, none, some, List, ltb, if◌then◌else◌}
use libuv_rs.Common.Int.{ℤ, pos, negsuc}
use libuv_rs.Error.{Error}
use libuv_rs.Memory.{Ptr, CCallback, struct}
use libuv_rs.Memory.Effect.{
  Failure, uv, Eff, pure, throw, ◌>>=◌, ◌>>◌, attempt, give_back, is_err, when, Env, Result, ok,
  err, load_struct, store, owe, uvret,
}
use libuv_rs.Req.Fs.{FsReq, FsCall, Uv, Dir, destroy, result, path, stat, dir, statfs, real_path}
use libuv_rs.FsStat.{Stat, StatFs}

-- `result.map(|_| req)`, given back to the caller.
abbrev pub map_ok : {A B : Type 0} → B → Result A → Eff B
map_ok b (ok _) = pure b
map_ok b (err e) = throw e

-- `option.ok_or_else(|| Box::new(Error::EINVAL))`.
abbrev pub ok_or_einval : {A : Type 0} → Option A → Result A
ok_or_einval none = err (uv Error.einval)
ok_or_einval (some a) = ok a

-- `usize as i32`.
unfoldable pub as_i32 : ℕ → ℤ
as_i32 n = let m = n % 2 ^ 32 in if ltb m (2 ^ 31) then pos m else negsuc (2 ^ 32 - m - 1)

abbrev pub map_file : Result ℕ → Eff ℤ
map_file (ok f) = pure (as_i32 f)
map_file (err e) = throw e

module _ (env : Env) (libuv : Uv) where
  -- What every private function ends with: the call of libuv, the request destroyed if libuv refuses
  -- it, and else returned.
  unfoldable pub submit : Ptr → FsReq → FsCall → Option CCallback → Eff FsReq
  unfolding load_struct store
  submit lp req c uv_cb = do
    (l, s) ← load_struct req.req
    let reply = libuv.uv_fs lp c uv_cb s.fields
    store req.req (struct l (record s { fields = reply.1 }))
    owe req.req uv_cb reply.0
    result ← attempt (uvret env reply.0)
    when (is_err result) (destroy env libuv req >>= λ _. pure tt)
    map_ok req result

  unfoldable pub destroy_req_return_result : FsReq → Eff ℕ
  destroy_req_return_result req = do
    r ← attempt (result env libuv req)
    destroy env libuv req
    give_back r

  unfoldable pub destroy_req_return_boxed_result : FsReq → Eff ℕ
  destroy_req_return_boxed_result req = destroy_req_return_result req

  -- The closures that the other synchronous functions end with.
  unfoldable pub then_file : FsReq → Eff ℤ
  then_file req = do file ← attempt (result env libuv req); destroy env libuv req; map_file file

  unfoldable pub then_path : FsReq → Eff (List ℕ)
  then_path req = do p ← path env libuv req; destroy env libuv req; pure p

  unfoldable pub then_stat : FsReq → Eff Stat
  then_stat req = do s ← stat env libuv req; destroy env libuv req; pure s

  unfoldable pub then_dir : FsReq → Eff Dir
  then_dir req = do d ← dir env libuv req; destroy env libuv req; give_back (ok_or_einval d)

  unfoldable pub then_statfs : FsReq → Eff StatFs
  then_statfs req = do s ← statfs env libuv req; destroy env libuv req; give_back (ok_or_einval s)

  unfoldable pub then_real_path : FsReq → Eff (List ℕ)
  then_real_path req = do
    p ← real_path env libuv req
    destroy env libuv req
    give_back (ok_or_einval p)
