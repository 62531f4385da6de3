-- ===== src/Fs/ReadDir/Laws.antt =====
-- src/fs/mod.rs: what reading a directory in chunks leaves behind.
use libuv_rs.Common.{◌≡◌, ap}
use libuv_rs.Memory.{Ptr}
use libuv_rs.Memory.Effect.{Env, World, IsAllocator, and_then, pure, status_of}
use libuv_rs.Req.Fs.{Uv, Dir, uv_fs_readdir}
use libuv_rs.Fs.Spec.{sync_spec}
use libuv_rs.Fs.Laws.{sync_lem}
use libuv_rs.Fs.Finish.{destroy_req_return_result_lem}
use libuv_rs.Fs.ReadDir.{do_fs_readdir, fs_readdir_sync}

module _ (env : Env) (law : IsAllocator env) (libuv : Uv) (lp : Ptr) (d : Dir) (w : World) where
  -- fs_readdir_sync follows the specification of the synchronous operations and restores the
  -- memory, and the directory that the caller has afterwards is unchanged: its length is not that
  -- of the entries read.
  pub fs_readdir_sync_lem :
      fs_readdir_sync env libuv lp d w
      ≡ and_then
          (sync_spec env libuv lp (uv_fs_readdir d.dir) w (λ g. status_of env g.result))
          (λ n. pure (n, d))
  unfolding fs_readdir_sync do_fs_readdir
  fs_readdir_sync_lem =
      ap (λ r. and_then r (λ n. pure (n, d)))
        (sync_lem env law libuv lp w (uv_fs_readdir d.dir) _ _
          (destroy_req_return_result_lem env libuv))
