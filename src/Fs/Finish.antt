-- ===== src/Fs/Finish.antt =====
-- The ways in which the synchronous operations end.
use libuv_rs.Common.{ℕ, Bool-cases, inl, inr, ==_ne}
use libuv_rs.Common.Int.{ℤ, is_neg}
use libuv_rs.FsStat.{stat_of}
use libuv_rs.FsType.{from_inner as fs_type_from_inner}
use libuv_rs.Memory.{null}
use libuv_rs.Memory.Effect.{Env, Result, ok, err, status_of, uvret}
use libuv_rs.Req.Fs.{
  Uv, dir_for, statfs_for, real_path_for, result, path, stat, dir, statfs, real_path,
}
use libuv_rs.Req.Fs.Laws.{destroy-Owned}
use libuv_rs.Fs.{
  as_i32, ok_or_einval, destroy_req_return_result, destroy_req_return_boxed_result, then_file,
  then_path, then_stat, then_dir, then_statfs, then_real_path,
}
use libuv_rs.Fs.Laws.{Finishes}

-- A descriptor from the result of the request.
abbrev pub file_result : Result ℕ → Result ℤ
file_result (ok f) = ok (as_i32 f)
file_result (err e) = err e

module _ (env : Env) (libuv : Uv) where
  pub destroy_req_return_result_lem :
      Finishes (destroy_req_return_result env libuv) (λ g. status_of env g.result)
  unfolding destroy_req_return_result result uvret status_of
  destroy_req_return_result_lem v p q g o = elim (Bool-cases (is_neg g.result)) [
    | inl bad ↦ simp (==_ne p null o.p_not_null, o.p_holds, bad, destroy-Owned env libuv v o)
    | inr good ↦ simp (==_ne p null o.p_not_null, o.p_holds, good, destroy-Owned env libuv v o)
  ]

  pub destroy_req_return_boxed_result_lem :
      Finishes (destroy_req_return_boxed_result env libuv) (λ g. status_of env g.result)
  unfolding destroy_req_return_boxed_result
  destroy_req_return_boxed_result_lem = destroy_req_return_result_lem

  pub then_path_lem : Finishes (then_path env libuv) (λ g. ok g.path)
  unfolding then_path path
  then_path_lem v p q g o = simp (==_ne p null o.p_not_null, o.p_holds, destroy-Owned env libuv v o)

  pub then_dir_lem :
      Finishes
        (then_dir env libuv)
        (λ g. ok_or_einval (dir_for (fs_type_from_inner libuv.fs_type g.type_) g.ptr))
  unfolding then_dir dir
  then_dir_lem v p q g o = simp (==_ne p null o.p_not_null, o.p_holds, destroy-Owned env libuv v o)

  pub then_file_lem : Finishes (then_file env libuv) (λ g. file_result (status_of env g.result))
  unfolding then_file result uvret status_of
  then_file_lem v p q g o = elim (Bool-cases (is_neg g.result)) [
    | inl bad ↦ simp (==_ne p null o.p_not_null, o.p_holds, bad, destroy-Owned env libuv v o)
    | inr good ↦ simp (==_ne p null o.p_not_null, o.p_holds, good, destroy-Owned env libuv v o)
  ]

  pub then_stat_lem : Finishes (then_stat env libuv) (λ g. ok (stat_of g.statbuf))
  unfolding then_stat stat
  then_stat_lem v p q g o = simp (==_ne p null o.p_not_null, o.p_holds, destroy-Owned env libuv v o)

  pub then_statfs_lem :
      Finishes
        (then_statfs env libuv)
        (λ g. ok_or_einval (statfs_for env libuv (fs_type_from_inner libuv.fs_type g.type_) g.ptr))
  unfolding then_statfs statfs
  then_statfs_lem v p q g o =
      simp (==_ne p null o.p_not_null, o.p_holds, destroy-Owned env libuv v o)

  pub then_real_path_lem :
      Finishes (then_real_path env libuv) (λ g.
        ok_or_einval (real_path_for env libuv (fs_type_from_inner libuv.fs_type g.type_) g.ptr))
  unfolding then_real_path real_path
  then_real_path_lem v p q g o =
      simp (==_ne p null o.p_not_null, o.p_holds, destroy-Owned env libuv v o)
