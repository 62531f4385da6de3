-- ===== src/Misc/Title.antt =====
-- src/misc/mod.rs: the loop that reads the process title ends.
use libuv_rs.Common.{
  ℕ, zero, suc, ◌+◌, ◌*◌, ◌^◌, ◌<◌, ◌≤◌, ◌≡◌, refl, true, false, some, List, length, ltb, inl, inr,
  Bool-cases, arith,
}
use libuv_rs.Common.Int.{pos, is_neg}
use libuv_rs.Common.Table.{is_distinct}
use libuv_rs.Error.{UvErrno, constants}
use libuv_rs.Error.RoundTrip.{from_inner-value}
use libuv_rs.Memory.Effect.{Env, World, done}
use libuv_rs.Buf.Storage.{isize_max}
use libuv_rs.Misc.{UvMisc, title_loop, get_process_title}

-- What libuv documents: a buffer that is longer than the title gets it, any other that has bytes
-- the code UV_ENOBUFS; the codes are distinct and that one is negative.
pub record HasTitle (env : Env) (libuv : UvMisc) (title : List ℕ) : Type 0 where
  pub enough :
      (w : World) (size : ℕ)
      → length title < size
      → libuv.uv_get_process_title w size ≡ (pos 0, title)
  pub short :
      (w : World) (size : ℕ)
      → 0 < size
      → size ≤ length title
      → (libuv.uv_get_process_title w size).0 ≡ env.errno UvErrno.enobufs
  pub codes_distinct : is_distinct env.errno constants ≡ true
  pub enobufs_negative : is_neg (env.errno UvErrno.enobufs) ≡ true

in_range : (size : ℕ) → size < 2 ^ 62 → ltb isize_max (size * 2) ≡ false
in_range size h = ground arith

module _ (env : Env) (libuv : UvMisc) (title : List ℕ) (has : HasTitle env libuv title) (w : World)
    (short_title : length title < 2 ^ 62) where
  loop_done :
      (fuel size : ℕ)
      → 0 < size
      → 0 < fuel
      → length title < size + fuel
      → size < 2 ^ 62
      → title_loop env libuv fuel size w ≡ done (some title) w
  unfolding title_loop
  loop_done zero size p f h s = ground arith
  loop_done (suc fuel) size p f h s = elim (Bool-cases (ltb (length title) (size * 2))) [
    | inl long ↦ rw (in_range size s, has.enough w (size * 2) (ground arith)) refl
    | inr small ↦
        rw
          (
            in_range size s,
            has.short w (size * 2) (ground arith) (ground arith),
            has.enobufs_negative,
            from_inner-value env.errno has.codes_distinct UvErrno.enobufs,
          )
          (loop_done fuel (size * 2) (ground arith) (ground arith) (ground arith) (ground arith))
  ]

  -- The loop that reads the process title ends with the title, for a title shorter than 2 ^ 62
  -- bytes, after at most one iteration more than the title has bytes, if libuv gives the title to
  -- every buffer that is longer and refuses every other that is not empty with UV_ENOBUFS.
  pub get_process_title-done :
      get_process_title env libuv (length title + 1) w ≡ done (some title) w
  unfolding get_process_title
  get_process_title-done =
      loop_done (length title + 1) 16 (ground arith) (ground arith) (ground arith) (ground arith)
