-- ===== src/Fs/Cwd.antt =====
-- src/fs/misc.rs: the working directory and the path of the program.
pub mod Laws
use libuv_rs.Common.{
  ℕ, zero, suc, ◌+◌, ◌-◌, ◌*◌, ◌^◌, ◌==◌, Option, none, some, List, length, ltb, if◌then◌else◌,
  take,
}
use libuv_rs.Common.Int.{ℤ}
use libuv_rs.HandleType.{HandleType, UvHandleType, from_inner as handle_type_from_inner}
use libuv_rs.Memory.Effect.{
  World, Fault, Eff, pure, crash, ◌>>=◌, ◌>>◌, Env, ask, uvret, c_string_new,
}
use libuv_rs.Buf.Storage.{isize_max}
use libuv_rs.Texts.{UvText, uv_cwd, uv_cwd_null, uv_exepath, text_of}

unfoldable pub chdir : Env → (World → List ℕ → ℤ) → List ℕ → Eff (Unit {0})
unfolding c_string_new ask uvret
chdir env uv_chdir path = do s ← c_string_new path; code ← ask (λ w. uv_chdir w s); uvret env code

-- `set_len(size)`, and the text up to the last byte.
unfoldable pub cwd_text : (capacity size : ℕ) → List ℕ → Eff (List ℕ)
cwd_text capacity size bytes =
    if ltb capacity size
    then crash Fault.out_of_bounds
    else if ltb (length bytes) size
    then crash Fault.uninitialised
    else if size == 0
    then crash Fault.out_of_bounds
    else pure (take (size - 1) bytes)

module _ (env : Env) (libuv : UvText) where
  -- The first call, `uv_cwd_null`, has a null buffer; its code is not looked at.
  unfoldable pub cwd : Eff (List ℕ)
  unfolding ask uvret cwd_text
  cwd = do
    first ← ask (λ w. libuv.uv_text w uv_cwd_null 0)
    if ltb isize_max first.1 then crash Fault.panic else (do
      second ← ask (λ w. libuv.uv_text w uv_cwd first.1)
      uvret env second.0
      cwd_text first.1 second.1 second.2)

  -- The loop `while size == allocated - 1`, with fuel; none if that runs out. A buffer that does
  -- not fit in memory is a panic.
  unfoldable pub exepath_loop : (fuel allocated size : ℕ) → List ℕ → Eff (Option (List ℕ))
  unfolding ask uvret text_of
  exepath_loop zero allocated size text = pure none
  exepath_loop (suc fuel) allocated size text =
      if size == allocated - 1
      then (if ltb isize_max (allocated * 2) then crash Fault.panic else (do
        answer ← ask (λ w. libuv.uv_text w uv_exepath (allocated * 2))
        uvret env answer.0
        read ← text_of (allocated * 2) answer.1 answer.2
        exepath_loop fuel (allocated * 2) answer.1 read))
      else pure (some text)

  unfoldable pub exepath : (fuel : ℕ) → Eff (Option (List ℕ))
  exepath fuel = exepath_loop fuel 32 31 List.[]

unfoldable pub guess_handle : (UvHandleType → ℤ) → (ℤ → ℤ) → ℤ → HandleType
unfolding handle_type_from_inner
guess_handle handle_type uv_guess_handle file =
    handle_type_from_inner handle_type (uv_guess_handle file)
