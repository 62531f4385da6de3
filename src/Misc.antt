-- ===== src/Misc.antt =====
-- src/misc/mod.rs: the process title and what the operating system reports. The calls of libuv are
-- a parameter.
pub mod Os
pub mod Title
use libuv_rs.Common.{ℕ, zero, suc, ◌*◌, ◌-◌, ◌^◌, Option, none, some, List, map, if◌then◌else◌, ltb}
use libuv_rs.Common.Int.{ℤ}
use libuv_rs.Error.{Error}
use libuv_rs.Buf.Storage.{isize_max}
use libuv_rs.Memory.Effect.{
  World, Fault, Failure, uv, Result, ok, err, Eff, pure, throw, crash, ◌>>=◌, ◌>>◌, attempt, Env,
  ask, uvret, c_string_new,
}

-- `uv_timeval_t` and `uv_timeval64_t`.
pub record UvTimeVal : Type 0 where
  pub tv_sec : ℤ
  pub tv_usec : ℤ

pub record TimeVal : Type 0 where
  pub sec : ℤ
  pub usec : ℤ

unfoldable pub time_val : UvTimeVal → TimeVal
time_val tv = record { sec = tv.tv_sec; usec = tv.tv_usec }

-- `uv_cpu_info_t`.
pub record UvCpuInfo : Type 0 where
  pub model : List ℕ
  pub speed : ℤ
  pub user : ℕ
  pub nice : ℕ
  pub sys : ℕ
  pub idle : ℕ
  pub irq : ℕ

pub record CpuInfo : Type 0 where
  pub model : List ℕ
  pub speed : ℤ
  pub user_time : ℕ
  pub nice_time : ℕ
  pub sys_time : ℕ
  pub idle_time : ℕ
  pub irq_time : ℕ

unfoldable pub cpu_info_of : UvCpuInfo → CpuInfo
cpu_info_of cpu = record {
  model = cpu.model;
  speed = cpu.speed;
  user_time = cpu.user;
  nice_time = cpu.nice;
  sys_time = cpu.sys;
  idle_time = cpu.idle;
  irq_time = cpu.irq;
}

pub record UvMisc : Type 0 where
  -- The code, and the text that is in the buffer afterwards.
  pub uv_get_process_title : World → (size : ℕ) → ℤ × List ℕ
  pub uv_set_process_title : World → (title : List ℕ) → ℤ
  pub uv_resident_set_memory : World → ℤ × ℕ
  pub uv_gettimeofday : World → ℤ × UvTimeVal
  pub uv_cpu_info : World → ℤ × List UvCpuInfo

module _ (env : Env) (libuv : UvMisc) where
  -- What the loop does with the answer: too small a buffer is tried again.
  abbrev pub after_title :
      List ℕ → Eff (Option (List ℕ)) → Result (Unit {0}) → Eff (Option (List ℕ))
  after_title text again (ok _) = pure (some text)
  after_title text again (err (uv Error.enobufs)) = again
  after_title text again (err e) = throw e

  -- The loop, with fuel; none if that runs out. `reserve` panics on a capacity
  -- above isize::MAX, so that the size does not overflow.
  unfoldable pub title_loop : (fuel size : ℕ) → Eff (Option (List ℕ))
  unfolding ask uvret
  title_loop zero size = pure none
  title_loop (suc fuel) size =
      let again = title_loop fuel (size * 2) in
      if ltb isize_max (size * 2) then crash Fault.panic else (do
        answer ← ask (λ w. libuv.uv_get_process_title w (size * 2))
        result ← attempt (uvret env answer.0)
        after_title answer.1 again result)

  unfoldable pub get_process_title : (fuel : ℕ) → Eff (Option (List ℕ))
  unfolding title_loop
  get_process_title fuel = title_loop fuel 16

  unfoldable pub set_process_title : List ℕ → Eff (Unit {0})
  unfolding c_string_new ask uvret
  set_process_title title = do
    s ← c_string_new title
    code ← ask (λ w. libuv.uv_set_process_title w s)
    uvret env code

  unfoldable pub resident_set_memory : Eff ℕ
  unfolding ask uvret
  resident_set_memory = do
    answer ← ask libuv.uv_resident_set_memory
    uvret env answer.0
    pure answer.1

  unfoldable pub gettimeofday : Eff TimeVal
  unfolding ask uvret time_val
  gettimeofday = do answer ← ask libuv.uv_gettimeofday; uvret env answer.0; pure (time_val answer.1)

  -- `uv_free_cpu_info` gives the array of libuv back, after it is copied.
  unfoldable pub cpu_info : Eff (List CpuInfo)
  unfolding ask uvret cpu_info_of
  cpu_info = do answer ← ask libuv.uv_cpu_info; uvret env answer.0; pure (map cpu_info_of answer.1)
