-- ===== src/Misc/Os.antt =====
-- src/misc/os.rs, and the rest of src/misc/mod.rs that hands over what libuv fills in.
use libuv_rs.Common.{ℕ, Option, none, some, List, if◌then◌else◌}
use libuv_rs.Common.Int.{ℤ, is_neg, to_nat}
use libuv_rs.Memory.Effect.{World, Fault, Eff, pure, crash, ◌>>=◌, ◌>>◌, Env, ask, uvret}
use libuv_rs.Misc.{TimeVal, UvTimeVal, time_val}

-- `uv_passwd_t`: a text that may be null is none.
pub record UvPasswd : Type 0 where
  pub username : Option (List ℕ)
  pub uid : ℤ
  pub gid : ℤ
  pub shell : Option (List ℕ)
  pub homedir : Option (List ℕ)

pub record User : Type 0 where
  pub username : List ℕ
  pub uid : Option ℕ
  pub gid : Option ℕ
  pub shell : Option (List ℕ)
  pub homedir : List ℕ

-- `CStr::from_ptr`.
abbrev pub text_at : Option (List ℕ) → Eff (List ℕ)
text_at (some s) = pure s
text_at none = crash Fault.null_pointer

abbrev pub id_of : ℤ → Option ℕ
id_of n = if is_neg n then none else some (to_nat n)

unfoldable pub user_of : UvPasswd → Eff User
user_of passwd = do
  name ← text_at passwd.username
  home ← text_at passwd.homedir
  pure (record {
    username = name;
    uid = id_of passwd.uid;
    gid = id_of passwd.gid;
    shell = passwd.shell;
    homedir = home;
  })

-- `uv_utsname_t`.
pub record UvUtsname : Type 0 where
  pub uv_sysname : List ℕ
  pub uv_release : List ℕ
  pub uv_version : List ℕ
  pub uv_machine : List ℕ

pub record SystemInfo : Type 0 where
  pub sysname : List ℕ
  pub release : List ℕ
  pub version : List ℕ
  pub machine : List ℕ

unfoldable pub system_info : UvUtsname → SystemInfo
system_info uname = record {
  sysname = uname.uv_sysname;
  release = uname.uv_release;
  version = uname.uv_version;
  machine = uname.uv_machine;
}

-- `uv_rusage_t`.
pub record UvRusage : Type 0 where
  pub ru_utime : UvTimeVal
  pub ru_stime : UvTimeVal
  pub ru_maxrss : ℕ
  pub ru_ixrss : ℕ
  pub ru_idrss : ℕ
  pub ru_isrss : ℕ
  pub ru_minflt : ℕ
  pub ru_majflt : ℕ
  pub ru_nswap : ℕ
  pub ru_inblock : ℕ
  pub ru_oublock : ℕ
  pub ru_msgsnd : ℕ
  pub ru_msgrcv : ℕ
  pub ru_nsignals : ℕ
  pub ru_nvcsw : ℕ
  pub ru_nivcsw : ℕ

pub record ResourceUsage : Type 0 where
  pub usertime : TimeVal
  pub systime : TimeVal
  pub maxrss : ℕ
  pub ixrss : ℕ
  pub idrss : ℕ
  pub isrss : ℕ
  pub minflt : ℕ
  pub majflt : ℕ
  pub nswap : ℕ
  pub inblock : ℕ
  pub oublock : ℕ
  pub msgsnd : ℕ
  pub msgrcv : ℕ
  pub nsignals : ℕ
  pub nvcsw : ℕ
  pub nivcsw : ℕ

unfoldable pub resource_usage : UvRusage → ResourceUsage
unfolding time_val
resource_usage usage = record {
  usertime = time_val usage.ru_utime;
  systime = time_val usage.ru_stime;
  maxrss = usage.ru_maxrss;
  ixrss = usage.ru_ixrss;
  idrss = usage.ru_idrss;
  isrss = usage.ru_isrss;
  minflt = usage.ru_minflt;
  majflt = usage.ru_majflt;
  nswap = usage.ru_nswap;
  inblock = usage.ru_inblock;
  oublock = usage.ru_oublock;
  msgsnd = usage.ru_msgsnd;
  msgrcv = usage.ru_msgrcv;
  nsignals = usage.ru_nsignals;
  nvcsw = usage.ru_nvcsw;
  nivcsw = usage.ru_nivcsw;
}

pub record UvOs : Type 0 where
  pub uv_os_get_passwd : World → ℤ × UvPasswd
  pub uv_os_getpriority : World → (pid : ℤ) → ℤ × ℤ
  pub uv_os_setpriority : World → (pid priority : ℤ) → ℤ
  pub uv_os_uname : World → ℤ × UvUtsname
  pub uv_getrusage : World → ℤ × UvRusage

module _ (env : Env) (libuv : UvOs) where
  -- `uv_os_free_passwd` gives the texts of libuv back, after they are copied.
  unfoldable pub get_passwd : Eff User
  unfolding ask uvret user_of
  get_passwd = do answer ← ask libuv.uv_os_get_passwd; uvret env answer.0; user_of answer.1

  unfoldable pub getpriority : (pid : ℤ) → Eff ℤ
  unfolding ask uvret
  getpriority pid = do
    answer ← ask (λ w. libuv.uv_os_getpriority w pid)
    uvret env answer.0
    pure answer.1

  unfoldable pub setpriority : (pid priority : ℤ) → Eff (Unit {0})
  unfolding ask uvret
  setpriority pid priority = do
    code ← ask (λ w. libuv.uv_os_setpriority w pid priority)
    uvret env code

  unfoldable pub uname : Eff SystemInfo
  unfolding ask uvret system_info
  uname = do answer ← ask libuv.uv_os_uname; uvret env answer.0; pure (system_info answer.1)

  unfoldable pub getrusage : Eff ResourceUsage
  unfolding ask uvret resource_usage
  getrusage = do answer ← ask libuv.uv_getrusage; uvret env answer.0; pure (resource_usage answer.1)
