-- ===== src/FsStat.antt =====
-- src/fs/stat.rs, src/fs/timespec.rs and src/fs/statfs.rs: what libuv reports of a file and of a
-- file system.
use libuv_rs.Common.{ℕ, List}
use libuv_rs.Common.Int.{ℤ}

-- `uv_timespec_t`.
pub record UvTimeSpec : Type 0 where
  pub tv_sec : ℤ
  pub tv_nsec : ℤ

pub record TimeSpec : Type 0 where
  pub sec : ℤ
  pub nsec : ℤ

unfoldable pub time_spec : UvTimeSpec → TimeSpec
time_spec ts = record { sec = ts.tv_sec; nsec = ts.tv_nsec }

-- `uv_stat_t`.
pub record UvStat : Type 0 where
  pub st_dev : ℕ
  pub st_mode : ℕ
  pub st_nlink : ℕ
  pub st_uid : ℕ
  pub st_gid : ℕ
  pub st_rdev : ℕ
  pub st_ino : ℕ
  pub st_size : ℕ
  pub st_blksize : ℕ
  pub st_blocks : ℕ
  pub st_flags : ℕ
  pub st_gen : ℕ
  pub st_atim : UvTimeSpec
  pub st_mtim : UvTimeSpec
  pub st_ctim : UvTimeSpec
  pub st_birthtim : UvTimeSpec

pub record Stat : Type 0 where
  pub dev : ℕ
  pub mode : ℕ
  pub nlink : ℕ
  pub uid : ℕ
  pub gid : ℕ
  pub rdev : ℕ
  pub ino : ℕ
  pub size : ℕ
  pub blksize : ℕ
  pub blocks : ℕ
  pub flags : ℕ
  pub gen : ℕ
  pub atim : TimeSpec
  pub mtim : TimeSpec
  pub ctim : TimeSpec
  pub birthtim : TimeSpec

unfoldable pub stat_of : UvStat → Stat
unfolding time_spec
stat_of st = record {
  dev = st.st_dev;
  mode = st.st_mode;
  nlink = st.st_nlink;
  uid = st.st_uid;
  gid = st.st_gid;
  rdev = st.st_rdev;
  ino = st.st_ino;
  size = st.st_size;
  blksize = st.st_blksize;
  blocks = st.st_blocks;
  flags = st.st_flags;
  gen = st.st_gen;
  atim = time_spec st.st_atim;
  mtim = time_spec st.st_mtim;
  ctim = time_spec st.st_ctim;
  birthtim = time_spec st.st_birthtim;
}

-- `uv_statfs_t`.
pub record UvStatFs : Type 0 where
  pub f_type : ℕ
  pub f_bsize : ℕ
  pub f_blocks : ℕ
  pub f_bfree : ℕ
  pub f_bavail : ℕ
  pub f_files : ℕ
  pub f_ffree : ℕ
  pub f_spare : List ℕ

pub record StatFs : Type 0 where
  pub type_ : ℕ
  pub bsize : ℕ
  pub blocks : ℕ
  pub bfree : ℕ
  pub bavail : ℕ
  pub files : ℕ
  pub ffree : ℕ
  pub spare : List ℕ

unfoldable pub stat_fs_of : UvStatFs → StatFs
stat_fs_of st = record {
  type_ = st.f_type;
  bsize = st.f_bsize;
  blocks = st.f_blocks;
  bfree = st.f_bfree;
  bavail = st.f_bavail;
  files = st.f_files;
  ffree = st.f_ffree;
  spare = st.f_spare;
}
