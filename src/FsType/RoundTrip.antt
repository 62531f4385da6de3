-- ===== src/FsType/RoundTrip.antt =====
-- The conversions of src/fs/fs_types.inc.rs undo one another.
use libuv_rs.Common.{ℕ, ◌≡◌, refl, ◌∙◌, true, some, get_elem?}
use libuv_rs.Common.Int.{ℤ}
use libuv_rs.Common.Table.{match_arms, is_distinct, match_arms-append, match_arms-get_elem?}
use libuv_rs.FsType.{FsType, UvFsType, arms, constants, from_inner, into_inner}

-- The place of a constant among the arms.
abbrev pub place : UvFsType → ℕ
place UvFsType.access = 0
place UvFsType.chmod = 1
place UvFsType.chown = 2
place UvFsType.close = 3
place UvFsType.closedir = 4
place UvFsType.copyfile = 5
place UvFsType.custom = 6
place UvFsType.fchmod = 7
place UvFsType.fchown = 8
place UvFsType.fdatasync = 9
place UvFsType.fstat = 10
place UvFsType.fsync = 11
place UvFsType.ftruncate = 12
place UvFsType.futime = 13
place UvFsType.lchown = 14
place UvFsType.link = 15
place UvFsType.lstat = 16
place UvFsType.mkdir = 17
place UvFsType.mkdtemp = 18
place UvFsType.mkstemp = 19
place UvFsType.open_file = 20
place UvFsType.opendir = 21
place UvFsType.read = 22
place UvFsType.readdir = 23
place UvFsType.readlink = 24
place UvFsType.realpath = 25
place UvFsType.rename = 26
place UvFsType.rmdir = 27
place UvFsType.scandir = 28
place UvFsType.sendfile = 29
place UvFsType.stat = 30
place UvFsType.statfs = 31
place UvFsType.symlink = 32
place UvFsType.unlink = 33
place UvFsType.utime = 34
place UvFsType.write = 35
place UvFsType.unknown = 36

-- What a constant stands for.
abbrev pub meaning : UvFsType → FsType
meaning UvFsType.access = FsType.access
meaning UvFsType.chmod = FsType.chmod
meaning UvFsType.chown = FsType.chown
meaning UvFsType.close = FsType.close
meaning UvFsType.closedir = FsType.closedir
meaning UvFsType.copyfile = FsType.copyfile
meaning UvFsType.custom = FsType.custom
meaning UvFsType.fchmod = FsType.fchmod
meaning UvFsType.fchown = FsType.fchown
meaning UvFsType.fdatasync = FsType.fdatasync
meaning UvFsType.fstat = FsType.fstat
meaning UvFsType.fsync = FsType.fsync
meaning UvFsType.ftruncate = FsType.ftruncate
meaning UvFsType.futime = FsType.futime
meaning UvFsType.lchown = FsType.lchown
meaning UvFsType.link = FsType.link
meaning UvFsType.lstat = FsType.lstat
meaning UvFsType.mkdir = FsType.mkdir
meaning UvFsType.mkdtemp = FsType.mkdtemp
meaning UvFsType.mkstemp = FsType.mkstemp
meaning UvFsType.open_file = FsType.open_file
meaning UvFsType.opendir = FsType.opendir
meaning UvFsType.read = FsType.read
meaning UvFsType.readdir = FsType.readdir
meaning UvFsType.readlink = FsType.readlink
meaning UvFsType.realpath = FsType.realpath
meaning UvFsType.rename = FsType.rename
meaning UvFsType.rmdir = FsType.rmdir
meaning UvFsType.scandir = FsType.scandir
meaning UvFsType.sendfile = FsType.sendfile
meaning UvFsType.stat = FsType.stat
meaning UvFsType.statfs = FsType.statfs
meaning UvFsType.symlink = FsType.symlink
meaning UvFsType.unlink = FsType.unlink
meaning UvFsType.utime = FsType.utime
meaning UvFsType.write = FsType.write
meaning UvFsType.unknown = FsType.unknown

get_elem?-place : (c : UvFsType) → get_elem? constants (place c) ≡ some (c, meaning c)
unfolding constants
get_elem?-place UvFsType.access = refl
get_elem?-place _ = refl

module _ (value : UvFsType → ℤ) (distinct : is_distinct value constants ≡ true) where
  -- The default arm gives the same as one more arm.
  from_inner-constants : (t : ℤ) → from_inner value t ≡ match_arms value constants FsType.unknown t
  unfolding from_inner constants
  from_inner-constants t = match_arms-append value arms FsType.unknown t UvFsType.unknown

  pub from_inner-value : (c : UvFsType) → from_inner value (value c) ≡ meaning c
  from_inner-value c =
      from_inner-constants (value c)
      ∙ match_arms-get_elem? value constants (place c) FsType.unknown {k = c} distinct
          (get_elem?-place c)

  -- With distinct constants, every file system request type survives the conversion to its libuv
  -- number and back.
  pub from_inner-into_inner_fs : (e : FsType) → from_inner value (into_inner value e) ≡ e
  unfolding into_inner
  from_inner-into_inner_fs FsType.access = from_inner-value UvFsType.access
  from_inner-into_inner_fs FsType.chmod = from_inner-value UvFsType.chmod
  from_inner-into_inner_fs FsType.chown = from_inner-value UvFsType.chown
  from_inner-into_inner_fs FsType.close = from_inner-value UvFsType.close
  from_inner-into_inner_fs FsType.closedir = from_inner-value UvFsType.closedir
  from_inner-into_inner_fs FsType.copyfile = from_inner-value UvFsType.copyfile
  from_inner-into_inner_fs FsType.custom = from_inner-value UvFsType.custom
  from_inner-into_inner_fs FsType.fchmod = from_inner-value UvFsType.fchmod
  from_inner-into_inner_fs FsType.fchown = from_inner-value UvFsType.fchown
  from_inner-into_inner_fs FsType.fdatasync = from_inner-value UvFsType.fdatasync
  from_inner-into_inner_fs FsType.fstat = from_inner-value UvFsType.fstat
  from_inner-into_inner_fs FsType.fsync = from_inner-value UvFsType.fsync
  from_inner-into_inner_fs FsType.ftruncate = from_inner-value UvFsType.ftruncate
  from_inner-into_inner_fs FsType.futime = from_inner-value UvFsType.futime
  from_inner-into_inner_fs FsType.lchown = from_inner-value UvFsType.lchown
  from_inner-into_inner_fs FsType.link = from_inner-value UvFsType.link
  from_inner-into_inner_fs FsType.lstat = from_inner-value UvFsType.lstat
  from_inner-into_inner_fs FsType.mkdir = from_inner-value UvFsType.mkdir
  from_inner-into_inner_fs FsType.mkdtemp = from_inner-value UvFsType.mkdtemp
  from_inner-into_inner_fs FsType.mkstemp = from_inner-value UvFsType.mkstemp
  from_inner-into_inner_fs FsType.open_file = from_inner-value UvFsType.open_file
  from_inner-into_inner_fs FsType.opendir = from_inner-value UvFsType.opendir
  from_inner-into_inner_fs FsType.read = from_inner-value UvFsType.read
  from_inner-into_inner_fs FsType.readdir = from_inner-value UvFsType.readdir
  from_inner-into_inner_fs FsType.readlink = from_inner-value UvFsType.readlink
  from_inner-into_inner_fs FsType.realpath = from_inner-value UvFsType.realpath
  from_inner-into_inner_fs FsType.rename = from_inner-value UvFsType.rename
  from_inner-into_inner_fs FsType.rmdir = from_inner-value UvFsType.rmdir
  from_inner-into_inner_fs FsType.scandir = from_inner-value UvFsType.scandir
  from_inner-into_inner_fs FsType.sendfile = from_inner-value UvFsType.sendfile
  from_inner-into_inner_fs FsType.stat = from_inner-value UvFsType.stat
  from_inner-into_inner_fs FsType.statfs = from_inner-value UvFsType.statfs
  from_inner-into_inner_fs FsType.symlink = from_inner-value UvFsType.symlink
  from_inner-into_inner_fs FsType.unlink = from_inner-value UvFsType.unlink
  from_inner-into_inner_fs FsType.utime = from_inner-value UvFsType.utime
  from_inner-into_inner_fs FsType.write = from_inner-value UvFsType.write
  from_inner-into_inner_fs FsType.unknown = from_inner-value UvFsType.unknown

  -- Each constant is the code of what it is read as.
  pub into_inner-from_inner_fs :
      (c : UvFsType) → into_inner value (from_inner value (value c)) ≡ value c
  unfolding into_inner
  into_inner-from_inner_fs UvFsType.access = rw (from_inner-value UvFsType.access)
  into_inner-from_inner_fs UvFsType.chmod = rw (from_inner-value UvFsType.chmod)
  into_inner-from_inner_fs UvFsType.chown = rw (from_inner-value UvFsType.chown)
  into_inner-from_inner_fs UvFsType.close = rw (from_inner-value UvFsType.close)
  into_inner-from_inner_fs UvFsType.closedir = rw (from_inner-value UvFsType.closedir)
  into_inner-from_inner_fs UvFsType.copyfile = rw (from_inner-value UvFsType.copyfile)
  into_inner-from_inner_fs UvFsType.custom = rw (from_inner-value UvFsType.custom)
  into_inner-from_inner_fs UvFsType.fchmod = rw (from_inner-value UvFsType.fchmod)
  into_inner-from_inner_fs UvFsType.fchown = rw (from_inner-value UvFsType.fchown)
  into_inner-from_inner_fs UvFsType.fdatasync = rw (from_inner-value UvFsType.fdatasync)
  into_inner-from_inner_fs UvFsType.fstat = rw (from_inner-value UvFsType.fstat)
  into_inner-from_inner_fs UvFsType.fsync = rw (from_inner-value UvFsType.fsync)
  into_inner-from_inner_fs UvFsType.ftruncate = rw (from_inner-value UvFsType.ftruncate)
  into_inner-from_inner_fs UvFsType.futime = rw (from_inner-value UvFsType.futime)
  into_inner-from_inner_fs UvFsType.lchown = rw (from_inner-value UvFsType.lchown)
  into_inner-from_inner_fs UvFsType.link = rw (from_inner-value UvFsType.link)
  into_inner-from_inner_fs UvFsType.lstat = rw (from_inner-value UvFsType.lstat)
  into_inner-from_inner_fs UvFsType.mkdir = rw (from_inner-value UvFsType.mkdir)
  into_inner-from_inner_fs UvFsType.mkdtemp = rw (from_inner-value UvFsType.mkdtemp)
  into_inner-from_inner_fs UvFsType.mkstemp = rw (from_inner-value UvFsType.mkstemp)
  into_inner-from_inner_fs UvFsType.open_file = rw (from_inner-value UvFsType.open_file)
  into_inner-from_inner_fs UvFsType.opendir = rw (from_inner-value UvFsType.opendir)
  into_inner-from_inner_fs UvFsType.read = rw (from_inner-value UvFsType.read)
  into_inner-from_inner_fs UvFsType.readdir = rw (from_inner-value UvFsType.readdir)
  into_inner-from_inner_fs UvFsType.readlink = rw (from_inner-value UvFsType.readlink)
  into_inner-from_inner_fs UvFsType.realpath = rw (from_inner-value UvFsType.realpath)
  into_inner-from_inner_fs UvFsType.rename = rw (from_inner-value UvFsType.rename)
  into_inner-from_inner_fs UvFsType.rmdir = rw (from_inner-value UvFsType.rmdir)
  into_inner-from_inner_fs UvFsType.scandir = rw (from_inner-value UvFsType.scandir)
  into_inner-from_inner_fs UvFsType.sendfile = rw (from_inner-value UvFsType.sendfile)
  into_inner-from_inner_fs UvFsType.stat = rw (from_inner-value UvFsType.stat)
  into_inner-from_inner_fs UvFsType.statfs = rw (from_inner-value UvFsType.statfs)
  into_inner-from_inner_fs UvFsType.symlink = rw (from_inner-value UvFsType.symlink)
  into_inner-from_inner_fs UvFsType.unlink = rw (from_inner-value UvFsType.unlink)
  into_inner-from_inner_fs UvFsType.utime = rw (from_inner-value UvFsType.utime)
  into_inner-from_inner_fs UvFsType.write = rw (from_inner-value UvFsType.write)
  into_inner-from_inner_fs UvFsType.unknown = rw (from_inner-value UvFsType.unknown)
