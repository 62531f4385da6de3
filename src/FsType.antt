-- ===== src/FsType.antt =====
-- src/fs/fs_types.inc.rs: the types of file system requests
-- The constants of the C enumeration come from the bindings, so their numbers are a parameter.
pub mod RoundTrip
use libuv_rs.Common.{List, [], ◌∷◌, ◌++◌}
use libuv_rs.Common.Int.{ℤ}
use libuv_rs.Common.Table.{match_arms}

pub data FsType : Type 0 where
  access chmod chown close closedir copyfile custom fchmod fchown fdatasync fstat : FsType
  fsync ftruncate futime lchown link lstat mkdir mkdtemp mkstemp open_file opendir : FsType
  read readdir readlink realpath rename rmdir scandir sendfile stat statfs symlink : FsType
  unlink utime write unknown : FsType

pub data UvFsType : Type 0 where
  access chmod chown close closedir copyfile custom fchmod fchown fdatasync fstat : UvFsType
  fsync ftruncate futime lchown link lstat mkdir mkdtemp mkstemp open_file opendir : UvFsType
  read readdir readlink realpath rename rmdir scandir sendfile stat statfs symlink : UvFsType
  unlink utime write unknown : UvFsType

-- The arms of the match, in the order of the source.
unfoldable pub arms : List (UvFsType × FsType)
arms =
    (UvFsType.access, FsType.access)
    ∷ (UvFsType.chmod, FsType.chmod)
    ∷ (UvFsType.chown, FsType.chown)
    ∷ (UvFsType.close, FsType.close)
    ∷ (UvFsType.closedir, FsType.closedir)
    ∷ (UvFsType.copyfile, FsType.copyfile)
    ∷ (UvFsType.custom, FsType.custom)
    ∷ (UvFsType.fchmod, FsType.fchmod)
    ∷ (UvFsType.fchown, FsType.fchown)
    ∷ (UvFsType.fdatasync, FsType.fdatasync)
    ∷ (UvFsType.fstat, FsType.fstat)
    ∷ (UvFsType.fsync, FsType.fsync)
    ∷ (UvFsType.ftruncate, FsType.ftruncate)
    ∷ (UvFsType.futime, FsType.futime)
    ∷ (UvFsType.lchown, FsType.lchown)
    ∷ (UvFsType.link, FsType.link)
    ∷ (UvFsType.lstat, FsType.lstat)
    ∷ (UvFsType.mkdir, FsType.mkdir)
    ∷ (UvFsType.mkdtemp, FsType.mkdtemp)
    ∷ (UvFsType.mkstemp, FsType.mkstemp)
    ∷ (UvFsType.open_file, FsType.open_file)
    ∷ (UvFsType.opendir, FsType.opendir)
    ∷ (UvFsType.read, FsType.read)
    ∷ (UvFsType.readdir, FsType.readdir)
    ∷ (UvFsType.readlink, FsType.readlink)
    ∷ (UvFsType.realpath, FsType.realpath)
    ∷ (UvFsType.rename, FsType.rename)
    ∷ (UvFsType.rmdir, FsType.rmdir)
    ∷ (UvFsType.scandir, FsType.scandir)
    ∷ (UvFsType.sendfile, FsType.sendfile)
    ∷ (UvFsType.stat, FsType.stat)
    ∷ (UvFsType.statfs, FsType.statfs)
    ∷ (UvFsType.symlink, FsType.symlink)
    ∷ (UvFsType.unlink, FsType.unlink)
    ∷ (UvFsType.utime, FsType.utime)
    ∷ (UvFsType.write, FsType.write)
    ∷ []

-- Every constant that the conversions name, with the value it stands for.
unfoldable pub constants : List (UvFsType × FsType)
unfolding arms
constants = arms ++ (UvFsType.unknown, FsType.unknown) ∷ []

module _ (value : UvFsType → ℤ) where
  unfoldable pub from_inner : ℤ → FsType
  unfolding arms match_arms
  from_inner t = match_arms value arms FsType.unknown t

  unfoldable pub into_inner : FsType → ℤ
  into_inner FsType.access = value UvFsType.access
  into_inner FsType.chmod = value UvFsType.chmod
  into_inner FsType.chown = value UvFsType.chown
  into_inner FsType.close = value UvFsType.close
  into_inner FsType.closedir = value UvFsType.closedir
  into_inner FsType.copyfile = value UvFsType.copyfile
  into_inner FsType.custom = value UvFsType.custom
  into_inner FsType.fchmod = value UvFsType.fchmod
  into_inner FsType.fchown = value UvFsType.fchown
  into_inner FsType.fdatasync = value UvFsType.fdatasync
  into_inner FsType.fstat = value UvFsType.fstat
  into_inner FsType.fsync = value UvFsType.fsync
  into_inner FsType.ftruncate = value UvFsType.ftruncate
  into_inner FsType.futime = value UvFsType.futime
  into_inner FsType.lchown = value UvFsType.lchown
  into_inner FsType.link = value UvFsType.link
  into_inner FsType.lstat = value UvFsType.lstat
  into_inner FsType.mkdir = value UvFsType.mkdir
  into_inner FsType.mkdtemp = value UvFsType.mkdtemp
  into_inner FsType.mkstemp = value UvFsType.mkstemp
  into_inner FsType.open_file = value UvFsType.open_file
  into_inner FsType.opendir = value UvFsType.opendir
  into_inner FsType.read = value UvFsType.read
  into_inner FsType.readdir = value UvFsType.readdir
  into_inner FsType.readlink = value UvFsType.readlink
  into_inner FsType.realpath = value UvFsType.realpath
  into_inner FsType.rename = value UvFsType.rename
  into_inner FsType.rmdir = value UvFsType.rmdir
  into_inner FsType.scandir = value UvFsType.scandir
  into_inner FsType.sendfile = value UvFsType.sendfile
  into_inner FsType.stat = value UvFsType.stat
  into_inner FsType.statfs = value UvFsType.statfs
  into_inner FsType.symlink = value UvFsType.symlink
  into_inner FsType.unlink = value UvFsType.unlink
  into_inner FsType.utime = value UvFsType.utime
  into_inner FsType.write = value UvFsType.write
  into_inner _ = value UvFsType.unknown
