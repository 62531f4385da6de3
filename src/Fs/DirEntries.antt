-- ===== src/Fs/DirEntries.antt =====
-- src/fs/dir.rs: the vector of entries that a directory stream reads into. The structure of libuv
-- holds its address and capacity, the `Dir` of the caller its length and capacity. Capacities that
-- do not fit in memory are left out.
pub mod Laws
use libuv_rs.Common.{ℕ, Bool, List, [], ◌==◌, if◌then◌else◌, map, take, ltb, length}
use libuv_rs.Common.Int.{ℤ}
use libuv_rs.DirentType.{UvDirentType}
use libuv_rs.Memory.{Ptr, null, Block, UvDirent, dir_block, dirent_vec}
use libuv_rs.Memory.Effect.{
  Fault, Eff, done, pure, crash, ◌>>=◌, ◌>>◌, Env, load, store, release, place,
}
use libuv_rs.Req.Fs.{Dir}
use libuv_rs.Fs.Scandir.{Dirent, dirent_of}

-- The pointer of a vector without capacity.
abbrev pub dangling : Ptr
dangling = 8

abbrev pub as_dir : Block → Eff (Ptr × ℕ)
as_dir (dir_block dirents nentries) = pure (dirents, nentries)
as_dir _ = crash Fault.wrong_block

-- `*self.dir`.
unfoldable pub load_dir : Ptr → Eff (Ptr × ℕ)
unfolding load
load_dir p = do b ← load p; as_dir b

abbrev pub as_dirents : (capacity : ℕ) → Block → Eff (List UvDirent)
as_dirents capacity (dirent_vec c entries) =
    if c == capacity then pure entries else crash Fault.wrong_block
as_dirents capacity _ = crash Fault.wrong_block

-- What `Vec::from_raw_parts(dirents, len, capacity)` takes over.
unfoldable pub load_dirents : (dirents : Ptr) (capacity : ℕ) → Eff (List UvDirent)
unfolding load
load_dirents dirents capacity = do b ← load dirents; as_dirents capacity b

-- Dropping it.
unfoldable pub drop_dirents : (dirents : Ptr) (capacity : ℕ) → Eff (Unit {0})
unfolding load_dirents release
drop_dirents dirents capacity =
    if capacity == 0 then pure tt else (do load_dirents dirents capacity; release dirents)

unfoldable pub free_entries : Dir → Eff Dir
unfolding load_dir drop_dirents store
free_entries d = do
  (dirents, _) ← load_dir d.dir
  if dirents == null then pure d else (do
    drop_dirents dirents d.capacity
    store d.dir (dir_block null 0)
    pure (record d { len = 0; capacity = 0 }))

-- `Vec::with_capacity`: its pointer and its capacity.
unfoldable pub new_dirents : Env → ℕ → Eff (Ptr × ℕ)
unfolding place
new_dirents env size w =
    let capacity = env.capacity size in
    if capacity == 0
    then done (dangling, capacity) w
    else (place (env.box_new w.heap) (dirent_vec capacity []) >>= λ p. pure (p, capacity)) w

unfoldable pub reserve : Env → ℕ → Dir → Eff Dir
unfolding free_entries new_dirents store
reserve env size d = do
  freed ← free_entries d
  (dirents, capacity) ← new_dirents env size
  store freed.dir (dir_block dirents capacity)
  pure (record freed { len = 0; capacity = capacity })

-- As many entries as the length of the `Dir` says, of a vector that has them.
unfoldable pub entries : (UvDirentType → ℤ) → Dir → Eff (List Dirent)
unfolding load_dir load_dirents dirent_of
entries value d = do
  (dirents, _) ← load_dir d.dir
  if d.capacity == 0 then (if d.len == 0 then pure [] else crash Fault.out_of_bounds) else (do
    there ← load_dirents dirents d.capacity
    if ltb (length there) d.len
        then crash Fault.uninitialised
        else pure (map (dirent_of value) (take d.len there)))
