-- ===== src/Fs/DirEntries/Laws.antt =====
-- src/fs/dir.rs: the vector of a directory stream is given back, and what a read leaves in it.
use libuv_rs.Common.{ℕ, ◌≡◌, ◌≢◌, ◌==◌, false, some, List, [], ◌∷◌, ==_refl, ==_ne, ne_sym}
use libuv_rs.Memory.{Ptr, null, UvDirent, dir_block, dirent_vec, lookup, erase, update}
use libuv_rs.Memory.Effect.{Env, IsAllocator, World, done}
use libuv_rs.Memory.Laws.{ne_of_lookup, lookup-update_self, update-update, update-lookup}
use libuv_rs.Req.Fs.{Dir}
use libuv_rs.Fs.DirEntries.{reserve, free_entries}

module _ (env : Env) (law : IsAllocator env) (w : World) (d : Dir) (live : d.dir ≢ null)
    (holds : lookup d.dir w.heap ≡ some (dir_block null 0)) (size : ℕ)
    (some_entries : (env.capacity size == 0) ≡ false) where
  abbrev pub vec_at : Ptr
  vec_at = env.box_new w.heap

  apart : d.dir ≢ vec_at
  apart = ne_of_lookup d.dir vec_at w.heap holds (law.box_fresh w.heap)

  -- The state with the new vector.
  abbrev pub reserved : World
  reserved = record w {
    heap =
        (vec_at, dirent_vec (env.capacity size) [])
        ∷ update d.dir (dir_block vec_at (env.capacity size)) w.heap;
  }

  abbrev pub reserved_dir : Dir
  reserved_dir = record d { len = 0; capacity = env.capacity size }

  reserve-done : reserve env size d w ≡ done reserved_dir reserved
  unfolding reserve lookup update
  reserve-done =
      simp (==_ne d.dir null live, holds, ==_refl, some_entries, ==_ne vec_at d.dir (ne_sym apart))

  free_entries-reserved :
      free_entries reserved_dir reserved ≡ done (record d { len = 0; capacity = 0 }) w
  unfolding free_entries lookup update erase
  free_entries-reserved = simp (
    ==_ne d.dir null live,
    ==_ne vec_at d.dir (ne_sym apart),
    ==_ne d.dir vec_at apart,
    lookup-update_self d.dir (dir_block vec_at (env.capacity size)) w.heap holds,
    ==_ne vec_at null (law.box_not_null w.heap),
    some_entries,
    ==_refl,
    update-update d.dir (dir_block null 0) (dir_block vec_at (env.capacity size)) w.heap,
    update-lookup d.dir (dir_block null 0) w.heap holds,
  )

  -- Reserving a vector of entries on a live directory without one, with a capacity that is not
  -- zero, and freeing the entries leaves the memory as it was before, and the directory with
  -- length and capacity zero, with an allocator that returns fresh addresses.
  pub reserve-free_entries :
      (reserve env size d w ≡ done reserved_dir reserved)
      × (free_entries reserved_dir reserved ≡ done (record d { len = 0; capacity = 0 }) w)
  reserve-free_entries = (reserve-done, free_entries-reserved)

  -- A vector that libuv has written into.
  abbrev pub filled : List UvDirent → World
  filled there = record reserved {
    heap =
        (vec_at, dirent_vec (env.capacity size) there)
        ∷ update d.dir (dir_block vec_at (env.capacity size)) w.heap;
  }

module _ (env : Env) (law : IsAllocator env) (w : World) (d : Dir) (live : d.dir ≢ null)
    (holds : lookup d.dir w.heap ≡ some (dir_block null 0)) (size : ℕ)
    (some_entries : (env.capacity size == 0) ≡ false) where
  abbrev kept : Dir
  kept = reserved_dir env law w d live holds size some_entries

  abbrev after : List UvDirent → World
  after = filled env law w d live holds size some_entries
