-- ===== src/Tests/Texts.antt =====
-- Texts and directory entries on a concrete libuv.
use libuv_rs.Common.{
  ℕ, ◌+◌, ◌-◌, ◌≡◌, ◌≢◌, refl, some, List, [], ◌∷◌, ◌++◌, arith, length, take, ltb, if◌then◌else◌,
}
use libuv_rs.Common.Int.{ℤ, pos}
use libuv_rs.Common.Table.{is_distinct, is_fresh}
use libuv_rs.Error.{UvErrno, constants as error_constants}
use libuv_rs.Memory.{null, dir_block, lookup}
use libuv_rs.Memory.Effect.{World, done}
use libuv_rs.Req.Fs.{Dir}
use libuv_rs.Texts.{TextCall, UvText, uv_fs_event_getpath, read_text, sized_text}
use libuv_rs.Texts.Laws.{HasText, sized_text-read_text}
use libuv_rs.Fs.Cwd.{cwd, exepath}
use libuv_rs.Fs.Cwd.Laws.{HasPath, HasDirectory, cwd_lem, exepath-done}
use libuv_rs.Fs.DirEntries.{reserve, free_entries}
use libuv_rs.Fs.DirEntries.Laws.{reserved, reserved_dir, reserve-free_entries}
use libuv_rs.Tests.{env, env-IsAllocator, empty, errno}

abbrev home : List ℕ
home = 47 ∷ 104 ∷ []

-- Answers every call with the same text; `uv_exepath` cuts it to the buffer, and `uv_cwd` with a
-- null buffer gives the size that is needed.
abbrev answers : TextCall → ℕ → ℤ × ℕ × List ℕ
answers TextCall.uv_exepath size =
    if ltb (length home) size
    then (pos 0, length home, home ++ (0 ∷ []))
    else (pos 0, size - 1, take (size - 1) home ++ (0 ∷ []))
answers TextCall.uv_cwd_null size = (pos 0, 3, [])
answers c size =
    if ltb (length home) size
    then (pos 0, length home, home ++ (0 ∷ []))
    else (errno UvErrno.enobufs, length home + 1, [])

abbrev texts : UvText
texts = record {
  uv_text = λ w c size. answers c size;
  uv_maxhostnamesize = 256;
  uv_if_namesize = 16;
}

texts-HasText : HasText env texts (uv_fs_event_getpath 100) home
unfolding is_distinct is_fresh error_constants
texts-HasText = record {
  enough = λ w size h. ground arith;
  short = λ w size h. (ground arith, ground arith);
  codes_distinct = refl;
  enobufs_negative = refl;
}

texts-HasDirectory : HasDirectory texts home
unfolding is_distinct is_fresh error_constants
texts-HasDirectory = record { enough = λ w size h. ground arith; short = λ w size h. ground arith }

texts-HasPath : HasPath texts home
texts-HasPath = record { cut = λ w size h. ground arith; whole = λ w size h. ground arith }

sized_text-read_text_example :
    sized_text env texts (uv_fs_event_getpath 100) empty
    ≡ read_text env texts (uv_fs_event_getpath 100) 64 empty
sized_text-read_text_example =
    sized_text-read_text env texts (uv_fs_event_getpath 100) home texts-HasText empty (ground arith)
      64 (ground arith) (ground arith)

cwd_lem_example : cwd env texts empty ≡ done (47 ∷ []) empty
cwd_lem_example = cwd_lem env texts (47 ∷ []) 104 texts-HasDirectory empty

exepath-done_example : exepath env texts 4 empty ≡ done (some home) empty
exepath-done_example = exepath-done env texts home texts-HasPath empty (ground arith)

-- An open directory at address 70.
abbrev one_dir : World
one_dir = record empty { heap = (70, dir_block null 0) ∷ [] }

abbrev dir : Dir
dir = record { dir = 70; len = 0; capacity = 0 }

dir_ne : 70 ≢ null
dir_ne = λ e. ground arith

dir_there : lookup 70 one_dir.heap ≡ some (dir_block null 0)
unfolding lookup
dir_there = refl

reserve-free_entries_example :
    (reserve env 8 dir one_dir
      ≡ done
          (reserved_dir env env-IsAllocator one_dir dir dir_ne dir_there 8 refl)
          (reserved env env-IsAllocator one_dir dir dir_ne dir_there 8 refl))
    × (free_entries
          (reserved_dir env env-IsAllocator one_dir dir dir_ne dir_there 8 refl)
          (reserved env env-IsAllocator one_dir dir dir_ne dir_there 8 refl)
        ≡ done dir one_dir)
reserve-free_entries_example =
    reserve-free_entries env env-IsAllocator one_dir dir dir_ne dir_there 8 refl

abbrev reserved_eight : Dir
reserved_eight = reserved_dir env env-IsAllocator one_dir dir dir_ne dir_there 8 refl
