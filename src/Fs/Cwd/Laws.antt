-- ===== src/Fs/Cwd/Laws.antt =====
-- src/fs/misc.rs: the texts of both functions.
use libuv_rs.Common.{
  ℕ, zero, suc, ◌+◌, ◌-◌, ◌*◌, ◌^◌, ◌<◌, ◌≤◌, ◌≡◌, refl, subst, sym, true, false, if◌then◌else◌,
  some, List, [], ◌∷◌, ◌++◌, ◌==◌, length, take, length-snoc, length-take, ltb, inl, inr,
  Bool-cases, ==_refl, ==_ne, arith,
}
use libuv_rs.Common.Int.{ℤ, pos, is_neg}
use libuv_rs.Error.{from_inner as error_from_inner}
use libuv_rs.Memory.Effect.{Env, World, Run, Fault, done, fails, fault, uv}
use libuv_rs.Buf.Storage.{isize_max}
use libuv_rs.Texts.{UvText, uv_cwd, uv_cwd_null, uv_exepath, text_of}
use libuv_rs.Texts.Laws.{text_of-terminated}
use libuv_rs.Fs.Cwd.{cwd_text, cwd, exepath_loop, exepath}

no_less : (a b : ℕ) → b ≤ a → ltb a b ≡ false
no_less a b h = ground arith

take-init : (text : List ℕ) (c : ℕ) → take (length text) ((text ++ (c ∷ [])) ++ (0 ∷ [])) ≡ text
take-init [] c = refl
take-init (a ∷ text) c = cc (take-init text c)

-- What libuv documents of `uv_cwd`: a buffer that is longer than the directory gets it with a zero
-- byte and its length, any other an error.
pub record HasDirectory (libuv : UvText) (directory : List ℕ) : Type 0 where
  pub enough :
      (w : World) (size : ℕ)
      → length directory < size
      → libuv.uv_text w uv_cwd size ≡ (pos 0, length directory, directory ++ (0 ∷ []))
  pub short :
      (w : World) (size : ℕ)
      → size ≤ length directory
      → is_neg (libuv.uv_text w uv_cwd size).0 ≡ true

module _ (env : Env) (libuv : UvText) (init : List ℕ) (last : ℕ)
    (has : HasDirectory libuv (init ++ (last ∷ []))) (w : World) where
  long : length (init ++ (last ∷ [])) ≡ suc (length init)
  long = length-snoc init last

  terminated : length ((init ++ (last ∷ [])) ++ (0 ∷ [])) ≡ suc (suc (length init))
  terminated = omega (arith, length-snoc (init ++ (last ∷ [])) 0, long)

  text_short :
      (size : ℕ)
      → suc (length init) < size
      → cwd_text size (suc (length init)) ((init ++ (last ∷ [])) ++ (0 ∷ [])) w ≡ done init w
  unfolding cwd_text
  text_short size fits =
      rw
        (
          no_less size (suc (length init)) (omega arith),
          terminated,
          no_less (suc (suc (length init))) (suc (length init)) (omega arith),
          nonzero,
          one_less,
          take-init init last,
        )
        refl
    where
      nonzero : (suc (length init) == 0) ≡ false
      nonzero = ==_ne (suc (length init)) 0 (λ e. omega arith)

      one_less : suc (length init) - 1 ≡ length init
      one_less = omega arith

  -- The size that the call with the null buffer leaves, and the answer to a buffer of that size.
  abbrev pub first_size : ℕ
  first_size = (libuv.uv_text w uv_cwd_null 0).1

  abbrev pub second_code : ℤ
  second_code = (libuv.uv_text w uv_cwd first_size).0

  abbrev pub cwd_spec : Run (List ℕ)
  cwd_spec =
      if ltb isize_max first_size
      then fault Fault.panic
      else if ltb (length init + 1) first_size
      then done init w
      else fails (uv (error_from_inner env.errno second_code)) w

  -- cwd never gives the whole of a directory that is not empty: whatever size the call with the
  -- null buffer leaves, it panics above isize::MAX, gives an error if the directory and its zero
  -- byte do not fit into that size, and else loses the last character, if libuv writes the text
  -- and its length into every buffer that is longer than it and refuses every other.
  pub cwd_lem : cwd env libuv w ≡ cwd_spec
  unfolding cwd
  cwd_lem = elim (Bool-cases (ltb isize_max first_size)) [
    | inl large ↦ rw large refl
    | inr small ↦ elim (Bool-cases (ltb (length init + 1) first_size)) [
      | inl fits ↦
          rw (small, fits, has.enough w first_size (ground (arith, fits, long)), long)
            (text_short first_size (ground (arith, fits)))
      | inr cramped ↦
          rw (small, cramped, has.short w first_size (ground (arith, cramped, long))) refl
    ]
  ]

-- What libuv documents of `uv_exepath`: it writes as much of the path as fits in front of a zero
-- byte, and its length.
pub record HasPath (libuv : UvText) (path : List ℕ) : Type 0 where
  pub cut :
      (w : World) (size : ℕ)
      → size ≤ length path
      → libuv.uv_text w uv_exepath size ≡ (pos 0, size - 1, take (size - 1) path ++ (0 ∷ []))
  pub whole :
      (w : World) (size : ℕ)
      → length path < size
      → libuv.uv_text w uv_exepath size ≡ (pos 0, length path, path ++ (0 ∷ []))

module _ (env : Env) (libuv : UvText) (path : List ℕ) (has : HasPath libuv path) (w : World)
    (small : length path < 2 ^ 61) where
  in_range : (allocated : ℕ) → allocated ≤ 2 ^ 61 → ltb isize_max (allocated * 2) ≡ false
  in_range allocated h = no_less isize_max (allocated * 2) (omega arith)

  -- The test of the loop fails.
  loop_ends :
      (fuel allocated size : ℕ) (text : List ℕ)
      → 0 < fuel
      → (size == allocated - 1) ≡ false
      → exepath_loop env libuv fuel allocated size text w ≡ done (some text) w
  unfolding exepath_loop
  loop_ends zero allocated size text p other = absurd (omega arith)
  loop_ends (suc fuel) allocated size text p other = rw other refl

  -- What one round reads.
  read_cut :
      (size : ℕ)
      → 0 < size
      → size ≤ length path
      → text_of size (size - 1) (take (size - 1) path ++ (0 ∷ [])) w ≡ done (take (size - 1) path) w
  read_cut size p h =
      subst
        (λ n. text_of size n (take (size - 1) path ++ (0 ∷ [])) w ≡ done (take (size - 1) path) w)
        (length-take (size - 1) path (omega arith))
        (text_of-terminated size (take (size - 1) path) w
          (omega (arith, length-take (size - 1) path (omega arith))))

  loop_again :
      (fuel allocated : ℕ)
      → length path ≡ allocated - 1
      → exepath_loop env libuv fuel allocated (allocated - 1) path w ≡ done (some path) w
      → exepath_loop env libuv fuel allocated (length path) path w ≡ done (some path) w
  loop_again fuel allocated e h =
      subst (λ n. exepath_loop env libuv fuel allocated n path w ≡ done (some path) w) (sym e) h

  -- A buffer that the path fills exactly counts as too small.
  loop_done :
      (fuel allocated : ℕ) (text : List ℕ)
      → 0 < allocated
      → 1 < fuel
      → length path + 2 < allocated + fuel
      → allocated ≤ 2 ^ 61
      → exepath_loop env libuv fuel allocated (allocated - 1) text w ≡ done (some path) w
  unfolding exepath_loop
  loop_done zero allocated text p q f s = absurd (omega arith)
  loop_done (suc fuel) allocated text p q f s =
      elim (Bool-cases (ltb (length path) (allocated * 2))) [
        | inl fits ↦ elim (Bool-cases (length path == allocated * 2 - 1)) [
          | inl full ↦
              rw
                (
                  ==_refl (allocated - 1),
                  in_range allocated s,
                  has.whole w (allocated * 2) (ground arith),
                  text_of-terminated (allocated * 2) path w (ground arith),
                )
                (loop_again fuel (allocated * 2) (ground arith) (
                  loop_done fuel (allocated * 2) path (omega arith) (ground arith) (ground arith)
                    (ground arith)))
          | inr ends ↦
              rw
                (
                  ==_refl (allocated - 1),
                  in_range allocated s,
                  has.whole w (allocated * 2) (ground arith),
                  text_of-terminated (allocated * 2) path w (ground arith),
                )
                (loop_ends fuel (allocated * 2) (length path) path (omega arith) ends)
        ]
        | inr short ↦
            rw
              (
                ==_refl (allocated - 1),
                in_range allocated s,
                has.cut w (allocated * 2) (ground arith),
                read_cut (allocated * 2) (omega arith) (ground arith),
              )
              (loop_done fuel (allocated * 2) _ (omega arith) (ground arith) (ground arith)
                (ground arith))
      ]

  -- The loop that reads the path of the executable ends with that path within two more iterations
  -- than the path has bytes, for a path shorter than 2 ^ 61 bytes, if libuv cuts the path off
  -- where the buffer ends.
  pub exepath-done : exepath env libuv (length path + 2) w ≡ done (some path) w
  unfolding exepath
  exepath-done =
      loop_done (length path + 2) 32 [] (omega arith) (omega arith) (omega arith) (omega arith)
