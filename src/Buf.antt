-- ===== src/Buf.antt =====
-- src/buf.rs: indexing a buffer by a range. The contents are the bytes, absent in a buffer that has
-- no memory; a panic is `none`.
pub mod Change
pub mod Make
pub mod Owned
pub mod Storage
use libuv_rs.Common.{
  ℕ, ◌+◌, ◌-◌, ◌%◌, ◌^◌, ◌≤◌, ◌<◌, ◌≡◌, refl, ap, sym, subst, inl, inr, zero, suc, Option, none,
  some, List, [], ◌∷◌, length, take, drop, take-drop, length-take, ◌++◌, ltb, leb, if◌then◌else◌,
  Bool-cases, arith,
}

-- `std::ops::Bound`.
pub data Bound : Type 0 where
  included : ℕ → Bound
  excluded : ℕ → Bound
  unbounded : Bound

abbrev pub bytes : Option (List ℕ) → List ℕ
bytes none = []
bytes (some xs) = xs

abbrev pub start_of : Bound → ℕ
start_of (included i) = i
start_of (excluded i) = (i + 1) % 2 ^ 64
start_of unbounded = 0

abbrev pub end_of : Bound → ℕ → ℕ
end_of (included i) len = (i + 1) % 2 ^ 64
end_of (excluded i) len = i
end_of unbounded len = len

unfoldable pub range_from_readonlybuf : Option (List ℕ) → Bound → Bound → Option (List ℕ)
range_from_readonlybuf buf start_bound end_bound =
    let len = length (bytes buf) in
    let start = start_of start_bound in
    let end = end_of end_bound len in
    if ltb end start
    then none
    else if leb len end
    then none
    else some (take (end - start) (drop start (bytes buf)))

length-take-drop : (xs : List ℕ) (n i : ℕ) → i + n ≤ length xs → length (take n (drop i xs)) ≡ n
length-take-drop xs zero zero h = refl
length-take-drop [] zero (suc i) h = refl
length-take-drop (x ∷ xs) zero (suc i) h = refl
length-take-drop [] (suc n) i h = ground arith
length-take-drop (x ∷ xs) (suc n) zero h = ap suc (length-take-drop xs n zero (ground arith))
length-take-drop (x ∷ xs) (suc n) (suc i) h = length-take-drop xs (suc n) i (ground arith)

abbrev window : List ℕ → ℕ → ℕ → Option (List ℕ)
window xs i j =
    if ltb j i then none else if leb (length xs) j then none else some (take (j - i) (drop i xs))

-- `out` stands in `xs` from `i` up to, and without, `j`.
abbrev pub Between : List ℕ → ℕ → ℕ → List ℕ → Type 0
Between xs i j out =
    (front : List ℕ) × (back : List ℕ) × (xs ≡ front ++ (out ++ back))
    × (length front ≡ i)
    × (i + length out ≡ j)

Between-take :
    (xs : List ℕ) (i j : ℕ) → i ≤ j → j < length xs → Between xs i j (take (j - i) (drop i xs))
Between-take xs i j ordered inside = (
  take i xs,
  drop (j - i) (drop i xs),
  sym (rw (take-drop (j - i) (drop i xs)) (take-drop i xs)),
  length-take i xs (omega arith),
  omega (arith, length-take-drop xs (j - i) i (omega arith)),
)

some_inj : {a b : List ℕ} → some a ≡ some b → a ≡ b
some_inj e = cc e

window_lem :
    (xs : List ℕ) (i j : ℕ) (out : List ℕ)
    → window xs i j ≡ some out
    → Between xs i j out × (j < length xs)
window_lem xs i j out h = elim (Bool-cases (ltb j i)) [
  | inl bad ↦ ground (arith, bad, h)
  | inr ordered ↦ elim (Bool-cases (leb (length xs) j)) [
    | inl bad ↦ ground (arith, bad, ordered, h)
    | inr inside ↦ (
      subst (Between xs i j) (some_inj (rw (ordered, inside) at h))
          (Between-take xs i j (ground arith) (ground arith)),
      ground arith,
    )
  ]
]

-- A range of a buffer that does not panic has exactly the bytes of the buffer from the start of
-- the range to its end, and ends before the end of the buffer.
pub range_from_readonlybuf_lem :
    (buf : Option (List ℕ)) (s e : Bound) (out : List ℕ)
    → range_from_readonlybuf buf s e ≡ some out
    → Between (bytes buf) (start_of s) (end_of e (length (bytes buf))) out
      × (end_of e (length (bytes buf)) < length (bytes buf))
unfolding range_from_readonlybuf
range_from_readonlybuf_lem buf s e out h =
    window_lem (bytes buf) (start_of s) (end_of e (length (bytes buf))) out h

-- Indexing any buffer by a range without an end panics, whatever the buffer holds and wherever the
-- range starts.
pub range_from_readonlybuf-unbounded :
    (buf : Option (List ℕ)) (s : Bound) → range_from_readonlybuf buf s unbounded ≡ none
unfolding range_from_readonlybuf
range_from_readonlybuf-unbounded buf s = ground arith
