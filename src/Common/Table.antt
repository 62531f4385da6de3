-- ===== src/Common/Table.antt =====
-- A `match` on constants, each arm a constant and what it maps to: the first arm that fits wins.
use libuv_rs.Common.Int.{ℤ, pos, negsuc, ◌==ℤ◌, ==ℤ_refl}
use libuv_rs.Common.Tests.{if◌then◌else◌}
use libuv_rs.Common.Lists.{get_elem?}
use Prim.Native.Nat.{ℕ, zero, suc}
use mathlib.Core.Path.{◌≡◌, refl}
use mathlib.Core.Bool.{Bool, true, false, ◌&&◌, not}
use mathlib.Core.Option.{some}
use mathlib.Core.List.{List, [], ◌∷◌, ◌++◌}
use native.Mathlib.Omega.{arith}

==ℤ_false : (a b : ℤ) → (a ==ℤ b) ≡ false → (b ==ℤ a) ≡ false
==ℤ_false (pos a) (pos b) h = ground arith
==ℤ_false (negsuc a) (negsuc b) h = ground arith
==ℤ_false (pos a) (negsuc b) h = refl
==ℤ_false (negsuc a) (pos b) h = refl

module _ {K V : Type 0} (value : K → ℤ) where
  unfoldable pub match_arms : List (K × V) → V → ℤ → V
  match_arms [] other code = other
  match_arms ((k, v) ∷ arms) other code = if code ==ℤ value k then v else match_arms arms other code

  -- No arm of the list tests for `code`.
  unfoldable pub is_fresh : ℤ → List (K × V) → Bool
  is_fresh code [] = true
  is_fresh code ((k, v) ∷ arms) = not (value k ==ℤ code) && is_fresh code arms

  -- The constants of the arms are pairwise distinct.
  unfoldable pub is_distinct : List (K × V) → Bool
  unfolding is_fresh
  is_distinct [] = true
  is_distinct ((k, v) ∷ arms) = is_fresh (value k) arms && is_distinct arms

  is_fresh-get_elem? :
      (arms : List (K × V)) (i : ℕ) (code : ℤ) {k : K} {v : V}
      → is_fresh code arms ≡ true
      → get_elem? arms i ≡ some (k, v)
      → (value k ==ℤ code) ≡ false
  unfolding is_fresh
  is_fresh-get_elem? [] i code h e = cc
  is_fresh-get_elem? ((k', v') ∷ arms) zero code h e = ground arith
  is_fresh-get_elem? ((k', v') ∷ arms) (suc i) code h e =
      is_fresh-get_elem? arms i code (ground arith) e

  -- With distinct constants each arm is reached by its own constant.
  pub match_arms-get_elem? :
      (arms : List (K × V)) (i : ℕ) (other : V) {k : K} {v : V}
      → is_distinct arms ≡ true
      → get_elem? arms i ≡ some (k, v)
      → match_arms arms other (value k) ≡ v
  unfolding match_arms is_distinct
  match_arms-get_elem? [] i other h e = cc
  match_arms-get_elem? ((k', v') ∷ arms) zero other {k} h e = ground (arith, ==ℤ_refl (value k))
  match_arms-get_elem? ((k', v') ∷ arms) (suc i) other {k} h e = ground (
    arith,
    is_fresh-get_elem? arms i (value k') {k = k} (ground arith) e,
    match_arms-get_elem? arms i other {k = k} (ground arith) e,
  )

  -- A last arm for the default changes nothing.
  pub match_arms-append :
      (arms : List (K × V)) (other : V) (code : ℤ) (k : K)
      → match_arms arms other code ≡ match_arms (arms ++ (k, other) ∷ []) other code
  unfolding match_arms
  match_arms-append [] other code k = ground arith
  match_arms-append ((k', v) ∷ arms) other code k =
      ground (arith, match_arms-append arms other code k)

  -- A code that no arm tests for takes the default.
  pub match_arms-is_fresh :
      (arms : List (K × V)) (other : V) (code : ℤ)
      → is_fresh code arms ≡ true
      → match_arms arms other code ≡ other
  unfolding match_arms is_fresh
  match_arms-is_fresh [] other code h = refl
  match_arms-is_fresh ((k, v) ∷ arms) other code h =
      ground (arith, ==ℤ_false (value k) code, match_arms-is_fresh arms other code)
