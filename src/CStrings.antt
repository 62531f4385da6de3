-- ===== src/CStrings.antt =====
-- Arrays of C strings, as src/handles/process.rs builds them for libuv: `CString::into_raw` for
-- each text, a null pointer at the end, and `CString::from_raw` for each afterwards.
pub mod Laws
use libuv_rs.Common.{
  ℕ, ◌-◌, ◌==◌, Bool, true, false, ◌&&◌, not, List, [], ◌∷◌, if◌then◌else◌, length, take,
}
use libuv_rs.Memory.{Ptr, null, Block, c_string}
use libuv_rs.Memory.Effect.{
  Fault, Eff, pure, crash, ◌>>=◌, ◌>>◌, Env, load, release, box_into_raw, c_string_new, has_nul,
}

abbrev pub as_c_string : Block → Eff (List ℕ)
as_c_string (c_string s) = pure s
as_c_string _ = crash Fault.wrong_block

-- What a C function reads at a pointer to a text.
unfoldable pub load_c_string : Ptr → Eff (List ℕ)
unfolding load
load_c_string p = do b ← load p; as_c_string b

-- What a C function reads of an array of texts that a null pointer ends.
unfoldable pub read_array : List Ptr → Eff (List (List ℕ))
unfolding load_c_string
read_array [] = crash Fault.out_of_bounds
read_array (p ∷ ps) =
    if p == null
    then pure []
    else (do text ← load_c_string p; texts ← read_array ps; pure (text ∷ texts))

-- `iter().map(|a| CString::new(a).map(into_raw)).chain(once(Ok(null))).collect()?`: the first text
-- with an inner zero byte ends it, and drops the pointers that there are, not the texts.
unfoldable pub into_raw_all : Env → List (List ℕ) → Eff (List Ptr)
unfolding c_string_new box_into_raw
into_raw_all env [] = pure (null ∷ [])
into_raw_all env (text ∷ texts) = do
  s ← c_string_new text
  p ← box_into_raw env (c_string s)
  ps ← into_raw_all env texts
  pure (p ∷ ps)

-- `CString::from_raw` for each, and dropping them.
unfoldable pub from_raw_all : List Ptr → Eff (Unit {0})
unfolding load_c_string release
from_raw_all [] = pure tt
from_raw_all (p ∷ ps) = do load_c_string p; release p; from_raw_all ps

-- All but the null pointer at the end.
unfoldable pub reclaim : List Ptr → Eff (Unit {0})
unfolding from_raw_all
reclaim ps = from_raw_all (take (length ps - 1) ps)
