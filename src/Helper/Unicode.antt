-- ===== src/Helper/Unicode.antt =====
-- Strings as runes, as `range` and the package strings read them. The decoding and the classes of runes
-- are libraries, and parameters.
use caddy_esi.Prelude.{ℕ, Bool, List, [], ◌∷◌, ◌++◌, if◌then◌else◌}
use caddy_esi.Prelude.Text.{Bytes}

-- A rune, and the bytes that it stands for in its string.
pub record Rune : Type 0 where
  pub code : ℕ
  pub bytes : Bytes

pub record Unicode : Type 0 where
  pub decode : Bytes → List Rune
  pub is_quote : ℕ → Bool
  pub is_space : ℕ → Bool
  pub to_lower : Bytes → Bytes
  pub to_upper : Bytes → Bytes
  pub trim_space : Bytes → Bytes

abbrev pub encoded : List Rune → Bytes
encoded [] = []
encoded (r ∷ rs) = r.bytes ++ encoded rs

-- `strings.Map(dropSpaces, s)`, for a valid string.
abbrev pub without_spaces : (ℕ → Bool) → List Rune → Bytes
without_spaces is_space [] = []
without_spaces is_space (r ∷ rs) =
    let rest = without_spaces is_space rs in if is_space r.code then rest else r.bytes ++ rest

abbrev pub drop_spaces : Unicode → Bytes → Bytes
drop_spaces u s = without_spaces u.is_space (u.decode s)
