-- ===== src/Helper/CommaList.antt =====
-- helper/strings.go: `CommaListToSlice` and `StringsToInts`. strconv.Atoi is a parameter.
use caddy_esi.Prelude.{List, [], ◌∷◌, Option, none, some, map}
use caddy_esi.Prelude.Int.{ℤ}
use caddy_esi.Prelude.Text.{Bytes}
use caddy_esi.Helper.Strings.{split_on}
use caddy_esi.Helper.Unicode.{Unicode, drop_spaces}

-- `if len(sl) == 1 && sl[0] == ""`.
abbrev pub unless_blank : List Bytes → List Bytes
unless_blank ([] ∷ []) = []
unless_blank sl = sl

abbrev pub comma_list_to_slice : Unicode → Bytes → List Bytes
comma_list_to_slice u str = unless_blank (map (drop_spaces u) (split_on b',' str))

abbrev keep : Option ℤ → List ℤ → List ℤ
keep none vs = vs
keep (some v) vs = v ∷ vs

abbrev pub strings_to_ints : (Bytes → Option ℤ) → List Bytes → List ℤ
strings_to_ints atoi [] = []
strings_to_ints atoi (s ∷ ssl) = keep (atoi s) (strings_to_ints atoi ssl)
