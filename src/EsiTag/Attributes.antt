-- ===== src/EsiTag/Attributes.antt =====
-- esitag/esi_tag.go, `SplitAttributes`. strings.FieldsFunc is modelled as one pass that asks about the
-- runes in their order, each once; the function that the program passes has a state, the last quote.
pub mod RoundTrip
use caddy_esi.Prelude.{
  ℕ, ◌-◌, ◌%◌, Bool, true, false, not, ◌||◌, List, [], ◌∷◌, ◌++◌, ◌==◌, if◌then◌else◌, ltb, length,
  take, drop,
}
use caddy_esi.Prelude.Result.{Result, ok, err}
use caddy_esi.Prelude.Text.{Bytes}
use caddy_esi.Helper.Unicode.{Rune, Unicode}

-- The error of `SplitAttributes`.
pub data Imbalanced : Type 0 where
  imbalanced : Imbalanced

module _ (u : Unicode) where
  -- The function `f`: whether the rune separates fields, and `lastQuote` after it.
  abbrev pub separates : ℕ → ℕ → Bool × ℕ
  separates last_quote c =
      if c == last_quote
      then (false, 0)
      else if not (last_quote == 0)
      then (false, last_quote)
      else if u.is_quote c
      then (false, c)
      else (u.is_space c || c == b'=', last_quote)

  -- An empty field is dropped.
  abbrev pub field : Bytes → List Bytes → List Bytes
  field [] fs = fs
  field (c ∷ cur) fs = (c ∷ cur) ∷ fs

  -- `strings.FieldsFunc(raw, f)`, behind the beginning `cur` of a field.
  unfoldable pub fields_func : ℕ → Bytes → List Rune → List Bytes
  fields_func last_quote cur [] = field cur []
  fields_func last_quote cur (r ∷ rs) =
      let (sep, last_quote') = separates last_quote r.code in
      let next_field = fields_func last_quote' [] rs in
      let same_field = fields_func last_quote' (cur ++ r.bytes) rs in
      if sep then field cur next_field else same_field

  -- `if l := len(val); l-1 > 1 { val = val[1 : len(val)-1] }`.
  abbrev pub unquoted : Bytes → Bytes
  unquoted val = if ltb 2 (length val) then take (length val - 2) (drop 1 val) else val

  -- The loop over the values, each behind its name.
  abbrev pub with_values : List Bytes → List Bytes
  with_values [] = []
  with_values (name ∷ []) = name ∷ []
  with_values (name ∷ val ∷ ret) = name ∷ u.trim_space (unquoted val) ∷ with_values ret

  -- What is left of the fields behind the word include.
  abbrev pub attributes_of : List Bytes → Result Imbalanced (List Bytes)
  attributes_of [] = ok []
  attributes_of (include ∷ ret) =
      if length ret % 2 == 1 then err imbalanced else ok (with_values ret)

  unfoldable pub split_attributes : Bytes → Result Imbalanced (List Bytes)
  split_attributes raw = attributes_of (fields_func 0 [] (u.decode raw))
