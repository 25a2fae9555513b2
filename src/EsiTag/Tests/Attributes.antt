-- ===== src/EsiTag/Tests/Attributes.antt =====
-- The attributes of a tag.
use caddy_esi.Prelude.{ℕ, ◌≡◌, refl, [], ◌∷◌, arith}
use caddy_esi.Prelude.Result.{ok, err}
use caddy_esi.Prelude.Text.{Bytes, codes}
use caddy_esi.EsiTag.Attributes.{split_attributes, fields_func, imbalanced}
use caddy_esi.EsiTag.Attributes.RoundTrip.{Attribute, IsAttribute, split_attributes-render}
use caddy_esi.EsiTag.Tests.Ascii.{rune, runes, ascii, all_ordinary-AllPlain, all_but-AllBut}

abbrev raw : Bytes
raw = codes "include src='a b' key=\"=x\""

split_raw :
    split_attributes ascii raw ≡ ok (codes "src" ∷ codes "a b" ∷ codes "key" ∷ codes "=x" ∷ [])
unfolding split_attributes fields_func
split_raw = refl

split_one : split_attributes ascii (codes "include src") ≡ err imbalanced
unfolding split_attributes fields_func
split_one = refl

-- The quotes of an empty value are left in place.
split_empty : split_attributes ascii (codes "include src=''") ≡ ok (codes "src" ∷ codes "''" ∷ [])
unfolding split_attributes fields_func
split_empty = refl

abbrev attribute : Bytes → ℕ → Bytes → Attribute
attribute name mark value = record {
  blank = rune 32;
  name = runes name;
  equals = rune b'=';
  quote = rune mark;
  value = runes value;
  mark = mark;
}

source-IsAttribute : IsAttribute ascii (attribute (codes "src") 39 (codes "a b"))
source-IsAttribute = record {
  blank_zero = λ e. omega arith;
  blank_quote = refl;
  blank_space = refl;
  name_plain = all_ordinary-AllPlain (codes "src") refl;
  name_ne = λ e. cc;
  equals_eq = refl;
  equals_quote = refl;
  quote_zero = λ e. omega arith;
  quote_quote = refl;
  quote_bytes = refl;
  value_but = all_but-AllBut 39 (codes "a b") refl;
  value_ne = λ e. cc;
}

key-IsAttribute : IsAttribute ascii (attribute (codes "key") 34 (codes "=x"))
key-IsAttribute = record {
  blank_zero = λ e. omega arith;
  blank_quote = refl;
  blank_space = refl;
  name_plain = all_ordinary-AllPlain (codes "key") refl;
  name_ne = λ e. cc;
  equals_eq = refl;
  equals_quote = refl;
  quote_zero = λ e. omega arith;
  quote_quote = refl;
  quote_bytes = refl;
  value_but = all_but-AllBut 34 (codes "=x") refl;
  value_ne = λ e. cc;
}

split_attributes-render_example :
    split_attributes ascii raw ≡ ok (codes "src" ∷ codes "a b" ∷ codes "key" ∷ codes "=x" ∷ [])
split_attributes-render_example =
    split_attributes-render ascii raw (runes (codes "include"))
      (attribute (codes "src") 39 (codes "a b") ∷ attribute (codes "key") 34 (codes "=x") ∷ [])
      (all_ordinary-AllPlain (codes "include") refl) (λ e. cc)
      (source-IsAttribute, (key-IsAttribute, tt)) refl
