-- ===== src/EsiTag/Replacer/Values.antt =====
-- Where the values of placeholders come from: what holds of all parts of a request that the replacer
-- reads holds of every value.
use caddy_esi.Prelude.{List, [], ◌∷◌, Option, none, some, ◌==◌, get_or, inl, inr, Bool-cases}
use caddy_esi.Prelude.Text.{Bytes, equal}
use caddy_esi.Http.{Request}
use caddy_esi.EsiTag.Replacer.{
  Outside, make_replacer, or_value, or_nonempty, header_value, cookie_value, default_value,
  get_substitution, switch, default_cases, wanted,
}
use caddy_esi.EsiTag.Replacer.Replaces.{value}

abbrev pub AllCases : (Bytes → Type 0) → List (Bytes × Bytes) → Type 0
AllCases P [] = Unit
AllCases P ((k, v) ∷ cases) = P v × AllCases P cases

switch-all :
    (P : Bytes → Type 0) (key : Bytes) (cases : List (Bytes × Bytes)) (default : Bytes)
    → AllCases P cases
    → P default
    → P (switch key cases default)
unfolding switch
switch-all P key [] default h d = d
switch-all P key ((k, v) ∷ cases) default (hv, h) d = elim (Bool-cases (equal key k)) [
  | inl e ↦ rw e hv
  | inr e ↦ rw e (switch-all P key cases default h d)
]

module _ (P : Bytes → Type 0) (o : Outside) (q : Request) (empty_value : Bytes) where
  or_value-all : (v : Option Bytes) (d : Bytes) → P (or_value v []) → P d → P (or_value v d)
  or_value-all none d h k = k
  or_value-all (some v) d h k = h

  or_nonempty-all : (v d : Bytes) → P v → P d → P (or_nonempty v d)
  or_nonempty-all [] d h k = k
  or_nonempty-all (c ∷ v) d h k = h

  default_value-all :
      AllCases P (default_cases o q empty_value)
      → P empty_value
      → (key : Bytes) → P (default_value o q empty_value key)
  unfolding default_value
  default_value-all d e key = switch-all P key (default_cases o q empty_value) empty_value d e

  -- A property of the empty string, and of all headers, cookies, form values and default values of a
  -- request, is one of the values of all placeholders.
  pub value-all :
      AllCases P (default_cases o q empty_value)
      → P empty_value
      → ((name : Bytes) → P (or_value (header_value o q.header name) []))
      → ((name : Bytes) → P (or_value (cookie_value q.cookies name) []))
      → ((name : Bytes) → P (q.form_value name))
      → (key : Bytes) → P (value o (make_replacer q empty_value) key)
  unfolding get_substitution
  value-all d e h c f key =
      let r = make_replacer q empty_value in
      let default : P (default_value o q empty_value key) = default_value-all d e key in
      elim (Bool-cases (get_or key 1 0 == b'H')) [
        | inl a ↦
            rw (a, value, get_substitution)
              (or_value-all (header_value o q.header (wanted key)) _ (h (wanted key)) default)
        | inr a ↦ elim (Bool-cases (get_or key 1 0 == b'C')) [
          | inl b ↦
              rw (a, b, value, get_substitution)
                (or_value-all (cookie_value q.cookies (wanted key)) _ (c (wanted key)) default)
          | inr b ↦ elim (Bool-cases (get_or key 1 0 == b'F')) [
            | inl k ↦
                rw (a, b, k, value, get_substitution)
                  (or_nonempty-all (q.form_value (wanted key)) empty_value (f (wanted key)) e)
            | inr k ↦ rw (a, b, k, value, get_substitution) default
          ]
        ]
      ]
