-- ===== src/Http.antt =====
-- Requests of net/http, as far as the program reads them. What a method of the library returns for a
-- request (its cookies, its form values, the texts of its URL) is a field, as the library is not part
-- of the program. A header is the list of its entries, in the order in which a loop visits them.
use caddy_esi.Prelude.{
  Bool, List, [], ◌∷◌, Option, none, some, if◌then◌else◌, ◌≡◌, refl, Bool-cases, inl, inr, false,
  ap, ◌∙◌,
}
use caddy_esi.Prelude.Text.{Bytes, equal, equal_self, equal_iff}

abbrev pub Header : Type 0
Header = List (Bytes × List Bytes)

pub record Cookie : Type 0 where
  pub name : Bytes
  pub value : Bytes

pub record Url : Type 0 where
  pub scheme : Bytes
  pub host : Bytes
  pub path : Bytes
  pub raw_path : Bytes
  pub raw_query : Bytes
  pub fragment : Bytes
  pub request_uri : Bytes
  pub text : Bytes

pub record Request : Type 0 where
  pub method : Bytes
  pub header : Header
  pub cookies : List Cookie
  pub form_value : Bytes → Bytes
  pub tls : Bool
  pub host : Bytes
  pub proto : Bytes
  pub remote_addr : Bytes
  pub url : Url

-- `h[key]`.
unfoldable pub header_values : Header → Bytes → Option (List Bytes)
header_values [] key = none
header_values ((k, vs) ∷ h) key = if equal k key then some vs else header_values h key

abbrev pub first_value : Option (List Bytes) → Bytes
first_value (some (v ∷ vs)) = v
first_value _ = []

-- `h.Get(key)`, for a key in its canonical form.
abbrev pub header_get : Header → Bytes → Bytes
header_get h key = first_value (header_values h key)

-- `h[key] = values`, and with one value `h.Set(key, value)` for a key in its canonical form.
unfoldable pub header_put : Header → Bytes → List Bytes → Header
header_put [] key values = (key, values) ∷ []
header_put ((k, vs) ∷ h) key values =
    let rest = header_put h key values in if equal k key then (k, values) ∷ h else (k, vs) ∷ rest

pub header_values-put :
    (h : Header) (key : Bytes) (values : List Bytes)
    → header_values (header_put h key values) key ≡ some values
unfolding header_values header_put
header_values-put [] key values = rw (equal_self key) refl
header_values-put ((k, vs) ∷ h) key values = elim (Bool-cases (equal k key)) [
  | inl e ↦ rw (e, header_put, e) refl
  | inr e ↦ rw (e, header_put, e) (header_values-put h key values)
]

pub header_values-put_ne :
    (h : Header) (key other : Bytes) (values : List Bytes)
    → equal key other ≡ false
    → header_values (header_put h key values) other ≡ header_values h other
unfolding header_values header_put
header_values-put_ne [] key other values ne = rw ne refl
header_values-put_ne ((k, vs) ∷ h) key other values ne = elim (Bool-cases (equal k key)) [
  | inl e ↦
      let same : equal k other ≡ false = ap (λ x. equal x other) ((equal_iff k key).0 e) ∙ ne in
      rw (e, header_put, same) refl
  | inr e ↦ rw (e, header_put, header_values-put_ne h key other values ne) refl
]
