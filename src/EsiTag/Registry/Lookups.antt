-- ===== src/EsiTag/Registry/Lookups.antt =====
-- What a registration does to later lookups.
use caddy_esi.Prelude.{
  ℕ, ◌≡◌, ◌≢◌, ◌⊎◌, inl, inr, refl, sym, ap, ◌∙◌, false, List, [], ◌∷◌, none, some, Bool-cases,
}
use mathlib.Core.Bool.{true≢false}
use caddy_esi.Prelude.Result.{ok, err}
use caddy_esi.Prelude.Text.{Bytes, equal, equal_iff, equal_self}
use caddy_esi.EsiTag.Registry.{
  lookup, put, delete, register_resource_handler, deregister_resource_handler, new_resource,
  scheme_alias, scheme_end, scheme_not_supported,
}

pub equal-cases : (a b : Bytes) → (a ≡ b) ⊎ ((a ≢ b) × (equal a b ≡ false))
equal-cases a b = elim (Bool-cases (equal a b)) [
  | inl e ↦ inl ((equal_iff a b).0 e)
  | inr n ↦ inr ((λ e. true≢false (sym ((equal_iff a b).1 e) ∙ n)), n)
]

module _ {V : Type 0} where
  pub lookup-put_self :
      (m : List (Bytes × V)) (key : Bytes) (v : V) → lookup (put m key v) key ≡ some v
  unfolding lookup put
  lookup-put_self [] key v = rw (equal_self key) refl
  lookup-put_self ((k, w) ∷ m) key v = elim (Bool-cases (equal k key)) [
    | inl e ↦ rw (e, put, equal_self key) refl
    | inr n ↦ rw (n, put, n) (lookup-put_self m key v)
  ]

  pub lookup-put_ne :
      (m : List (Bytes × V)) (key other : Bytes) (v : V)
      → equal key other ≡ false
      → lookup (put m key v) other ≡ lookup m other
  unfolding lookup put
  lookup-put_ne [] key other v ne = rw ne refl
  lookup-put_ne ((k, w) ∷ m) key other v ne = elim (Bool-cases (equal k key)) [
    | inl e ↦
        let same : equal k other ≡ false = ap (λ x. equal x other) ((equal_iff k key).0 e) ∙ ne in
        rw (e, put, ne, same) refl
    | inr n ↦ rw (n, put, lookup-put_ne m key other v ne) refl
  ]

  pub lookup-delete_self : (m : List (Bytes × V)) (key : Bytes) → lookup (delete m key) key ≡ none
  unfolding lookup delete
  lookup-delete_self [] key = refl
  lookup-delete_self ((k, w) ∷ m) key = elim (Bool-cases (equal k key)) [
    | inl e ↦ rw (e, delete) (lookup-delete_self m key)
    | inr n ↦ rw (n, delete, n) (lookup-delete_self m key)
  ]

  pub lookup-delete_ne :
      (m : List (Bytes × V)) (key other : Bytes)
      → equal key other ≡ false
      → lookup (delete m key) other ≡ lookup m other
  unfolding lookup delete
  lookup-delete_ne [] key other ne = refl
  lookup-delete_ne ((k, w) ∷ m) key other ne = elim (Bool-cases (equal k key)) [
    | inl e ↦
        let same : equal k other ≡ false = ap (λ x. equal x other) ((equal_iff k key).0 e) ∙ ne in
        rw (e, delete, same) (lookup-delete_ne m key other ne)
    | inr n ↦ rw (n, delete, lookup-delete_ne m key other ne) refl
  ]

-- What `NewResource` returns for a URL whose scheme or alias is `name` in small letters.
abbrev pub name_of : (Bytes → Bytes) → Bytes → Bytes
name_of to_lower url = to_lower (scheme_alias to_lower url (scheme_end url))

module _ {Handler : Type 0} (to_lower : Bytes → Bytes) where
  -- What `NewResource` returns for a URL once `h` is registered for a scheme, and once the scheme is
  -- deregistered again.
  abbrev pub Registers : List (Bytes × Handler) → Bytes → Handler → ℕ → Bytes → Type 0
  Registers handlers scheme h idx url =
      let new = new_resource to_lower in
      let added = register_resource_handler to_lower handlers scheme h in
      let removed = deregister_resource_handler to_lower added scheme in
      ((to_lower scheme ≡ name_of to_lower url)
        × (new added idx url ≡ ok (record { index = idx; url = url; handler = h }))
        × (new removed idx url ≡ err scheme_not_supported))
      ⊎ ((to_lower scheme ≢ name_of to_lower url)
          × (new added idx url ≡ new handlers idx url)
          × (new removed idx url ≡ new handlers idx url))

  -- Registering a handler for a scheme, in letters of any case, makes `NewResource` use it for exactly the
  -- URLs with this scheme or alias; all other URLs give what they gave before. Deregistering the scheme
  -- makes `NewResource` fail for these URLs, and again leaves the others alone.
  pub register-new_resource :
      (handlers : List (Bytes × Handler)) (scheme : Bytes) (h : Handler) (idx : ℕ) (url : Bytes)
      → Registers handlers scheme h idx url
  register-new_resource handlers scheme h idx url =
      let key = to_lower scheme in
      let name = name_of to_lower url in
      let added = put handlers key h in
      elim (equal-cases key name) [
        | inl e ↦
            let found : lookup added name ≡ some h =
              ap (lookup added) (sym e) ∙ lookup-put_self handlers key h in
            let gone : lookup (delete added key) name ≡ none =
              ap (lookup (delete added key)) (sym e) ∙ lookup-delete_self added key in
            inl (e, rw found refl, rw gone refl)
        | inr (ne, n) ↦
            let kept = lookup-put_ne handlers key name h n in
            let also = lookup-delete_ne added key name n ∙ kept in
            inr (ne, rw kept refl, rw also refl)
      ]
