-- ===== src/EsiTag/Registry.antt =====
-- esitag/resource.go: the registry of resource handlers, the factories that make them, and
-- `NewResource`. The locks make each operation one step. A handler is an object of a backend: an
-- interface value that the registry only stores, and closes. The maps are association lists.
pub mod Lookups
pub mod NoSql
use caddy_esi.Prelude.{
  ℕ, suc, Bool, true, false, List, [], ◌∷◌, Option, none, some, ltb, length, take, drop,
  if◌then◌else◌,
}
use caddy_esi.Prelude.Result.{Result, ok, err}
use caddy_esi.Prelude.Text.{Bytes, codes, equal, starts_with}

-- `m[key]`, `m[key] = v` and `delete(m, key)`.
module _ {V : Type 0} where
  unfoldable pub lookup : List (Bytes × V) → Bytes → Option V
  lookup [] key = none
  lookup ((k, v) ∷ m) key = let rest = lookup m key in if equal k key then some v else rest

  unfoldable pub put : List (Bytes × V) → Bytes → V → List (Bytes × V)
  put [] key w = (key, w) ∷ []
  put ((k, v) ∷ m) key w =
      let rest = put m key w in if equal k key then (key, w) ∷ m else (k, v) ∷ rest

  unfoldable pub delete : List (Bytes × V) → Bytes → List (Bytes × V)
  delete [] key = []
  delete ((k, v) ∷ m) key = let rest = delete m key in if equal k key then rest else (k, v) ∷ rest

-- strings.Index(s, "://"); `none` is -1.
abbrev pub one_later : Option ℕ → Option ℕ
one_later none = none
one_later (some i) = some (suc i)

unfoldable pub scheme_end : Bytes → Option ℕ
scheme_end [] = none
scheme_end (c ∷ s) =
    let rest = one_later (scheme_end s) in
    if starts_with (codes "://") (c ∷ s) then some 0 else rest

pub record ResourceOptions : Type 0 where
  pub alias : Bytes
  pub url : Bytes
  pub query : Bytes

-- `NewResourceOptions(url, aliasQuery...)`.
abbrev pub new_resource_options : Bytes → List Bytes → ResourceOptions
new_resource_options url (alias ∷ []) = record { alias = alias; url = url; query = [] }
new_resource_options url (alias ∷ query ∷ []) = record { alias = alias; url = url; query = query }
new_resource_options url _ = record { alias = []; url = url; query = [] }

pub data RegistryError : Type 0 where
  unknown_scheme factory_missing factory_failed scheme_not_supported : RegistryError

module _ (Handler : Type 0) where
  pub record Resource : Type 0 where
    pub index : ℕ
    pub url : Bytes
    pub handler : Handler

-- `pos > 1`; strings.ToLower is a parameter.
abbrev pub scheme_alias : (Bytes → Bytes) → Bytes → Option ℕ → Bytes
scheme_alias to_lower url none = url
scheme_alias to_lower url (some pos) = if ltb 1 pos then to_lower (take pos url) else url

module _ {Handler : Type 0} (to_lower : Bytes → Bytes) where
  abbrev pub register_resource_handler :
      List (Bytes × Handler) → Bytes → Handler → List (Bytes × Handler)
  register_resource_handler handlers scheme f = put handlers (to_lower scheme) f

  abbrev pub deregister_resource_handler : List (Bytes × Handler) → Bytes → List (Bytes × Handler)
  deregister_resource_handler handlers scheme = delete handlers (to_lower scheme)

  abbrev pub lookup_resource_handler : List (Bytes × Handler) → Bytes → Option Handler
  lookup_resource_handler handlers scheme = lookup handlers (to_lower scheme)

  abbrev resource_of : ℕ → Bytes → Option Handler → Result RegistryError (Resource Handler)
  resource_of idx url none = err scheme_not_supported
  resource_of idx url (some h) = ok (record { index = idx; url = url; handler = h })

  abbrev pub new_resource :
      List (Bytes × Handler) → ℕ → Bytes → Result RegistryError (Resource Handler)
  new_resource handlers idx url =
      resource_of idx url
        (lookup_resource_handler handlers (scheme_alias to_lower url (scheme_end url)))

-- `CloseAllResourceHandler`: the schemes whose handlers it closes, in the order in which the map is
-- visited, and the scheme of the one that fails.
module _ {Handler : Type 0} (closes : Handler → Bool) where
  abbrev pub close_all : List (Bytes × Handler) → List Bytes × Option Bytes
  close_all [] = ([], none)
  close_all ((scheme, h) ∷ handlers) =
      let (closed, failed) = close_all handlers in
      if closes h then (scheme ∷ closed, failed) else (scheme ∷ [], some scheme)

-- `none` is the error of a factory.
abbrev pub Factory : Type 0 → Type 0
Factory Handler = ResourceOptions → Option Handler

module _ {Handler : Type 0} where
  abbrev made : Option Handler → Result RegistryError Handler
  made none = err factory_failed
  made (some h) = ok h

  abbrev from_factory : Option (Factory Handler) → ResourceOptions → Result RegistryError Handler
  from_factory none opt = err factory_missing
  from_factory (some f) opt = made (f opt)

  abbrev pub new_resource_handler_from_factory :
      List (Bytes × Factory Handler) → Bytes → ResourceOptions → Result RegistryError Handler
  new_resource_handler_from_factory factories [] opt = err factory_missing
  new_resource_handler_from_factory factories (c ∷ scheme) opt =
      from_factory (lookup factories (c ∷ scheme)) opt

  abbrev with_scheme :
      List (Bytes × Factory Handler) → ResourceOptions → Option ℕ → Result RegistryError Handler
  with_scheme factories opt none = err unknown_scheme
  with_scheme factories opt (some idx) =
      new_resource_handler_from_factory factories (take idx opt.url) opt

  abbrev pub new_resource_handler :
      List (Bytes × Factory Handler) → ResourceOptions → Result RegistryError Handler
  new_resource_handler factories opt = with_scheme factories opt (scheme_end opt.url)
