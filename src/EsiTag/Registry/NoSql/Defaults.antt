-- ===== src/EsiTag/Registry/NoSql/Defaults.antt =====
-- The parameters of a connection.
use mathlib.Core.Path.{subst}
use caddy_esi.Prelude.{
  ◌≡◌, ◌≢◌, refl, sym, ap, ◌∙◌, true, false, inl, inr, List, [], ◌∷◌, some, if◌then◌else◌,
}
use caddy_esi.Prelude.Result.{ok, bind-ok, or_fail, or_fail-ok}
use caddy_esi.Prelude.Text.{Bytes, codes, equal, equal_iff}
use caddy_esi.Http.{Header, header_get, header_put, header_values-put, header_values-put_ne}
use caddy_esi.EsiTag.Registry.Lookups.{equal-cases}
use caddy_esi.EsiTag.Registry.NoSql.{
  ParsedUrl, Urls, url_invalid, query_invalid, default_pool_connection_parameters, or_else,
  host_and_port, set_default, set_defaults, or_empty, Connection, parse_no_sql_url,
}

-- The default of a parameter.
abbrev pub default_for : List (Bytes × Bytes) → Bytes → Bytes
default_for [] key = []
default_for ((k, v) ∷ more) key = if equal k key then v else default_for more key

abbrev AllGiven : List (Bytes × Bytes) → Type 0
AllGiven [] = Unit
AllGiven ((k, v) ∷ more) = (v ≢ []) × AllGiven more

get-put_self :
    (h : Header) (key value : Bytes) → header_get (header_put h key (value ∷ [])) key ≡ value
get-put_self h key value = rw (header_values-put h key (value ∷ [])) refl

get-put_ne :
    (h : Header) (key other value : Bytes)
    → equal key other ≡ false
    → header_get (header_put h key (value ∷ [])) other ≡ header_get h other
get-put_ne h key other value ne = rw (header_values-put_ne h key other (value ∷ []) ne) refl

or_else-nil : (s : Bytes) → or_else s [] ≡ s
or_else-nil [] = refl
or_else-nil (c ∷ s) = refl

-- One default, for the parameter itself and for the others.
set_default_self :
    (given key value : Bytes) (h : Header)
    → header_get h key ≡ given
    → header_get (set_default given key value h) key ≡ or_else given value
set_default_self [] key value h e = get-put_self h key value
set_default_self (c ∷ s) key value h e = e

set_default_ne :
    (given key other value : Bytes) (h : Header)
    → equal key other ≡ false
    → header_get (set_default given key value h) other ≡ header_get h other
set_default_ne [] key other value h ne = get-put_ne h key other value ne
set_default_ne (c ∷ s) key other value h ne = refl

or_else-or_else : (a v d : Bytes) → v ≢ [] → or_else (or_else a v) d ≡ or_else a v
or_else-or_else [] [] d h = absurd (h refl)
or_else-or_else [] (c ∷ v) d h = refl
or_else-or_else (c ∷ a) v d h = refl

get-set_defaults :
    (ds : List (Bytes × Bytes)) (h : Header) (key : Bytes)
    → AllGiven ds
    → header_get (set_defaults ds h) key ≡ or_else (header_get h key) (default_for ds key)
unfolding set_defaults
get-set_defaults [] h key g = sym (or_else-nil (header_get h key))
get-set_defaults ((k, v) ∷ ds) h key (ne, g) =
    let given = header_get h k in
    let h' = set_default given k v h in
    elim (equal-cases k key) [
      | inl e ↦
          let test : equal k key ≡ true = (equal_iff k key).1 e in
          let now : header_get h' key ≡ or_else (header_get h key) v =
            ap (header_get h') (sym e)
            ∙ set_default_self given k v h refl
            ∙ ap (λ x. or_else (header_get h x) v) e in
          get-set_defaults ds h' key g
          ∙ ap (λ x. or_else x (default_for ds key)) now
          ∙ or_else-or_else (header_get h key) v (default_for ds key) ne
          ∙ ap (λ b. or_else (header_get h key) (if b then v else default_for ds key)) (sym test)
      | inr (_, f) ↦
          get-set_defaults ds h' key g
          ∙ ap (λ x. or_else x (default_for ds key)) (set_default_ne given k key v h f)
          ∙ ap (λ b. or_else (header_get h key) (if b then v else default_for ds key)) (sym f)
    ]

-- What a URL that is accepted gives.
pub record Connects (p : Urls) (url : Bytes) (c : Connection) : Type 0 where
  pub u : ParsedUrl
  pub host : Bytes
  pub port : Bytes
  pub given : Header
  pub url_eq : p.parse_url url ≡ some u
  pub split_eq : host_and_port u (p.split_host_port u.host) ≡ ok (host, port)
  pub query_eq : p.parse_query u.raw_query ≡ some given
  pub address_eq : c.address ≡ p.join_host_port (or_else host (codes "localhost")) port
  pub scheme_eq : header_get c.params (codes "scheme") ≡ u.scheme
  pub params_eq :
      (key : Bytes)
      → equal (codes "scheme") key ≡ false
      → header_get c.params key
        ≡ or_else (header_get given key) (default_for default_pool_connection_parameters key)

defaults-AllGiven : AllGiven default_pool_connection_parameters
defaults-AllGiven = (λ e. cc, (λ e. cc, (λ e. cc, (λ e. cc, (λ e. cc, (λ e. cc, tt))))))

-- A URL that `ParseNoSQLURL` accepts gives the address of its host, or of localhost, with its port, or the port
-- of its scheme; the parameter scheme is the scheme of the URL, and each other parameter is the one of the URL
-- if that is not empty, and else its default.
pub parse_no_sql_url-Connects :
    (p : Urls) (url : Bytes) (c : Connection) → parse_no_sql_url p url ≡ ok c → Connects p url c
unfolding parse_no_sql_url
parse_no_sql_url-Connects p url c h =
    let (u, e₁, h₁) = bind-ok (or_fail url_invalid (p.parse_url url)) _ h in
    let ((host, port), e₂, h₂) = bind-ok (host_and_port u (p.split_host_port u.host)) _ h₁ in
    let (given, e₃, h₃) = bind-ok (or_fail query_invalid (p.parse_query u.raw_query)) _ h₂ in
    let before = set_defaults default_pool_connection_parameters given in
    let made : Connection = record {
      address = p.join_host_port (or_else host (codes "localhost")) port;
      password = or_empty u.password;
      params = header_put before (codes "scheme") (u.scheme ∷ []);
    } in
    let same : made ≡ c = cc in
    subst (Connects p url) same (record {
      u = u;
      host = host;
      port = port;
      given = given;
      url_eq = or_fail-ok url_invalid (p.parse_url url) u e₁;
      split_eq = e₂;
      query_eq = or_fail-ok query_invalid (p.parse_query u.raw_query) given e₃;
      address_eq = refl;
      scheme_eq = get-put_self before (codes "scheme") u.scheme;
      params_eq = λ key ne.
          get-put_ne before (codes "scheme") key u.scheme ne
          ∙ get-set_defaults default_pool_connection_parameters given key defaults-AllGiven;
    })
