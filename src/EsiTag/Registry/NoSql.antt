-- ===== src/EsiTag/Registry/NoSql.antt =====
-- esitag/resource.go, `ParseNoSQLURL`: the address, the password and the parameters of a connection. url.Parse,
-- url.ParseQuery, net.SplitHostPort and net.JoinHostPort are parameters; url.Values are lists of values by name,
-- as headers are.
pub mod Defaults
use caddy_esi.Prelude.{
  ◌≡◌, ◌≢◌, refl, sym, ap, ◌∙◌, Bool, true, false, ◌⊎◌, inl, inr, List, [], ◌∷◌, Option, none, some,
  Bool-cases, if◌then◌else◌,
}
use caddy_esi.Prelude.Result.{Result, ok, err, ◌>>=◌, bind-ok, or_fail}
use caddy_esi.Prelude.Text.{Bytes, codes, equal, equal_iff}
use caddy_esi.Http.{
  Header, header_get, header_values, header_put, header_values-put, header_values-put_ne,
}
use caddy_esi.EsiTag.Registry.Lookups.{equal-cases}

-- The parts of url.URL; `password` is `none` without user information.
pub record ParsedUrl : Type 0 where
  pub scheme : Bytes
  pub host : Bytes
  pub password : Option Bytes
  pub raw_query : Bytes

-- What net.SplitHostPort returns.
pub data HostPort : Type 0 where
  split_into : Bytes → Bytes → HostPort
  too_many_colons other_failure : HostPort

pub record Urls : Type 0 where
  pub parse_url : Bytes → Option ParsedUrl
  pub split_host_port : Bytes → HostPort
  pub join_host_port : Bytes → Bytes → Bytes
  pub parse_query : Bytes → Option Header

pub data UrlError : Type 0 where
  url_invalid host_invalid scheme_without_port query_invalid : UrlError

abbrev pub default_pool_connection_parameters : List (Bytes × Bytes)
default_pool_connection_parameters =
    (codes "db", codes "0")
    ∷ (codes "max_active", codes "10")
    ∷ (codes "max_idle", codes "400")
    ∷ (codes "idle_timeout", codes "240s")
    ∷ (codes "cancellable", codes "0")
    ∷ (codes "lazy", codes "0")
    ∷ []

abbrev pub or_else : Bytes → Bytes → Bytes
or_else [] s = s
or_else (c ∷ t) s = c ∷ t

-- The host and the port; a host without a port has the port of its scheme.
unfoldable pub host_and_port : ParsedUrl → HostPort → Result UrlError (Bytes × Bytes)
host_and_port u (split_into host port) = ok (host, port)
host_and_port u too_many_colons = err host_invalid
host_and_port u other_failure =
    if equal u.scheme (codes "redis")
    then ok (u.host, codes "6379")
    else if equal u.scheme (codes "memcache")
    then ok (u.host, codes "11211")
    else err scheme_without_port

abbrev pub set_default : Bytes → Bytes → Bytes → Header → Header
set_default [] key value params = header_put params key (value ∷ [])
set_default (c ∷ s) key value params = params

-- The loop over the defaults.
unfoldable pub set_defaults : List (Bytes × Bytes) → Header → Header
set_defaults [] params = params
set_defaults ((key, value) ∷ more) params =
    set_defaults more (set_default (header_get params key) key value params)

abbrev pub or_empty : Option Bytes → Bytes
or_empty none = []
or_empty (some s) = s

pub record Connection : Type 0 where
  pub address : Bytes
  pub password : Bytes
  pub params : Header

module _ (p : Urls) where
  unfoldable pub parse_no_sql_url : Bytes → Result UrlError Connection
  parse_no_sql_url url = do
    u ← or_fail url_invalid (p.parse_url url)
    (host, port) ← host_and_port u (p.split_host_port u.host)
    given ← or_fail query_invalid (p.parse_query u.raw_query)
    ok (record {
      address = p.join_host_port (or_else host (codes "localhost")) port;
      password = or_empty u.password;
      params =
          header_put (set_defaults default_pool_connection_parameters given) (codes "scheme")
            (u.scheme ∷ []);
    })
