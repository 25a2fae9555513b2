-- ===== src/Backend/MemCache.antt =====
-- esitag/backend/memcache.go. The client is a library, and a parameter.
use caddy_esi.Prelude.{Bool, List, [], ◌∷◌, Option, none, some, if◌then◌else◌}
use caddy_esi.Prelude.Int.{ℤ}
use caddy_esi.Prelude.Result.{Result, ok, err, ◌>>=◌, or_fail, wrap}
use caddy_esi.Prelude.Text.{Bytes, codes, equal}
use caddy_esi.Http.{header_get, header_values}
use caddy_esi.EsiTag.Args.{ResourceArgs}
use caddy_esi.EsiTag.Registry.NoSql.{Urls, parse_no_sql_url}
use caddy_esi.Backend.{Answer}
use caddy_esi.Backend.Keyed.{StoreReply, absent, get_error, value}
use caddy_esi.Backend.Race.{StoreReturns}
use caddy_esi.Backend.Redis.{StoreError, url_not_valid, idle_timeout_not_valid, ping_failed}

-- `esiMemCache`, with the servers and the timeout of its pool.
pub record EsiMemCache : Type 0 where
  pub is_cancellable : Bool
  pub url : Bytes
  pub servers : List Bytes
  pub timeout : ℤ

pub record MemCacheLibrary : Type 0 where
  pub urls : Urls
  pub parse_duration : Bytes → Option ℤ
  pub get : EsiMemCache → Bytes → StoreReply

-- `params["server"]`.
abbrev pub more_servers : Option (List Bytes) → List Bytes
more_servers none = []
more_servers (some l) = l

-- A key that is not there is no failure.
abbrev pub tested_get : EsiMemCache → StoreReply → Result StoreError EsiMemCache
tested_get mc absent = ok mc
tested_get mc get_error = err ping_failed
tested_get mc (value v) = ok mc

module _ (p : MemCacheLibrary) where
  abbrev unless_lazy : Bool → EsiMemCache → Result StoreError EsiMemCache
  unless_lazy lazy mc =
      if lazy then ok mc else tested_get mc (p.get mc (codes "caddyesi_key_not_found"))

  -- `NewMemCache`.
  unfoldable pub new_mem_cache : Bytes → Result StoreError EsiMemCache
  new_mem_cache url = do
    conn ← wrap url_not_valid (parse_no_sql_url p.urls url)
    timeout ←
        or_fail idle_timeout_not_valid
          (p.parse_duration (header_get conn.params (codes "idle_timeout")))
    unless_lazy (equal (header_get conn.params (codes "lazy")) (codes "1")) (record {
      is_cancellable = equal (header_get conn.params (codes "cancellable")) (codes "1");
      url = url;
      servers = conn.address ∷ more_servers (header_values conn.params (codes "server"));
      timeout = timeout;
    })

-- `esiMemCache.DoRequest`.
abbrev pub MemCacheReturns : (Bytes → StoreReply) → EsiMemCache → ResourceArgs → Answer → Type 0
MemCacheReturns get mc = StoreReturns mc.is_cancellable get
