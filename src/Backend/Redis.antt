-- ===== src/Backend/Redis.antt =====
-- esitag/backend/redis.go. The pool of connections and its protocol are a library, and parameters.
use caddy_esi.Prelude.{Bool, Option, List, [], ◌∷◌, if◌then◌else◌}
use caddy_esi.Prelude.Int.{ℤ}
use caddy_esi.Prelude.Result.{Result, ok, err, ◌>>=◌, or_fail, wrap}
use caddy_esi.Prelude.Text.{Bytes, codes, equal}
use caddy_esi.Http.{header_get}
use caddy_esi.EsiTag.Args.{ResourceArgs}
use caddy_esi.EsiTag.Registry.NoSql.{Urls, parse_no_sql_url, UrlError}
use caddy_esi.Backend.{Answer}
use caddy_esi.Backend.Keyed.{StoreReply}
use caddy_esi.Backend.Race.{StoreReturns}

pub data StoreError : Type 0 where
  url_not_valid : UrlError → StoreError
  max_active_not_valid max_idle_not_valid idle_timeout_not_valid : StoreError
  ping_failed not_pong : StoreError

-- The reply to PING: a string, redis.ErrNil, or another error.
pub data Pinged : Type 0 where
  pong : Bytes → Pinged
  ping_nil ping_error : Pinged

-- `esiRedis`, with what its pool is made of.
pub record EsiRedis : Type 0 where
  pub is_cancellable : Bool
  pub url : Bytes
  pub address : Bytes
  pub password : Bytes
  pub db : Bytes
  pub max_active : ℤ
  pub max_idle : ℤ
  pub idle_timeout : ℤ

pub record RedisLibrary : Type 0 where
  pub urls : Urls
  pub atoi : Bytes → Option ℤ
  pub parse_duration : Bytes → Option ℤ
  pub ping : EsiRedis → Pinged

-- redis.String gives the empty string with redis.ErrNil.
abbrev pub tested_pong : EsiRedis → Pinged → Result StoreError EsiRedis
tested_pong r (pong s) = if equal s (codes "PONG") then ok r else err not_pong
tested_pong r ping_nil = err not_pong
tested_pong r ping_error = err ping_failed

module _ (p : RedisLibrary) where
  abbrev unless_lazy : Bool → EsiRedis → Result StoreError EsiRedis
  unless_lazy lazy r = if lazy then ok r else tested_pong r (p.ping r)

  -- `NewRedis`.
  unfoldable pub new_redis : Bytes → Result StoreError EsiRedis
  new_redis url = do
    conn ← wrap url_not_valid (parse_no_sql_url p.urls url)
    active ← or_fail max_active_not_valid (p.atoi (header_get conn.params (codes "max_active")))
    idle ← or_fail max_idle_not_valid (p.atoi (header_get conn.params (codes "max_idle")))
    timeout ←
        or_fail idle_timeout_not_valid
          (p.parse_duration (header_get conn.params (codes "idle_timeout")))
    unless_lazy (equal (header_get conn.params (codes "lazy")) (codes "1")) (record {
      is_cancellable = equal (header_get conn.params (codes "cancellable")) (codes "1");
      url = url;
      address = conn.address;
      password = conn.password;
      db = header_get conn.params (codes "db");
      max_active = active;
      max_idle = idle;
      idle_timeout = timeout;
    })

-- The commands that the pool sends on a new connection.
pub data RedisCommand : Type 0 where
  auth select : Bytes → RedisCommand

pub data Dialled : Type 0 where
  dial_error : Dialled
  -- The connection is closed again.
  refused : RedisCommand → Dialled
  open_with : List RedisCommand → Dialled

-- `c.Do`: whether it succeeds behind the commands before it.
module _ (dials : Bytes → Bool) (accepts : List RedisCommand → RedisCommand → Bool) where
  abbrev selected : Bytes → List RedisCommand → Dialled
  selected db before =
      if accepts before (select db) then open_with (select db ∷ before) else refused (select db)

  abbrev authorised : Bytes → Bytes → Dialled
  authorised [] db = selected db []
  authorised (c ∷ pw) db =
      if accepts [] (auth (c ∷ pw))
      then selected db (auth (c ∷ pw) ∷ [])
      else refused (auth (c ∷ pw))

  -- The field `Dial` of the pool. The last command comes first.
  unfoldable pub dial : EsiRedis → Dialled
  dial r = if dials r.address then authorised r.password r.db else dial_error

-- `esiRedis.DoRequest`.
abbrev pub RedisReturns : (Bytes → StoreReply) → EsiRedis → ResourceArgs → Answer → Type 0
RedisReturns get r = StoreReturns r.is_cancellable get
