-- ===== src/Config/Setup.antt =====
-- setup.go: the directive esi of the Caddyfile. `caddy.Controller` is a parameter, a position in the tokens
-- that its calls move; so are the file system, and the parsers of the standard library and of humanize.
-- Config/Plugin is `PluginSetup`. An error ends the setup: what it has registered is not kept.
pub mod Loops
pub mod Lines
pub mod Blocks
pub mod Loggers
pub mod Ready
use caddy_esi.Prelude.{
  ℕ, zero, suc, ◌+◌, ◌<◌, ◌≤◌, ◌≡◌, Bool, true, false, List, [], ◌∷◌, ◌++◌, Option, none, some,
  ◌==◌, get_or, if◌then◌else◌,
}
use caddy_esi.Prelude.Int.{ℤ, pos}
use caddy_esi.Prelude.Result.{Result, ok, err, wrap, ◌>>=◌, or_fail}
use caddy_esi.Prelude.Text.{Bytes, codes, equal}
use caddy_esi.Helper.CommaList.{comma_list_to_slice}
use caddy_esi.EsiCache.{Caches, CacheError, register}
use caddy_esi.EsiTag.OnError.{on_error_of}
use caddy_esi.EsiTag.Entity.{Parsers}
use caddy_esi.EsiTag.Registry.{
  Factory, RegistryError, register_resource_handler, new_resource_handler, new_resource_options,
}
use caddy_esi.Config.{
  PathConfig, new_path_config, LogLevel, debug_level, info_level, fatal_level, LogWriter, std_err,
  std_out, log_to, Log, black_hole, zap, default_time_out, default_max_body_size, default_on_error,
}
use caddy_esi.Config.Items.{ResourceItem, ItemsError, Sources, unmarshal_resource_items}

pub record Env (Handler : Type 0) : Type 0 where
  pub parsers : Parsers
  pub sources : Sources
  pub factories : List (Bytes × Factory Handler)
  -- os.OpenFile for a log.
  pub can_open : Bytes → Bool

-- The registry of the resource handlers.
abbrev pub Handlers : Type 0 → Type 0
Handlers Handler = List (Bytes × Handler)

-- The registries that the program shares.
pub record Registries (Handler : Type 0) : Type 0 where
  pub handlers : Handlers Handler
  pub caches : List (Bytes × Caches)

pub data SetupError : Type 0 where
  too_many_args missing_arg duration_invalid size_invalid on_error_failed key_not_supported :
      SetupError
  log_file_failed : SetupError
  items_failed : ItemsError → SetupError
  handler_failed : RegistryError → SetupError
  cache_failed : CacheError → SetupError

abbrev pub level_of : Bytes → Option LogLevel
level_of level =
    if equal level (codes "debug")
    then some debug_level
    else if equal level (codes "info")
    then some info_level
    else if equal level (codes "fatal")
    then some fatal_level
    else none

abbrev pub log_into : (Bytes → Bool) → PathConfig → LogLevel → Result SetupError PathConfig
log_into can_open pc level =
    if equal pc.log_file (codes "stderr")
    then ok (record pc { log = zap level std_err })
    else if equal pc.log_file (codes "stdout")
    then ok (record pc { log = zap level std_out })
    else if equal pc.log_file []
    then ok (record pc { log = black_hole })
    else if can_open pc.log_file
    then ok (record pc { log = zap level (log_to pc.log_file) })
    else err log_file_failed

abbrev pub with_level : (Bytes → Bool) → PathConfig → Option LogLevel → Result SetupError PathConfig
with_level can_open pc none = ok (record pc { log = black_hole })
with_level can_open pc (some level) = log_into can_open pc level

unfoldable pub setup_logger : (Bytes → Bool) → PathConfig → Result SetupError PathConfig
setup_logger can_open pc = with_level can_open pc (level_of pc.log_level)

-- The cases of `configLoadParams`.
pub data ParamKey : Type 0 where
  timeout ttl max_body_size cache page_id_source allowed_methods cmd_header_name : ParamKey
  on_error log_file log_level resources other : ParamKey

unfoldable pub param_key : Bytes → ParamKey
param_key key =
    if equal key (codes "timeout")
    then timeout
    else if equal key (codes "ttl")
    then ttl
    else if equal key (codes "max_body_size")
    then max_body_size
    else if equal key (codes "cache")
    then cache
    else if equal key (codes "page_id_source")
    then page_id_source
    else if equal key (codes "allowed_methods")
    then allowed_methods
    else if equal key (codes "cmd_header_name")
    then cmd_header_name
    else if equal key (codes "on_error")
    then on_error
    else if equal key (codes "log_file")
    then log_file
    else if equal key (codes "log_level")
    then log_level
    else if equal key (codes "resources")
    then resources
    else other

-- All cases but `default`.
abbrev pub is_known : ParamKey → Bool
is_known other = false
is_known _ = true

-- `if len(pc.OnError) == 0 { … }`, and the like.
abbrev pub or_message : Bytes → Bytes
or_message [] = default_on_error
or_message (b ∷ s) = b ∷ s

abbrev pub or_time_out : ℤ → ℤ
or_time_out (pos n) = if n == 0 then default_time_out else pos n
or_time_out t = t

abbrev pub with_setup_defaults : PathConfig → PathConfig
with_setup_defaults pc = record pc {
  max_body_size = if pc.max_body_size == 0 then default_max_body_size else pc.max_body_size;
  timeout = or_time_out pc.timeout;
  on_error = or_message pc.on_error;
}

-- The path of the directive.
abbrev pub scope_of : List Bytes → Result SetupError Bytes
scope_of [] = ok (codes "/")
scope_of (scope ∷ []) = ok scope
scope_of _ = err too_many_args

module _ {Handler : Type 0} (env : Env Handler) where
  -- The loop over the items.
  unfoldable pub register_items :
      List ResourceItem → Handlers Handler → Result SetupError (Handlers Handler)
  register_items [] handlers = ok handlers
  register_items (item ∷ items) handlers = do
    f ← wrap handler_failed (
        new_resource_handler env.factories
          (new_resource_options item.url (item.alias ∷ item.query ∷ [])))
    register_items items
        (register_resource_handler env.parsers.unicode.to_lower handlers item.alias f)

  -- A case of `configLoadParams` behind its `NextArg`.
  unfoldable pub set_param :
      ParamKey
      → Bytes
      → PathConfig
      → Registries Handler
      → Result SetupError (PathConfig × Registries Handler)
  set_param timeout value pc hs = do
    d ← or_fail duration_invalid (env.parsers.parse_duration value)
    ok (record pc { timeout = d }, hs)
  set_param ttl value pc hs = do
    d ← or_fail duration_invalid (env.parsers.parse_duration value)
    ok (record pc { ttl = d }, hs)
  set_param max_body_size value pc hs = do
    d ← or_fail size_invalid (env.parsers.parse_bytes value)
    ok (record pc { max_body_size = d }, hs)
  set_param cache value pc hs = do
    caches ← wrap cache_failed (register hs.caches pc.scope value)
    ok (pc, record hs { caches = caches })
  set_param page_id_source value pc hs =
      ok (record pc { page_id_source = comma_list_to_slice env.parsers.unicode value }, hs)
  set_param allowed_methods value pc hs = ok (
    record pc {
      allowed_methods =
          comma_list_to_slice env.parsers.unicode (env.parsers.unicode.to_upper value);
    },
    hs,
  )
  set_param cmd_header_name value pc hs =
      ok (record pc { cmd_header_name = env.parsers.canonical_header_key value }, hs)
  set_param on_error value pc hs = do
    content ←
        or_fail on_error_failed (on_error_of env.parsers.files env.parsers.unicode.to_lower value)
    ok (record pc { on_error = content }, hs)
  set_param log_file value pc hs = ok (record pc { log_file = value }, hs)
  set_param log_level value pc hs =
      ok (record pc { log_level = env.parsers.unicode.to_lower value }, hs)
  set_param resources value pc hs = do
    items ← wrap items_failed (unmarshal_resource_items env.sources value)
    handlers ← register_items items hs.handlers
    ok (pc, record hs { handlers = handlers })
  set_param other value pc hs = err key_not_supported
