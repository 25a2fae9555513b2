-- ===== src/Config.antt =====
-- config.go: the configuration of a path, and its cache of the tags of each page. The locks of the cache
-- make each operation one step. What is written to a logger is not modelled. httpserver.Path.Matches and the hash
-- xxHash64.Checksum are libraries, and parameters.
pub mod Cache
pub mod Items
pub mod Setup
pub mod Plugin
mod Tests
use caddy_esi.Prelude.{
  ℕ, Bool, true, false, List, [], ◌∷◌, ◌++◌, Option, none, some, ◌==◌, ◌&&◌, ltb, if◌then◌else◌,
  length, take, drop, map,
}
use caddy_esi.Prelude.Int.{ℤ, pos, ltb_ℤ}
use caddy_esi.Prelude.Text.{Bytes, codes, equal}
use caddy_esi.Http.{Cookie, Request, header_get}
use caddy_esi.EsiTag.Entity.{Entity, TagConfig}
use caddy_esi.Helper.RealIp.{Net, real_ip}

-- A handler, by the number of the object that the interface value stands for.
abbrev pub Reference : Type 0
Reference = ℕ

pub data LogLevel : Type 0 where
  debug_level info_level fatal_level : LogLevel

pub data LogWriter : Type 0 where
  std_err std_out : LogWriter
  log_to : Bytes → LogWriter

-- A logger: how much it writes, and where to.
pub data Log : Type 0 where
  black_hole : Log
  zap : LogLevel → LogWriter → Log

pub record PathConfig : Type 0 where
  pub scope : Bytes
  pub max_body_size : ℕ
  pub timeout : ℤ
  pub ttl : ℤ
  pub cmd_header_name : Bytes
  pub page_id_source : List Bytes
  pub allowed_methods : List Bytes
  pub on_error : Bytes
  pub log_file : Bytes
  pub log_level : Bytes
  pub log : Log
  pub esi_cache : List (ℕ × List (Entity Reference))

abbrev pub default_time_out : ℤ
default_time_out = pos 20_000_000_000

abbrev pub default_max_body_size : ℕ
default_max_body_size = 5_242_880

abbrev pub default_on_error : Bytes
default_on_error = codes "Resource not available"

-- `NewPathConfig`; the logger is nil at first.
abbrev pub new_path_config : PathConfig
new_path_config = record {
  scope = [];
  max_body_size = 0;
  timeout = default_time_out;
  ttl = pos 0;
  cmd_header_name = [];
  page_id_source = [];
  allowed_methods = [];
  on_error = [];
  log_file = [];
  log_level = [];
  log = black_hole;
  esi_cache = [];
}

-- `Entity.SetDefaultConfig` of esitag/esi_tag.go, with the values of the configuration.
abbrev pub set_default_config : PathConfig → Entity Reference → Entity Reference
set_default_config pc et =
    let c = et.config in
    record et {
      config = record c {
        max_body_size =
            if c.max_body_size == 0 && ltb 0 pc.max_body_size
            then pc.max_body_size
            else c.max_body_size;
        timeout =
            if ltb_ℤ c.timeout (pos 1) && ltb_ℤ (pos 0) pc.timeout then pc.timeout else c.timeout;
        ttl = if ltb_ℤ c.ttl (pos 1) && ltb_ℤ (pos 0) pc.ttl then pc.ttl else c.ttl;
      };
    }

abbrev pub or_on_error : Bytes → Bytes → Bytes
or_on_error [] default = default
or_on_error (c ∷ s) default = c ∷ s

abbrev pub with_defaults : PathConfig → Entity Reference → Entity Reference
with_defaults pc et =
    set_default_config pc (record et { on_error = or_on_error et.on_error pc.on_error })

-- `cache[id]` and `cache[id] = entities`.
unfoldable pub cached : List (ℕ × List (Entity Reference)) → ℕ → Option (List (Entity Reference))
cached [] id = none
cached ((k, es) ∷ cache) id = let rest = cached cache id in if k == id then some es else rest

unfoldable pub cache_put :
    List (ℕ × List (Entity Reference))
    → ℕ
    → List (Entity Reference)
    → List (ℕ × List (Entity Reference))
cache_put [] id entities = (id, entities) ∷ []
cache_put ((k, es) ∷ cache) id entities =
    let rest = cache_put cache id entities in
    if k == id then (id, entities) ∷ cache else (k, es) ∷ rest

abbrev pub upsert_esi_tags : PathConfig → ℕ → List (Entity Reference) → PathConfig
upsert_esi_tags pc page_id entities = record pc {
  esi_cache = cache_put pc.esi_cache page_id (map (with_defaults pc) entities);
}

abbrev pub purge_esi_cache : PathConfig → PathConfig × ℕ
purge_esi_cache pc = (record pc { esi_cache = [] }, length pc.esi_cache)

abbrev pub has_method : List Bytes → Bytes → Bool
has_method [] method = false
has_method (m ∷ ms) method = if equal method m then true else has_method ms method

abbrev pub is_request_allowed : PathConfig → Request → Bool
is_request_allowed pc r = elim pc.allowed_methods [
  | [] ↦ equal r.method (codes "GET")
  | m ∷ ms ↦ has_method (m ∷ ms) r.method
]

abbrev pub config_for_path : (Bytes → Bytes → Bool) → List PathConfig → Request → Option PathConfig
config_for_path matches [] r = none
config_for_path matches (c ∷ cs) r =
    let rest = config_for_path matches cs r in if matches r.url.path c.scope then some c else rest

abbrev pub default_page_id_source : List Bytes
default_page_id_source = codes "host" ∷ codes "path" ∷ []

abbrev cookie_named : List Cookie → Bytes → Bytes
cookie_named [] name = []
cookie_named (c ∷ cs) name =
    let rest = cookie_named cs name in if equal c.name name then c.value else rest

-- `canonical` is textproto.CanonicalMIMEHeaderKey, as `Header.Get` applies it.
module _ (net : Net) (hash : Bytes → ℕ → ℕ) (canonical : Bytes → Bytes) where
  -- What a long key with the prefix of a cookie or of a header contributes.
  abbrev pub prefixed_part : Request → Bytes → Bytes
  prefixed_part r key =
      if ltb 7 (length key)
      then (if equal (take 6 key) (codes "cookie")
          then cookie_named r.cookies (drop 7 key)
          else if equal (take 6 key) (codes "header")
          then header_get r.header (canonical (drop 7 key))
          else [])
      else []

  abbrev pub named_part : Request → Bytes → Bytes
  named_part r key =
      if equal key (codes "remoteaddr")
      then r.remote_addr
      else if equal key (codes "realip")
      then real_ip net r
      else if equal key (codes "scheme")
      then r.url.scheme
      else if equal key (codes "host")
      then r.url.host
      else if equal key (codes "path")
      then r.url.path
      else if equal key (codes "rawpath")
      then r.url.raw_path
      else if equal key (codes "rawquery")
      then r.url.raw_query
      else if equal key (codes "url")
      then r.url.text
      else []

  -- The buffer of `pageID` after its loop.
  abbrev pub page_text : List Bytes → Request → Bytes
  page_text [] r = []
  page_text (key ∷ keys) r = prefixed_part r key ++ (named_part r key ++ page_text keys r)

  abbrev hashed : Bytes → Option ℕ
  hashed [] = none
  hashed (c ∷ s) = some (hash (c ∷ s) (length (c ∷ s)))

  -- The function `pageID`; `none` is `ok == false`.
  abbrev pub page_id_of : List Bytes → Request → Option ℕ
  page_id_of source r = hashed (page_text source r)

  abbrev or_zero : Option ℕ → ℕ
  or_zero none = 0
  or_zero (some h) = h

  abbrev or_default : Request → Option ℕ → ℕ
  or_default r (some h) = h
  or_default r none = or_zero (page_id_of default_page_id_source r)

  abbrev source_or_default : List Bytes → List Bytes
  source_or_default [] = default_page_id_source
  source_or_default (k ∷ ks) = k ∷ ks

  -- The method `pageID`.
  abbrev pub page_id : PathConfig → Request → ℕ
  page_id pc r = or_default r (page_id_of (source_or_default pc.page_id_source) r)

  abbrev pub esi_tags_by_request : PathConfig → Request → ℕ × Option (List (Entity Reference))
  esi_tags_by_request pc r = (page_id pc r, cached pc.esi_cache (page_id pc r))
