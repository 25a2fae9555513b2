-- ===== src/Config/Tests/Setups.antt =====
-- Files of resources, and a Caddyfile.
use caddy_esi.Prelude.{
  ℕ, ◌≡◌, refl, true, false, List, [], ◌∷◌, Option, none, some, inl, inr, arith,
}
use caddy_esi.Prelude.Int.{ℤ, pos}
use caddy_esi.Prelude.Result.{ok}
use caddy_esi.Prelude.Text.{Bytes, codes, equal}
use caddy_esi.Helper.Unicode.{Unicode}
use caddy_esi.EsiTag.Entity.{Parsers}
use caddy_esi.EsiCache.{Caches, nil_cacher, register, caches_len, clear}
use caddy_esi.EsiTag.Registry.{Factory, put, lookup}
use caddy_esi.Config.{
  new_path_config, default_max_body_size, default_on_error, zap, debug_level, std_err,
}
use caddy_esi.Config.Items.{
  ResourceItem, Sources, url_by_alias, resolve_from, resolve, unmarshal_resource_items,
}
use caddy_esi.Config.Items.Aliases.{
  looked_up, resolve-looked_up, unmarshal_reference, unmarshal_resource_items-reference,
}
use caddy_esi.Config.Setup.{Env, Registries, param_key, set_param, setup_logger}
use caddy_esi.Config.Setup.Loops.{config_esi_parse, load_block, config_load_params}
use caddy_esi.Config.Setup.Ready.{Finishes, config_esi_parse-Finishes}
use caddy_esi.Config.Tests.Caddyfile.{Token, Cursor, caddyfile, caddyfile_forwards}

abbrev item : Bytes → Bytes → ResourceItem
item alias url = record { alias = alias; url = url; query = [] }

abbrev items : List ResourceItem
items = item (codes "a") (codes "redis://x") ∷ item [] (codes "a") ∷ []

resolved : resolve items ≡ item (codes "a") (codes "redis://x") ∷ item [] (codes "redis://x") ∷ []
unfolding resolve_from url_by_alias equal
resolved = refl

-- An alias of an alias is followed or not, as the order of the items has it.
chain_ahead :
    resolve (item (codes "a") (codes "b") ∷ item (codes "b") (codes "c") ∷ item [] (codes "a") ∷ [])
    ≡ item (codes "a") (codes "c") ∷ item (codes "b") (codes "c") ∷ item [] (codes "c") ∷ []
unfolding resolve_from url_by_alias equal
chain_ahead = refl

chain_behind :
    resolve (item [] (codes "a") ∷ item (codes "a") (codes "b") ∷ item (codes "b") (codes "c") ∷ [])
    ≡ item [] (codes "b") ∷ item (codes "a") (codes "c") ∷ item (codes "b") (codes "c") ∷ []
unfolding resolve_from url_by_alias equal
chain_behind = refl

resolve-looked_up_example : resolve items ≡ looked_up items items
unfolding url_by_alias equal
resolve-looked_up_example = resolve-looked_up items (inr refl, (inl refl, tt))

abbrev sources : Sources
sources = record {
  ext = λ s. codes ".json";
  read_file = λ s. some s;
  decode_json = λ s. some items;
  decode_xml = λ s. none;
}

unmarshal_resource_items-reference_example :
    unmarshal_resource_items sources (codes "r.json") ≡ unmarshal_reference sources (codes "r.json")
unmarshal_resource_items-reference_example =
    unmarshal_resource_items-reference sources (codes "r.json")

abbrev unicode : Unicode
unicode = record {
  decode = λ s. [];
  is_quote = λ c. false;
  is_space = λ c. false;
  to_lower = λ s. s;
  to_upper = λ s. s;
  trim_space = λ s. s;
}

abbrev no_duration : Option ℤ
no_duration = some (pos 0)

abbrev parsers : Parsers
parsers = record {
  unicode = unicode;
  files = record { clean = λ s. s; read_file = λ s. none };
  parse_bool = λ s. none;
  parse_duration = λ s. no_duration;
  parse_bytes = λ s. some 7;
  canonical_header_key = λ s. s;
}

abbrev one_handler : Factory ℕ
one_handler opt = some 5

abbrev env : Env ℕ
env = record {
  parsers = parsers;
  sources = sources;
  factories = (codes "redis", one_handler) ∷ [];
  can_open = λ s. true;
}

abbrev line : Bytes → Token
line s = record { first = true; text = s }

abbrev word : Bytes → Token
word s = record { first = false; text = s }

-- The cursor stands before the first token.
abbrev tokens : List Token
tokens =
    line []
    ∷ line (codes "esi")
    ∷ word (codes "/shop")
    ∷ word (codes "{")
    ∷ line (codes "timeout")
    ∷ word (codes "0s")
    ∷ line (codes "log_level")
    ∷ word (codes "debug")
    ∷ line (codes "log_file")
    ∷ word (codes "stderr")
    ∷ line (codes "cache")
    ∷ word (codes "redis://y")
    ∷ line (codes "}")
    ∷ []

abbrev no_registries : Registries ℕ
no_registries = record { handlers = []; caches = [] }

abbrev before : Cursor
before = record { tokens = tokens; nested = false }

parse_tokens :
    config_esi_parse caddyfile env 14 before no_registries
    ≡ some (
        ok (
          record new_path_config {
            scope = codes "/shop";
            max_body_size = default_max_body_size;
            on_error = default_on_error;
            log_level = codes "debug";
            log_file = codes "stderr";
            log = zap debug_level std_err;
          }
              ∷ [],
          record no_registries { caches = (codes "/shop", nil_cacher ∷ []) ∷ [] },
        ))
unfolding config_esi_parse load_block register put lookup config_load_params param_key set_param
    setup_logger equal
parse_tokens = refl

config_esi_parse-Finishes_example :
    Finishes caddyfile env (config_esi_parse caddyfile env 14 before no_registries)
unfolding caddyfile_forwards
config_esi_parse-Finishes_example =
    config_esi_parse-Finishes caddyfile env caddyfile_forwards 14 before no_registries (omega arith)

abbrev shop_caches : List (Bytes × Caches)
shop_caches = (codes "/shop", nil_cacher ∷ []) ∷ []

count_caches : caches_len shop_caches (codes "/shop") ≡ 1
unfolding lookup equal
count_caches = refl

clear_caches : caches_len (clear shop_caches) (codes "/shop") ≡ 0
unfolding lookup
clear_caches = refl
