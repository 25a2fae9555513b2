-- ===== src/EsiTag/Tests/Entities.antt =====
-- Registered handlers, and tags that are parsed.
use caddy_esi.Prelude.{ℕ, ◌≡◌, refl, true, false, List, [], ◌∷◌, none, some}
use caddy_esi.Prelude.Int.{pos}
use caddy_esi.Prelude.Result.{ok, err}
use caddy_esi.Prelude.Text.{Bytes, codes, equal, starts_with}
use caddy_esi.EsiTag.Registry.{new_resource, lookup, scheme_end}
use caddy_esi.EsiTag.Registry.Lookups.{Registers, register-new_resource}
use caddy_esi.EsiTag.Attributes.{split_attributes, fields_func}
use caddy_esi.EsiTag.Entity.{
  Entity, Parsers, zero_config, parse_raw, apply_all, apply, attribute_name, no_source,
  attribute_not_supported,
}
use caddy_esi.EsiTag.Entity.Parsed.{Parsed, parse_raw-Parsed}
use caddy_esi.EsiTag.Tests.Ascii.{ascii}

abbrev handlers : List (Bytes × ℕ)
handlers = (codes "http", 1) ∷ (codes "redis", 2) ∷ []

register-new_resource_example :
    Registers ascii.to_lower handlers (codes "HTTP") 3 0 (codes "Http://x")
register-new_resource_example =
    register-new_resource ascii.to_lower handlers (codes "HTTP") 3 0 (codes "Http://x")

new_http :
    new_resource ascii.to_lower handlers 4 (codes "Http://x")
    ≡ ok (record { index = 4; url = codes "Http://x"; handler = 1 })
unfolding lookup equal scheme_end starts_with
new_http = refl

abbrev parsers : Parsers
parsers = record {
  unicode = ascii;
  files = record { clean = λ s. s; read_file = λ s. none };
  parse_bool = λ s. some true;
  parse_duration = λ s. some (pos 9);
  parse_bytes = λ s. none;
  canonical_header_key = λ s. s;
}

abbrev tag : Bytes → Entity ℕ
tag raw = record {
  raw_tag = raw;
  data_tag = record { bytes = []; start = 0; end = 0 };
  on_error = [];
  config = zero_config;
  resources = [];
  conditioned = false;
}

abbrev source_tag : Entity ℕ
source_tag = tag (codes "include src='redis://a' key='k' src='http://b'")

abbrev parsed_tag : Entity ℕ
parsed_tag = record source_tag {
  config = record zero_config { key = codes "k" };
  resources =
      record { index = 0; url = codes "redis://a"; handler = 2 }
      ∷ record { index = 1; url = codes "http://b"; handler = 1 }
      ∷ [];
}

parse_source : parse_raw parsers handlers source_tag ≡ ok parsed_tag
unfolding parse_raw apply_all apply attribute_name split_attributes fields_func lookup equal
    scheme_end starts_with
parse_source = refl

parse_nothing : parse_raw parsers handlers (tag (codes "include key='k'")) ≡ err no_source
unfolding parse_raw apply_all apply attribute_name split_attributes fields_func equal
parse_nothing = refl

parse_unknown :
    parse_raw parsers handlers (tag (codes "include source='k'")) ≡ err attribute_not_supported
unfolding parse_raw apply_all apply attribute_name split_attributes fields_func equal
parse_unknown = refl

-- A name of one letter is accepted, and does nothing.
parse_letter : parse_raw parsers handlers (tag (codes "include s='k'")) ≡ err no_source
unfolding parse_raw apply_all apply attribute_name split_attributes fields_func equal
parse_letter = refl

parse_raw-Parsed_example : Parsed parsers handlers source_tag parsed_tag
parse_raw-Parsed_example =
    parse_raw-Parsed parsers handlers source_tag parsed_tag (λ e. cc) parse_source
