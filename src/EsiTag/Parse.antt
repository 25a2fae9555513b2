-- ===== src/EsiTag/Parse.antt =====
-- esitag/esi_parser.go, `Parse`: the tags that the finder reports become entities, and `ParseRaw` fills them.
use caddy_esi.Prelude.{ℕ, false, List, [], ◌∷◌, Option, none, some}
use caddy_esi.Prelude.Result.{Result}
use caddy_esi.Prelude.Text.{Bytes}
use caddy_esi.EsiTag.Finder.Scanner.{Found, find_tags}
use caddy_esi.EsiTag.Entity.{Entity, zero_config, Parsers, ParseError, parse_raw_all}

module _ {Handler : Type 0} where
  abbrev pub entity_of : Found → Entity Handler
  entity_of f = record {
    raw_tag = f.raw_tag;
    data_tag = record { bytes = []; start = f.start; end = f.end };
    on_error = [];
    config = zero_config;
    resources = [];
    conditioned = false;
  }

  abbrev pub entities_of : List Found → List (Entity Handler)
  entities_of [] = []
  entities_of (f ∷ fs) = entity_of f ∷ entities_of fs

  abbrev pub parse_found :
      Parsers
      → List (Bytes × Handler)
      → Option (List Found)
      → Option (Result ParseError (List (Entity Handler)))
  parse_found p handlers none = none
  parse_found p handlers (some fs) = some (parse_raw_all p handlers (entities_of fs))

  -- `none` is a lack of fuel, which `find_tags` never has.
  unfoldable pub parse :
      Parsers
      → List (Bytes × Handler)
      → List ℕ
      → Bytes
      → Option (Result ParseError (List (Entity Handler)))
  parse p handlers sizes doc = parse_found p handlers (find_tags sizes doc)
