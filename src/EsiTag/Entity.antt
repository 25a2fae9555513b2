-- ===== src/EsiTag/Entity.antt =====
-- esitag/esi_tag.go: `Entity`, and `ParseRaw`, which fills it from the attributes of a tag.
-- `Config.Log` is not modelled. A handler is an object of a backend, of any type. strconv.ParseBool,
-- time.ParseDuration, humanize.ParseBytes and http.CanonicalHeaderKey are parameters.
pub mod Parsed
pub mod Spots
pub mod Coalesce
use caddy_esi.Prelude.{
  ℕ, ◌+◌, Bool, true, false, ◌&&◌, ◌||◌, List, [], ◌∷◌, ◌++◌, Option, none, some, ◌==◌, ltb, not,
  length, map, get_or, if◌then◌else◌,
}
use caddy_esi.Prelude.Int.{ℤ, pos}
use caddy_esi.Prelude.Result.{Result, ok, err, wrap, ◌>>=◌, or_fail}
use caddy_esi.Prelude.Text.{Bytes, codes, equal}
use caddy_esi.Helper.Unicode.{Unicode}
use caddy_esi.Helper.CommaList.{comma_list_to_slice}
use caddy_esi.EsiTag.DataTags.{DataTag}
use caddy_esi.EsiTag.Registry.{Resource, RegistryError, new_resource}
use caddy_esi.EsiTag.Attributes.{Imbalanced, split_attributes}
use caddy_esi.EsiTag.OnError.{Files, on_error_of}

-- `Config`.
pub record TagConfig : Type 0 where
  pub forward_headers : List Bytes
  pub return_headers : List Bytes
  pub forward_post_data : Bool
  pub forward_headers_all : Bool
  pub return_headers_all : Bool
  pub coalesce : Bool
  pub print_debug : Bool
  pub timeout : ℤ
  pub ttl : ℤ
  pub max_body_size : ℕ
  pub key : Bytes

abbrev pub zero_config : TagConfig
zero_config = record {
  forward_headers = [];
  return_headers = [];
  forward_post_data = false;
  forward_headers_all = false;
  return_headers_all = false;
  coalesce = false;
  print_debug = false;
  timeout = pos 0;
  ttl = pos 0;
  max_body_size = 0;
  key = [];
}

-- `conditioned` says whether `Conditioner` is set.
pub record Entity (Handler : Type 0) : Type 0 where
  pub raw_tag : Bytes
  pub data_tag : DataTag
  pub on_error : Bytes
  pub config : TagConfig
  pub resources : List (Resource Handler)
  pub conditioned : Bool

-- `none` is an error.
pub record Parsers : Type 0 where
  pub unicode : Unicode
  pub files : Files
  pub parse_bool : Bytes → Option Bool
  pub parse_duration : Bytes → Option ℤ
  pub parse_bytes : Bytes → Option ℕ
  pub canonical_header_key : Bytes → Bytes

pub data ParseError : Type 0 where
  imbalanced_attributes no_source on_error_failed : ParseError
  src_failed : RegistryError → ParseError
  coalesce_invalid printdebug_invalid timeout_invalid ttl_invalid max_body_size_invalid : ParseError
  attribute_not_supported : ParseError

-- The cases of the switch over the names of attributes.
pub data AttributeName : Type 0 where
  src key coalesce printdebug condition onerror timeout ttl maxbodysize : AttributeName
  forwardpostdata forwardheaders returnheaders other : AttributeName

unfoldable pub attribute_name : Bytes → AttributeName
attribute_name attr =
    if equal attr (codes "src")
    then src
    else if equal attr (codes "key")
    then key
    else if equal attr (codes "coalesce")
    then coalesce
    else if equal attr (codes "printdebug")
    then printdebug
    else if equal attr (codes "condition")
    then condition
    else if equal attr (codes "onerror")
    then onerror
    else if equal attr (codes "timeout")
    then timeout
    else if equal attr (codes "ttl")
    then ttl
    else if equal attr (codes "maxbodysize")
    then maxbodysize
    else if equal attr (codes "forwardpostdata")
    then forwardpostdata
    else if equal attr (codes "forwardheaders")
    then forwardheaders
    else if equal attr (codes "returnheaders")
    then returnheaders
    else other

abbrev pub imbalanced_error : Imbalanced → ParseError
imbalanced_error e = imbalanced_attributes

abbrev pub with_source :
    {Handler : Type 0} → Entity Handler × ℕ → Result ParseError (Entity Handler)
with_source (et, src_counter) =
    if length et.resources == 0 || src_counter == 0 then err no_source else ok et

module _ {Handler : Type 0} (p : Parsers) (handlers : List (Bytes × Handler)) where
  abbrev set_config : Entity Handler → TagConfig → ℕ → Result ParseError (Entity Handler × ℕ)
  set_config et c src_counter = ok (record et { config = c }, src_counter)

  abbrev headers_of : Bytes → List Bytes
  headers_of value = map p.canonical_header_key (comma_list_to_slice p.unicode value)

  -- One round of the loop over the attributes; the number is `srcCounter`.
  unfoldable pub apply :
      AttributeName → Bytes → Bytes → Entity Handler → ℕ → Result ParseError (Entity Handler × ℕ)
  apply src attr value et n = do
    r ← wrap src_failed (new_resource p.unicode.to_lower handlers n value)
    ok (record et { resources = et.resources ++ r ∷ [] }, n + 1)
  apply key attr value et n = set_config et (record et.config { key = value }) n
  apply coalesce attr value et n = do
    b ← or_fail coalesce_invalid (p.parse_bool value)
    set_config et (record et.config { coalesce = b }) n
  apply printdebug attr value et n = do
    b ← or_fail printdebug_invalid (p.parse_bool value)
    set_config et (record et.config { print_debug = b }) n
  apply condition attr value et n = ok (record et { conditioned = true }, n)
  apply onerror attr value et n = do
    content ← or_fail on_error_failed (on_error_of p.files p.unicode.to_lower value)
    ok (record et { on_error = content }, n)
  apply timeout attr value et n = do
    d ← or_fail timeout_invalid (p.parse_duration value)
    set_config et (record et.config { timeout = d }) n
  apply ttl attr value et n = do
    d ← or_fail ttl_invalid (p.parse_duration value)
    set_config et (record et.config { ttl = d }) n
  apply maxbodysize attr value et n = do
    b ← or_fail max_body_size_invalid (p.parse_bytes value)
    set_config et (record et.config { max_body_size = b }) n
  apply forwardpostdata attr value et n =
      let lower = p.unicode.to_lower value in
      set_config et
        (record et.config {
          forward_post_data = equal lower (codes "1") || equal lower (codes "true");
        })
        n
  apply forwardheaders attr value et n =
      if equal value (codes "all")
      then set_config et (record et.config { forward_headers_all = true }) n
      else set_config et (record et.config { forward_headers = headers_of value }) n
  apply returnheaders attr value et n =
      if equal value (codes "all")
      then set_config et (record et.config { return_headers_all = true }) n
      else set_config et (record et.config { return_headers = headers_of value }) n
  apply other attr value et n =
      if ltb 1 (length attr) && not (get_or attr 0 0 == b'x')
      then err attribute_not_supported
      else ok (et, n)

  -- The loop over the attributes. `SplitAttributes` returns an even number of strings.
  unfoldable pub apply_all :
      List Bytes → Entity Handler → ℕ → Result ParseError (Entity Handler × ℕ)
  apply_all (attr ∷ value ∷ matches) et n = do
    (et', n') ← apply (attribute_name attr) attr value et n
    apply_all matches et' n'
  apply_all _ et n = ok (et, n)

  unfoldable pub parse_raw : Entity Handler → Result ParseError (Entity Handler)
  parse_raw et = if length et.raw_tag == 0 then ok et else (do
    matches ← wrap imbalanced_error (split_attributes p.unicode et.raw_tag)
    applied ← apply_all matches (record et { resources = [] }) 0
    with_source applied)

  -- `Entities.ParseRaw`.
  unfoldable pub parse_raw_all : List (Entity Handler) → Result ParseError (List (Entity Handler))
  parse_raw_all [] = ok []
  parse_raw_all (et ∷ ets) = do et' ← parse_raw et; ets' ← parse_raw_all ets; ok (et' ∷ ets')
