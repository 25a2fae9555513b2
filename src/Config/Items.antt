-- ===== src/Config/Items.antt =====
-- resource_config.go: the items of the file that names the resources. ioutil.ReadFile, filepath.Ext and the
-- decoders of JSON and XML are parameters, whose `none` is an error; toXML, for tests, is left out.
pub mod Aliases
use Prim.Native.Nat.{bit_or, bit_and}
use caddy_esi.Prelude.{
  ℕ, ◌^◌, Bool, true, false, not, List, [], ◌∷◌, ◌++◌, Option, none, some, ◌&&◌, ◌==◌, length, ltb,
  if◌then◌else◌,
}
use caddy_esi.Prelude.Result.{Result, ok, err, ◌>>=◌, or_fail}
use caddy_esi.Prelude.Text.{Bytes, codes, equal, starts_with}

pub record ResourceItem : Type 0 where
  pub alias : Bytes
  pub url : Bytes
  pub query : Bytes

-- `NewResourceItem(url, aliasQuery...)`.
abbrev pub new_resource_item : Bytes → List Bytes → ResourceItem
new_resource_item url (alias ∷ []) = record { alias = alias; url = url; query = [] }
new_resource_item url (alias ∷ query ∷ []) = record { alias = alias; url = url; query = query }
new_resource_item url _ = record { alias = []; url = url; query = [] }

abbrev pub is_empty : Bytes → Bool
is_empty [] = true
is_empty (c ∷ s) = false

unfoldable pub url_by_alias : List ResourceItem → Bytes → Bytes
url_by_alias [] alias = []
url_by_alias (i ∷ items) alias =
    let rest = url_by_alias items alias in
    if equal i.alias alias && not (is_empty alias) then i.url else rest

-- `if u := …; u != "" { itms[idx].URL = u }`.
abbrev pub with_url : ResourceItem → Bytes → ResourceItem
with_url i [] = i
with_url i (c ∷ u) = record i { url = c ∷ u }

-- The loop over the items, which changes them in place: `done` are those behind it.
unfoldable pub resolve_from : List ResourceItem → List ResourceItem → List ResourceItem
resolve_from done [] = done
resolve_from done (i ∷ items) =
    resolve_from (done ++ with_url i (url_by_alias (done ++ i ∷ items) i.url) ∷ []) items

abbrev pub resolve : List ResourceItem → List ResourceItem
resolve items = resolve_from [] items

abbrev pub set_bit : ℕ → ℕ → ℕ
set_bit n pos = bit_or n (2 ^ pos)

abbrev pub has_bit : ℕ → ℕ → Bool
has_bit n pos = ltb 0 (bit_and n (2 ^ pos))

-- The constants.
abbrev pub should_read_file : ℕ
should_read_file = 1

abbrev pub type_json : ℕ
type_json = 2

abbrev pub type_xml : ℕ
type_xml = 3

pub record Sources : Type 0 where
  pub ext : Bytes → Bytes
  pub read_file : Bytes → Option Bytes
  pub decode_json : Bytes → Option (List ResourceItem)
  pub decode_xml : Bytes → Option (List ResourceItem)

pub data ItemsError : Type 0 where
  type_not_supported read_failed json_failed xml_failed : ItemsError

module _ (p : Sources) where
  -- `extType`.
  unfoldable pub ext_type : Bytes → Result ItemsError ℕ
  ext_type file_name =
      if equal (p.ext file_name) (codes ".json")
      then ok (set_bit (set_bit 0 type_json) should_read_file)
      else if equal (p.ext file_name) (codes ".xml")
      then ok (set_bit (set_bit 0 type_xml) should_read_file)
      else if starts_with (codes "[") file_name
      then ok (set_bit 0 type_json)
      else if starts_with (codes "<?xml") file_name
      then ok (set_bit 0 type_xml)
      else err type_not_supported

  unfoldable pub read_data : ℕ → Bytes → Result ItemsError Bytes
  read_data t file_name =
      if has_bit t should_read_file
      then or_fail read_failed (p.read_file file_name)
      else ok file_name

  unfoldable pub decode : ℕ → Bytes → Result ItemsError (List ResourceItem)
  decode t text =
      if has_bit t type_json
      then or_fail json_failed (p.decode_json text)
      else if has_bit t type_xml
      then or_fail xml_failed (p.decode_xml text)
      else err type_not_supported

  unfoldable pub unmarshal_resource_items : Bytes → Result ItemsError (List ResourceItem)
  unmarshal_resource_items file_name = do
    t ← ext_type file_name
    text ← read_data t file_name
    items ← decode t text
    ok (resolve items)
