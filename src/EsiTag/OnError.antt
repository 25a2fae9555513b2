-- ===== src/EsiTag/OnError.antt =====
-- What is shown in place of a tag that failed: `Entity.parseOnError` (esitag/esi_tag.go), and in the same
-- words `PathConfig.parseOnError` (config.go). The file system is a parameter.
use caddy_esi.Prelude.{ℕ, ◌+◌, Bool, ◌||◌, [], Option, none, some, ltb, drop, if◌then◌else◌}
use caddy_esi.Prelude.Text.{Bytes, codes, equal}
use caddy_esi.Helper.Strings.{last_index}

-- filepath.Clean, and ioutil.ReadFile, where `none` is an error.
pub record Files : Type 0 where
  pub clean : Bytes → Bytes
  pub read_file : Bytes → Option Bytes

abbrev behind_dot : (Bytes → Bytes) → Bytes → Option ℕ → Bytes
behind_dot to_lower val none = []
behind_dot to_lower val (some li) = if ltb 0 li then to_lower (drop (li + 1) val) else []

-- `fileExt`.
abbrev pub file_ext : (Bytes → Bytes) → Bytes → Bytes
file_ext to_lower val = behind_dot to_lower val (last_index b'.' val)

abbrev pub names_file : Bytes → Bool
names_file ext =
    equal ext (codes "html")
    || equal ext (codes "htm")
    || equal ext (codes "xml")
    || equal ext (codes "txt")
    || equal ext (codes "json")

-- `OnError`; `none` is the error of reading the file.
abbrev pub on_error_of : Files → (Bytes → Bytes) → Bytes → Option Bytes
on_error_of files to_lower val =
    if names_file (file_ext to_lower val) then files.read_file (files.clean val) else some val
