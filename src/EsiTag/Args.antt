-- ===== src/EsiTag/Args.antt =====
-- esitag/resource.go, `ResourceArgs`: the checks before a request, and the headers that it passes on to a
-- backend.
pub mod Headers
pub mod Returned
use caddy_esi.Prelude.{
  ℕ, Bool, true, false, not, ◌&&◌, ◌||◌, List, [], ◌∷◌, ◌++◌, Option, none, some, ◌==◌,
  if◌then◌else◌, length,
}
use caddy_esi.Prelude.Int.{ℤ, pos, ltb_ℤ}
use caddy_esi.Prelude.Text.{Bytes, codes, equal}
use caddy_esi.EsiTag.Entity.{TagConfig}
use caddy_esi.Http.{Header, header_values}

-- What the checks read of `ExternalReq`: the method, whether there is a body, and the header.
pub record ExternalReq : Type 0 where
  pub method : Bytes
  pub has_body : Bool
  pub header : Header

-- `external_req` is `none` where the Go pointer is nil.
pub record ResourceArgs : Type 0 where
  pub external_req : Option ExternalReq
  pub url : Bytes
  pub tag : TagConfig

pub data Missing : Type 0 where
  url_empty key_empty request_nil timeout_empty max_body_size_empty : Missing

abbrev pub is_post_allowed : TagConfig → ExternalReq → Bool
is_post_allowed tag r =
    tag.forward_post_data
    && r.has_body
    && (equal r.method (codes "POST")
        || equal r.method (codes "PUT")
        || equal r.method (codes "PATCH"))

abbrev pub validate_tag : TagConfig → Option Missing
validate_tag tag =
    if ltb_ℤ tag.timeout (pos 1)
    then some timeout_empty
    else if tag.max_body_size == 0
    then some max_body_size_empty
    else none

abbrev pub validate_request : Option ExternalReq → TagConfig → Option Missing
validate_request none tag = some request_nil
validate_request (some r) tag = validate_tag tag

-- `none` is a nil error.
abbrev pub validate : ResourceArgs → Option Missing
validate a = if length a.url == 0 then some url_empty else validate_request a.external_req a.tag

abbrev pub validate_with_key : ResourceArgs → Option Missing
validate_with_key a =
    if length a.tag.key == 0 then some key_empty else validate_request a.external_req a.tag

abbrev pub drop_headers_forward : List Bytes
drop_headers_forward =
    codes "Cache-Control"
    ∷ codes "Connection"
    ∷ codes "Host"
    ∷ codes "Pragma"
    ∷ codes "Upgrade"
    ∷ []

abbrev pub is_dropped : List Bytes → Bytes → Bool
is_dropped [] hn = false
is_dropped (d ∷ ds) hn = if equal d hn then true else is_dropped ds hn

-- `for _, hv := range hvs { ret = append(ret, hn, hv) }`.
abbrev pub append_values : Bytes → List Bytes → List Bytes
append_values hn [] = []
append_values hn (hv ∷ hvs) = hn ∷ hv ∷ append_values hn hvs

unfoldable pub forward_all : Header → List Bytes
forward_all [] = []
forward_all ((hn, hvs) ∷ h) =
    let rest = forward_all h in
    if is_dropped drop_headers_forward hn then rest else append_values hn hvs ++ rest

abbrev pub values_of : Option (List Bytes) → Bytes → List Bytes
values_of none hn = []
values_of (some hvs) hn = if is_dropped drop_headers_forward hn then [] else append_values hn hvs

abbrev pub forward_named : Header → List Bytes → List Bytes
forward_named h [] = []
forward_named h (hn ∷ hns) = values_of (header_values h hn) hn ++ forward_named h hns

abbrev pub prepare_forward_headers : TagConfig → ExternalReq → List Bytes
prepare_forward_headers tag r =
    if tag.forward_headers_all
    then forward_all r.header
    else forward_named r.header tag.forward_headers
