-- ===== src/EsiTag/Args/Returned/Tests.antt =====
-- The headers of a backend.
use caddy_esi.Prelude.{◌≡◌, refl, true, [], ◌∷◌, some}
use caddy_esi.Prelude.Text.{Bytes, codes, equal}
use caddy_esi.Http.{Header, header_put}
use caddy_esi.EsiTag.Entity.{TagConfig, zero_config}
use caddy_esi.EsiTag.Args.Returned.{
  prepare_return_headers, OnlyReturned, prepare_return_headers-OnlyReturned,
}

abbrev same : Bytes → Bytes
same s = s

abbrev from_backend : Header
from_backend =
    (codes "Date", codes "today" ∷ []) ∷ (codes "Set-Cookie", codes "a=1" ∷ codes "b=2" ∷ []) ∷ []

abbrev all_headers : TagConfig
all_headers = record zero_config { return_headers_all = true }

-- Of two cookies the last is returned.
last_cookie :
    prepare_return_headers same all_headers from_backend
    ≡ some ((codes "Set-Cookie", codes "b=2" ∷ []) ∷ [])
unfolding prepare_return_headers header_put equal
last_cookie = refl

prepare_return_headers-OnlyReturned_example :
    OnlyReturned same from_backend (prepare_return_headers same all_headers from_backend)
prepare_return_headers-OnlyReturned_example =
    prepare_return_headers-OnlyReturned same all_headers from_backend
