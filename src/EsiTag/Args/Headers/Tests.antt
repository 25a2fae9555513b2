-- ===== src/EsiTag/Args/Headers/Tests.antt =====
-- The headers of a request with a cookie, a host and a name of its own.
use caddy_esi.Prelude.{◌≡◌, refl, false, [], ◌∷◌}
use caddy_esi.Prelude.Int.{pos}
use caddy_esi.Prelude.Text.{codes, equal}
use caddy_esi.Http.{header_values}
use caddy_esi.EsiTag.Entity.{TagConfig, zero_config}
use caddy_esi.EsiTag.Args.{ExternalReq, prepare_forward_headers}
use caddy_esi.EsiTag.Args.Headers.{Pairs, Forwards, prepare_forward_headers-Pairs}

abbrev tag : TagConfig
tag = record zero_config {
  forward_headers = codes "Cookie" ∷ codes "Host" ∷ [];
  timeout = pos 9;
  max_body_size = 100;
}

abbrev request : ExternalReq
request = record {
  method = codes "GET";
  has_body = false;
  header =
      (codes "Host", codes "shop" ∷ [])
      ∷ (codes "Cookie", codes "a=1" ∷ codes "b=2" ∷ [])
      ∷ (codes "X-A", codes "1" ∷ [])
      ∷ [];
}

named_headers :
    prepare_forward_headers tag request
    ≡ codes "Cookie" ∷ codes "a=1" ∷ codes "Cookie" ∷ codes "b=2" ∷ []
unfolding header_values equal
named_headers = refl

prepare_forward_headers-Pairs_example :
    Pairs (Forwards request.header) (prepare_forward_headers tag request)
prepare_forward_headers-Pairs_example = prepare_forward_headers-Pairs tag request
