-- ===== src/Config/Cache/Tests.antt =====
-- The cache with one page.
use caddy_esi.Prelude.{ℕ, ◌≡◌, ◌≢◌, ◌⊎◌, false, [], ◌∷◌, none, some, length, map, ◌+◌}
use caddy_esi.Prelude.Int.{pos}
use caddy_esi.Prelude.Text.{Bytes, codes}
use caddy_esi.Http.{Request}
use caddy_esi.Helper.RealIp.{Net}
use caddy_esi.EsiTag.Entity.{Entity, zero_config}
use caddy_esi.Config.{
  Reference, PathConfig, new_path_config, default_max_body_size, default_on_error, with_defaults,
  upsert_esi_tags, purge_esi_cache, page_id, esi_tags_by_request,
}
use caddy_esi.Config.Cache.{upsert-esi_tags_by_request}

abbrev net : Net
net = record {
  split_host_port = λ a. none;
  parse_ip = λ a. none;
  runes = λ s. s;
  encode = λ c. c ∷ [];
  is_kept = λ c. false;
}

abbrev hash : Bytes → ℕ → ℕ
hash s n = length s + n

abbrev canonical : Bytes → Bytes
canonical s = s

abbrev config : PathConfig
config = record new_path_config {
  scope = codes "/";
  max_body_size = default_max_body_size;
  on_error = default_on_error;
}

abbrev entity : Entity Reference
entity = record {
  raw_tag = codes "include src='redis'";
  data_tag = record { bytes = []; start = 0; end = 9 };
  on_error = [];
  config = record zero_config { timeout = pos 9 };
  resources = [];
  conditioned = false;
}

abbrev request : Request
request = record {
  method = codes "GET";
  header = [];
  cookies = [];
  form_value = λ k. [];
  tls = false;
  host = codes "shop";
  proto = [];
  remote_addr = [];
  url = record {
    scheme = [];
    host = codes "shop";
    path = codes "/cart";
    raw_path = [];
    raw_query = [];
    fragment = [];
    request_uri = [];
    text = [];
  };
}

upsert-esi_tags_by_request_example :
    let pc' = upsert_esi_tags config 18 (entity ∷ []) in
    let found = esi_tags_by_request net hash canonical pc' request in
    let gone = esi_tags_by_request net hash canonical (purge_esi_cache pc').0 request in
    (found.0 ≡ page_id net hash canonical config request)
    × (((found.0 ≡ 18) × (found.1 ≡ some (map (with_defaults config) (entity ∷ []))))
        ⊎ ((found.0 ≢ 18) × (found.1 ≡ (esi_tags_by_request net hash canonical config request).1)))
    × (gone.1 ≡ none)
upsert-esi_tags_by_request_example =
    upsert-esi_tags_by_request net hash canonical config 18 (entity ∷ []) request
