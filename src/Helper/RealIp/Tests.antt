-- ===== src/Helper/RealIp/Tests.antt =====
-- A request behind two proxies.
use caddy_esi.Prelude.{◌≡◌, refl, true, false, [], ◌∷◌, none, some, if◌then◌else◌}
use caddy_esi.Prelude.Text.{Bytes, codes, equal}
use caddy_esi.Http.{Request, header_values}
use caddy_esi.Helper.Strings.{split_on}
use caddy_esi.Helper.RealIp.{Net, Ip, find_ip, real_ip}
use caddy_esi.Helper.RealIp.First.{Chosen, real_ip-Chosen}

abbrev address : Bytes → Ip
address s = record { is_global_unicast = if equal s (codes "::1") then false else true; text = s }

abbrev net : Net
net = record {
  split_host_port = λ a. none;
  parse_ip = λ a. some (address a);
  runes = λ s. s;
  encode = λ c. c ∷ [];
  is_kept = λ c. true;
}

abbrev request : Request
request = record {
  method = codes "GET";
  header = (codes "X-Forwarded-For", codes "1.2.3.4,5.6.7.8,::1" ∷ []) ∷ [];
  cookies = [];
  form_value = λ k. [];
  tls = false;
  host = codes "shop";
  proto = [];
  remote_addr = codes "9.9.9.9";
  url = record {
    scheme = [];
    host = codes "shop";
    path = codes "/cart";
    raw_path = [];
    raw_query = [];
    fragment = [];
    request_uri = [];
    text = [];
  };
}

-- The rightmost address that is public.
forwarded : real_ip net request ≡ codes "5.6.7.8"
unfolding real_ip find_ip split_on header_values equal
forwarded = refl

direct : real_ip net (record request { header = [] }) ≡ codes "9.9.9.9"
unfolding real_ip find_ip split_on header_values equal
direct = refl

real_ip-Chosen_example : Chosen net request (real_ip net request)
real_ip-Chosen_example = real_ip-Chosen net request
