-- ===== src/EsiTag/Replacer.antt =====
-- esitag/replacer.go: placeholders in a string are replaced by values of a request.
-- The clock, the name of the host, and functions of the packages net, net/url, path and strings are
-- libraries, and parameters.
pub mod Templates
pub mod Replaces
pub mod Twice
pub mod Values
use caddy_esi.Prelude.{
  ℕ, zero, suc, ◌+◌, ◌-◌, Bool, true, false, not, ◌||◌, List, [], ◌∷◌, ◌++◌, Option, none, some,
  ◌==◌, if◌then◌else◌, length, take, drop, get_or,
}
use caddy_esi.Prelude.Text.{Bytes, codes, equal}
use caddy_esi.Http.{Header, Cookie, Request, header_get}
use caddy_esi.Helper.Strings.{index, join}
use caddy_esi.Helper.RealIp.{Net, host_or, real_ip}

-- os.Hostname, where `none` is an error; url.QueryEscape; strings.EqualFold; path.Split; and the time
-- in the two formats.
pub record Outside : Type 0 where
  pub net : Net
  pub hostname : Option Bytes
  pub query_escape : Bytes → Bytes
  pub equal_fold : Bytes → Bytes → Bool
  pub split_path : Bytes → Bytes × Bytes
  pub when : Bytes
  pub when_iso : Bytes

-- `cookies` is `none` until they are needed.
pub record Replacer : Type 0 where
  pub request : Request
  pub cookies : Option (List Cookie)
  pub empty_value : Bytes

abbrev pub make_replacer : Request → Bytes → Replacer
make_replacer r empty_value = record { request = r; cookies = none; empty_value = empty_value }

-- `key[2 : len(key)-1]`.
abbrev pub wanted : Bytes → Bytes
wanted key = drop 2 (take (length key - 1) key)

abbrev pub parsed_cookies : Replacer → List Cookie
parsed_cookies r = elim r.cookies [ some cs ↦ cs | none ↦ r.request.cookies ]

abbrev pub cookie_value : List Cookie → Bytes → Option Bytes
cookie_value [] want = none
cookie_value (c ∷ cs) want =
    let rest = cookie_value cs want in if equal c.name want then some c.value else rest

abbrev pub or_value : Option Bytes → Bytes → Bytes
or_value none default = default
or_value (some v) default = v

abbrev pub or_nonempty : Bytes → Bytes → Bytes
or_nonempty [] default = default
or_nonempty (c ∷ s) default = c ∷ s

-- `p := …; if p == "" { p = r.request.URL.Path }`.
abbrev pub original_path : Request → Bytes
original_path q = or_nonempty (header_get q.header (codes "Caddy-Rewrite-Original-Uri")) q.url.path

abbrev pub port_or : Option (Bytes × Bytes) → Bytes → Bytes
port_or none default = default
port_or (some (host, port)) default = port

-- `strings.ContainsAny(s, "{}")`.
abbrev pub has_brace : Bytes → Bool
has_brace [] = false
has_brace (c ∷ s) = c == b'{' || c == b'}' || has_brace s

-- `switch key { case k: return v; … } return default`.
unfoldable pub switch : Bytes → List (Bytes × Bytes) → Bytes → Bytes
switch key [] default = default
switch key ((k, v) ∷ cases) default =
    let rest = switch key cases default in if equal key k then v else rest

module _ (o : Outside) where
  abbrev pub header_value : Header → Bytes → Option Bytes
  header_value [] want = none
  header_value ((k, vs) ∷ h) want =
      let rest = header_value h want in
      if o.equal_fold k want then some (join (codes ",") vs) else rest

  -- The cases of the second switch of `getSubstitution`, with the values that they return.
  abbrev pub default_cases : Request → Bytes → List (Bytes × Bytes)
  default_cases q empty_value =
      (codes "{method}", q.method)
      ∷ (codes "{scheme}", if q.tls then codes "https" else codes "http")
      ∷ (codes "{hostname}", or_value o.hostname empty_value)
      ∷ (codes "{host}", q.host)
      ∷ (codes "{hostonly}", host_or (o.net.split_host_port q.host) q.host)
      ∷ (codes "{path}", original_path q)
      ∷ (codes "{path_escaped}", o.query_escape (original_path q))
      ∷ (codes "{rewrite_path}", q.url.path)
      ∷ (codes "{rewrite_path_escaped}", o.query_escape q.url.path)
      ∷ (codes "{query}", q.url.raw_query)
      ∷ (codes "{query_escaped}", o.query_escape q.url.raw_query)
      ∷ (codes "{fragment}", q.url.fragment)
      ∷ (codes "{proto}", q.proto)
      ∷ (codes "{remote}", host_or (o.net.split_host_port q.remote_addr) q.remote_addr)
      ∷ (codes "{port}", port_or (o.net.split_host_port q.remote_addr) empty_value)
      ∷ (codes "{real_remote}", host_or (o.net.split_host_port (real_ip o.net q)) q.remote_addr)
      ∷ (codes "{uri}", q.url.request_uri)
      ∷ (codes "{uri_escaped}", o.query_escape q.url.request_uri)
      ∷ (codes "{when}", o.when)
      ∷ (codes "{when_iso}", o.when_iso)
      ∷ (codes "{file}", (o.split_path q.url.path).1)
      ∷ (codes "{dir}", (o.split_path q.url.path).0)
      ∷ []

  unfoldable pub default_value : Request → Bytes → Bytes → Bytes
  default_value q empty_value key = switch key (default_cases q empty_value) empty_value

  -- `getSubstitution`, and the replacer after it. A key has at least the two braces.
  unfoldable pub get_substitution : Replacer → Bytes → Bytes × Replacer
  get_substitution r key =
      let default = default_value r.request r.empty_value key in
      if get_or key 1 0 == b'H'
      then (or_value (header_value r.request.header (wanted key)) default, r)
      else if get_or key 1 0 == b'C'
      then (
        or_value (cookie_value (parsed_cookies r) (wanted key)) default,
        record r { cookies = some (parsed_cookies r) },
      )
      else if get_or key 1 0 == b'F'
      then (or_nonempty (r.request.form_value (wanted key)) r.empty_value, r)
      else (default, r)

  -- The loop of `Replace`, with fuel; `none` means that the fuel ran out.
  unfoldable pub replace_loop : ℕ → Replacer → Bytes → Bytes → Option (Bytes × Replacer)
  replace_loop zero r result s = none
  replace_loop (suc fuel) r result s = elim (index b'{' s) [
    | none ↦ some (result ++ s, r)
    | some start ↦ elim (index b'}' (drop start s)) [
      | none ↦ some (result ++ s, r)
      | some end ↦
          let (v, r') = get_substitution r (take (end + 1) (drop start s)) in
          replace_loop fuel r' (result ++ (take start s ++ v)) (drop (start + end + 1) s)
    ]
  ]

  unfoldable pub replace : Replacer → Bytes → Option (Bytes × Replacer)
  replace r s = if has_brace s then replace_loop (length s + 1) r [] s else some (s, r)
