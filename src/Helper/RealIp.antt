-- ===== src/Helper/RealIp.antt =====
-- helper/realip.go. The package net and the classes of unicode runes are libraries, and parameters.
pub mod First
mod Tests
use mathlib.Core.List.{reverse}
use caddy_esi.Prelude.{ℕ, Bool, false, List, [], ◌∷◌, ◌++◌, Option, none, some, if◌then◌else◌}
use caddy_esi.Prelude.Text.{Bytes, codes}
use caddy_esi.Http.{Header, Request, header_get}
use caddy_esi.Helper.Strings.{split_on}

-- A net.IP that is not nil: what its methods `IsGlobalUnicast` and `String` return.
pub record Ip : Type 0 where
  pub is_global_unicast : Bool
  pub text : Bytes

-- net.SplitHostPort, where `none` is an error, and net.ParseIP, where `none` is nil. The runes of a
-- string, the encoding of one, and whether it is a digit, a letter or punctuation.
pub record Net : Type 0 where
  pub split_host_port : Bytes → Option (Bytes × Bytes)
  pub parse_ip : Bytes → Option Ip
  pub runes : Bytes → List ℕ
  pub encode : ℕ → Bytes
  pub is_kept : ℕ → Bool

abbrev pub forwarded_ip_headers : List Bytes
forwarded_ip_headers =
    codes "X-Forwarded"
    ∷ codes "X-Forwarded-For"
    ∷ codes "Forwarded"
    ∷ codes "Forwarded-For"
    ∷ codes "X-Real-Ip"
    ∷ codes "Client-Ip"
    ∷ codes "X-Cluster-Client-Ip"
    ∷ []

-- `host, _, err := net.SplitHostPort(addr); if err != nil { host = addr }`.
abbrev pub host_or : Option (Bytes × Bytes) → Bytes → Bytes
host_or none addr = addr
host_or (some (host, port)) addr = host

module _ (net : Net) where
  abbrev filter_runes : List ℕ → Bytes
  filter_runes [] = []
  filter_runes (r ∷ rs) = if net.is_kept r then net.encode r ++ filter_runes rs else filter_runes rs

  abbrev pub filter_ip : Bytes → Bytes
  filter_ip ip = filter_runes (net.runes ip)

  abbrev pub is_global : Option Ip → Bool
  is_global none = false
  is_global (some ip) = ip.is_global_unicast

  -- The address of one entry; `none` goes to the next one.
  abbrev pub public_host : Bytes → Option Bytes
  public_host [] = none
  public_host (c ∷ addr) =
      let host = host_or (net.split_host_port (c ∷ addr)) (c ∷ addr) in
      if is_global (net.parse_ip host) then some host else none

  -- The inner loop, over the addresses from right to left.
  abbrev pub first_public : List Bytes → Option Bytes
  first_public [] = none
  first_public (a ∷ more) =
      let rest = first_public more in
      elim (public_host (filter_ip a)) [ some host ↦ some host | none ↦ rest ]

  unfoldable pub find_ip : List Bytes → Header → Bytes
  find_ip [] header = []
  find_ip (h ∷ hs) header =
      let rest = find_ip hs header in
      elim (first_public (reverse (split_on b',' (header_get header h)))) [
        | some host ↦ host
        | none ↦ rest
      ]

  abbrev address_text : Option Ip → Bytes
  address_text none = []
  address_text (some ip) = ip.text

  abbrev pub or_remote : Bytes → Bytes → Bytes
  or_remote [] addr =
      address_text (net.parse_ip (filter_ip (host_or (net.split_host_port addr) addr)))
  or_remote (c ∷ ip) addr = c ∷ ip

  pub real_ip : Request → Bytes
  real_ip r = or_remote (find_ip forwarded_ip_headers r.header) r.remote_addr
