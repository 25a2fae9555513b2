-- ===== src/Helper/RealIp/First.antt =====
-- Which address `RealIP` returns.
use mathlib.Core.List.{reverse}
use mathlib.Core.Path.{subst}
use caddy_esi.Prelude.{
  ◌≡◌, ◌≢◌, refl, ap, ◌∙◌, true, List, [], ◌∷◌, ◌++◌, Option, none, some, Bool-cases, inl, inr,
  append_assoc,
}
use caddy_esi.Prelude.Text.{Bytes}
use caddy_esi.Http.{Header, Request, header_get}
use caddy_esi.Helper.Strings.{split_on}
use caddy_esi.Helper.RealIp.{
  Ip, Net, forwarded_ip_headers, filter_ip, host_or, is_global, public_host, first_public, find_ip,
  or_remote, real_ip,
}

-- The addresses in the headers, in the order in which they are tried.
abbrev pub candidates : List Bytes → Header → List Bytes
candidates [] header = []
candidates (h ∷ hs) header = reverse (split_on b',' (header_get header h)) ++ candidates hs header

module _ (net : Net) where
  abbrev pub NonePublic : List Bytes → Type 0
  NonePublic [] = Unit
  NonePublic (a ∷ as') = (public_host net (filter_ip net a) ≡ none) × NonePublic as'

  -- The first address that is public.
  data Search (as' : List Bytes) : Option Bytes → Type 0 where
    nothing : NonePublic as' → Search as' none
    at_first :
        (before after : List Bytes) (a host : Bytes)
        → as' ≡ before ++ a ∷ after
        → NonePublic before
        → public_host net (filter_ip net a) ≡ some host
        → Search as' (some host)

  Search-skip :
      (a : Bytes) (as' : List Bytes) (o : Option Bytes)
      → public_host net (filter_ip net a) ≡ none
      → Search as' o
      → Search (a ∷ as') o
  Search-skip a as' o h (nothing n) = nothing (h, n)
  Search-skip a as' o h (at_first before after b host e n p) =
      at_first (a ∷ before) after b host (ap (λ l. a ∷ l) e) (h, n) p

  Search-cons :
      (a : Bytes) (as' : List Bytes) (here rest : Option Bytes)
      → public_host net (filter_ip net a) ≡ here
      → Search as' rest
      → Search (a ∷ as') (elim here [ some host ↦ some host | none ↦ rest ])
  Search-cons a as' none rest e s = Search-skip a as' rest e s
  Search-cons a as' (some host) rest e s = at_first [] as' a host refl tt e

  first_public-Search : (as' : List Bytes) → Search as' (first_public net as')
  first_public-Search [] = nothing tt
  first_public-Search (a ∷ as') =
      Search-cons a as' (public_host net (filter_ip net a)) (first_public net as') refl
        (first_public-Search as')

  Search-append :
      (as' bs : List Bytes) (o : Option Bytes) → NonePublic as' → Search bs o → Search (as' ++ bs) o
  Search-append [] bs o n s = s
  Search-append (a ∷ as') bs o (h, n) s = Search-skip a (as' ++ bs) o h (Search-append as' bs o n s)

  -- The loop over the headers is one over all addresses.
  record Finds (as' : List Bytes) (ip : Bytes) : Type 0 where
    result : Option Bytes
    search : Search as' result
    ip_eq : ip ≡ elim result [ none ↦ [] | some host ↦ host ]

  found_in :
      (as' bs : List Bytes) (o : Option Bytes) (rest : Bytes)
      → Search as' o
      → Finds bs rest
      → Finds (as' ++ bs) (elim o [ some host ↦ host | none ↦ rest ])
  found_in as' bs none rest (nothing n) f = record {
    result = f.result;
    search = Search-append as' bs f.result n f.search;
    ip_eq = f.ip_eq;
  }
  found_in as' bs (some host) rest (at_first before after a _ e n p) f = record {
    result = some host;
    search =
        at_first before (after ++ bs) a host
          (ap (λ l. l ++ bs) e ∙ append_assoc before (a ∷ after) bs) n p;
    ip_eq = refl;
  }

  find_ip-Finds :
      (hs : List Bytes) (header : Header) → Finds (candidates hs header) (find_ip net hs header)
  unfolding find_ip
  find_ip-Finds [] header = record { result = none; search = nothing tt; ip_eq = refl }
  find_ip-Finds (h ∷ hs) header =
      let as' = reverse (split_on b',' (header_get header h)) in
      found_in as' (candidates hs header) (first_public net as') (find_ip net hs header)
        (first_public-Search as') (find_ip-Finds hs header)

  -- An address that is taken is one of a global unicast IP.
  pub record IsGlobal (host : Bytes) : Type 0 where
    pub ip : Ip
    pub parsed : net.parse_ip host ≡ some ip
    pub global : ip.is_global_unicast ≡ true

  IsGlobal-of :
      (host : Bytes) (o : Option Ip)
      → net.parse_ip host ≡ o
      → is_global net o ≡ true
      → IsGlobal host
  IsGlobal-of host none e h = absurd (cc)
  IsGlobal-of host (some ip) e h = record { ip = ip; parsed = e; global = h }

  public_host-IsGlobal : (addr host : Bytes) → public_host net addr ≡ some host → IsGlobal host
  public_host-IsGlobal [] host h = absurd (cc)
  public_host-IsGlobal (c ∷ addr) host h =
      let tried = host_or (net.split_host_port (c ∷ addr)) (c ∷ addr) in
      elim (Bool-cases (is_global net (net.parse_ip tried))) [
        | inl g ↦
            let e : tried ≡ host = let k = rw g at h in cc in
            subst IsGlobal e (IsGlobal-of tried _ refl g)
        | inr g ↦ absurd (let k = rw g at h in cc)
      ]

  -- The address of the connection.
  abbrev pub remote_ip : Request → Bytes
  remote_ip r = or_remote net [] r.remote_addr

  -- What `RealIP` returns.
  pub data Chosen (r : Request) (ip : Bytes) : Type 0 where
    from_header :
        (before after : List Bytes) (a : Bytes)
        → candidates forwarded_ip_headers r.header ≡ before ++ a ∷ after
        → NonePublic before
        → public_host net (filter_ip net a) ≡ some ip
        → IsGlobal ip
        → ip ≢ []
        → Chosen r ip
    no_header :
        NonePublic (candidates forwarded_ip_headers r.header) → ip ≡ remote_ip r → Chosen r ip
    blank_header :
        (before after : List Bytes) (a : Bytes)
        → candidates forwarded_ip_headers r.header ≡ before ++ a ∷ after
        → NonePublic before
        → public_host net (filter_ip net a) ≡ some []
        → ip ≡ remote_ip r
        → Chosen r ip

  Chosen-of :
      (r : Request) (o : Option Bytes)
      → Search (candidates forwarded_ip_headers r.header) o
      → Chosen r (or_remote net (elim o [ none ↦ [] | some host ↦ host ]) r.remote_addr)
  Chosen-of r none (nothing n) = no_header n refl
  Chosen-of r (some []) (at_first before after a _ e n p) = blank_header before after a e n p refl
  Chosen-of r (some (c ∷ host)) (at_first before after a _ e n p) =
      from_header before after a e n p (public_host-IsGlobal _ (c ∷ host) p) (λ x. cc)

  -- `RealIP` returns the first address of a global unicast IP among those in its headers, in the order of the
  -- headers and from right to left in each, and none that it passes over is one. If there is no such address, or
  -- its text is empty, it returns the address of the connection, or nothing if that is no IP.
  pub real_ip-Chosen : (r : Request) → Chosen r (real_ip net r)
  unfolding real_ip
  real_ip-Chosen r =
      let f = find_ip-Finds forwarded_ip_headers r.header in
      rw f.ip_eq (Chosen-of r f.result f.search)
