-- ===== src/EsiTag/Args/Returned.antt =====
-- esitag/resource.go, `PrepareReturnHeaders`: the headers of a backend that go to the client. `canonical` is
-- textproto.CanonicalMIMEHeaderKey, which `Header.Set` applies; Go visits the map in any order, of which the
-- list is one.
mod Tests
use mathlib.Core.Path.{subst}
use caddy_esi.Prelude.{
  ◌≡◌, refl, sym, ap, ◌∙◌, ◌⊎◌, inl, inr, Bool, true, false, not, ◌&&◌, List, [], ◌∷◌, Option, none,
  some, Bool-cases, if◌then◌else◌, length, ◌==◌,
}
use caddy_esi.Prelude.Text.{Bytes, codes, equal, equal_iff}
use caddy_esi.Http.{Header, header_values, header_put}
use caddy_esi.EsiTag.Entity.{TagConfig}
use caddy_esi.EsiTag.Args.{is_dropped}
use caddy_esi.EsiTag.Args.Headers.{Has, header_values-Has}

abbrev pub drop_headers_return : List Bytes
drop_headers_return =
    codes "Cache-Control"
    ∷ codes "Connection"
    ∷ codes "Content-Disposition"
    ∷ codes "Content-Encoding"
    ∷ codes "Content-Length"
    ∷ codes "Content-Range"
    ∷ codes "Content-Type"
    ∷ codes "Date"
    ∷ codes "Etag"
    ∷ codes "Expires"
    ∷ codes "Last-Modified"
    ∷ codes "Location"
    ∷ codes "Status"
    ∷ codes "Strict-Transport-Security"
    ∷ codes "Trailer"
    ∷ codes "Transfer-Encoding"
    ∷ codes "Upgrade"
    ∷ []

module _ (canonical : Bytes → Bytes) where
  -- `for _, hv := range hvs { ret.Set(hn, hv) }`.
  abbrev pub set_each : Bytes → List Bytes → Header → Header
  set_each hn [] ret = ret
  set_each hn (hv ∷ hvs) ret = set_each hn hvs (header_put ret (canonical hn) (hv ∷ []))

  abbrev pub unless_dropped : Bytes → List Bytes → Header → Header
  unless_dropped hn hvs ret = if is_dropped drop_headers_return hn then ret else set_each hn hvs ret

  abbrev pub return_all : Header → Header → Header
  return_all [] ret = ret
  return_all ((hn, hvs) ∷ from) ret = return_all from (unless_dropped hn hvs ret)

  abbrev pub return_found : Bytes → Option (List Bytes) → Header → Header
  return_found hn none ret = ret
  return_found hn (some hvs) ret = unless_dropped hn hvs ret

  abbrev pub return_named : Header → List Bytes → Header → Header
  return_named from [] ret = ret
  return_named from (hn ∷ hns) ret =
      return_named from hns (return_found hn (header_values from hn) ret)

  -- `none` is a nil map.
  unfoldable pub prepare_return_headers : TagConfig → Header → Option Header
  prepare_return_headers tag from =
      if not tag.return_headers_all && length tag.return_headers == 0
      then none
      else if tag.return_headers_all
      then some (return_all from [])
      else some (return_named from tag.return_headers [])

  -- A header of the backend that is not to be dropped, with one of its values.
  pub record Returns (from : Header) (key : Bytes) (values : List Bytes) : Type 0 where
    pub name : Bytes
    pub given : List Bytes
    pub value : Bytes
    pub has_name : Has (name, given) from
    pub has_value : Has value given
    pub kept : is_dropped drop_headers_return name ≡ false
    pub key_eq : key ≡ canonical name
    pub values_eq : values ≡ value ∷ []

  abbrev pub AllReturned : Header → Header → Type 0
  AllReturned from [] = Unit
  AllReturned from ((k, vs) ∷ ret) = Returns from k vs × AllReturned from ret

  put-AllReturned :
      (from ret : Header) (key : Bytes) (values : List Bytes)
      → Returns from key values
      → AllReturned from ret
      → AllReturned from (header_put ret key values)
  unfolding header_put
  put-AllReturned from [] key values r h = (r, tt)
  put-AllReturned from ((k, vs) ∷ ret) key values r (x, h) = elim (Bool-cases (equal k key)) [
    | inl e ↦
        rw (e, header_put) (subst (λ n. Returns from n values) (sym ((equal_iff k key).0 e)) r, h)
    | inr e ↦ rw (e, header_put) (x, put-AllReturned from ret key values r h)
  ]

  set_each-AllReturned :
      (from ret : Header) (hn : Bytes) (given hvs : List Bytes)
      → Has (hn, given) from
      → is_dropped drop_headers_return hn ≡ false
      → ((v : Bytes) → Has v hvs → Has v given)
      → AllReturned from ret
      → AllReturned from (set_each hn hvs ret)
  set_each-AllReturned from ret hn given [] m d k h = h
  set_each-AllReturned from ret hn given (hv ∷ hvs) m d k h =
      let r : Returns from (canonical hn) (hv ∷ []) = record {
        name = hn;
        given = given;
        value = hv;
        has_name = m;
        has_value = k hv (inl refl);
        kept = d;
        key_eq = refl;
        values_eq = refl;
      } in
      set_each-AllReturned from (header_put ret (canonical hn) (hv ∷ [])) hn given hvs m d
        (λ v n. k v (inr n)) (put-AllReturned from ret (canonical hn) (hv ∷ []) r h)

  unless_dropped-AllReturned :
      (from ret : Header) (hn : Bytes) (hvs : List Bytes)
      → Has (hn, hvs) from
      → AllReturned from ret
      → AllReturned from (unless_dropped hn hvs ret)
  unless_dropped-AllReturned from ret hn hvs m h =
      elim (Bool-cases (is_dropped drop_headers_return hn)) [
        | inl d ↦ rw d h
        | inr d ↦ rw d (set_each-AllReturned from ret hn hvs hvs m d (λ v n. n) h)
      ]

  return_all-AllReturned :
      (whole from ret : Header)
      → ((x : Bytes × List Bytes) → Has x from → Has x whole)
      → AllReturned whole ret
      → AllReturned whole (return_all from ret)
  return_all-AllReturned whole [] ret k h = h
  return_all-AllReturned whole ((hn, hvs) ∷ from) ret k h =
      return_all-AllReturned whole from (unless_dropped hn hvs ret) (λ x m. k x (inr m))
        (unless_dropped-AllReturned whole ret hn hvs (k (hn, hvs) (inl refl)) h)

  return_found-AllReturned :
      (from ret : Header) (hn : Bytes) (o : Option (List Bytes))
      → header_values from hn ≡ o
      → AllReturned from ret
      → AllReturned from (return_found hn o ret)
  return_found-AllReturned from ret hn none e h = h
  return_found-AllReturned from ret hn (some hvs) e h =
      unless_dropped-AllReturned from ret hn hvs (header_values-Has from hn hvs e) h

  return_named-AllReturned :
      (from ret : Header) (hns : List Bytes)
      → AllReturned from ret
      → AllReturned from (return_named from hns ret)
  return_named-AllReturned from ret [] h = h
  return_named-AllReturned from ret (hn ∷ hns) h =
      return_named-AllReturned from (return_found hn (header_values from hn) ret) hns
        (return_found-AllReturned from ret hn (header_values from hn) refl h)

  -- Nothing, or headers of the backend only.
  abbrev pub OnlyReturned : Header → Option Header → Type 0
  OnlyReturned from none = Unit
  OnlyReturned from (some ret) = AllReturned from ret

  all_of :
      (tag : TagConfig) (from : Header)
      → tag.return_headers_all ≡ true
      → prepare_return_headers tag from ≡ some (return_all from [])
  unfolding prepare_return_headers
  all_of tag from a = rw (a, prepare_return_headers) refl

  named_of :
      (tag : TagConfig) (from : Header)
      → tag.return_headers_all ≡ false
      → (not tag.return_headers_all && length tag.return_headers == 0) ≡ false
      → prepare_return_headers tag from ≡ some (return_named from tag.return_headers [])
  unfolding prepare_return_headers
  named_of tag from a e = rw (e, a, prepare_return_headers) refl

  -- What `PrepareReturnHeaders` gives is a nil map, or headers that the backend sent and that are not to be
  -- dropped, under their canonical names, each with exactly one of its values, whether all headers are returned
  -- or those that the tag names.
  pub prepare_return_headers-OnlyReturned :
      (tag : TagConfig) (from : Header) → OnlyReturned from (prepare_return_headers tag from)
  unfolding prepare_return_headers
  prepare_return_headers-OnlyReturned tag from =
      elim (Bool-cases (not tag.return_headers_all && length tag.return_headers == 0)) [
        | inl e ↦ rw (e, prepare_return_headers) tt
        | inr e ↦ elim (Bool-cases tag.return_headers_all) [
          | inl a ↦
              subst (OnlyReturned from) (sym (all_of tag from a))
                (return_all-AllReturned from from [] (λ x m. m) tt)
          | inr a ↦
              subst (OnlyReturned from) (sym (named_of tag from a e))
                (return_named-AllReturned from [] tag.return_headers tt)
        ]
      ]
