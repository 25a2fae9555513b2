-- ===== src/EsiTag/Args/Headers.antt =====
-- The headers that are passed on to a backend.
mod Tests
use mathlib.Core.Path.{subst}
use caddy_esi.Prelude.{
  ℕ, ◌≡◌, refl, sym, ap, ◌∙◌, ◌⊎◌, inl, inr, Bool, true, false, List, [], ◌∷◌, ◌++◌, Option, none,
  some, Bool-cases,
}
use caddy_esi.Prelude.Text.{Bytes, equal, equal_iff}
use caddy_esi.Http.{Header, header_values}
use caddy_esi.EsiTag.Entity.{TagConfig}
use caddy_esi.EsiTag.Args.{
  ExternalReq, drop_headers_forward, is_dropped, append_values, forward_all, values_of,
  forward_named, prepare_forward_headers,
}

abbrev pub Has : {A : Type 0} → A → List A → Type 0
Has x [] = ⊥
Has x (y ∷ ys) = (y ≡ x) ⊎ Has x ys

-- A list of keys and values in turn, as the slice is documented to be.
abbrev pub Pairs : (Bytes → Bytes → Type 0) → List Bytes → Type 0
Pairs P [] = Unit
Pairs P (k ∷ []) = ⊥
Pairs P (k ∷ v ∷ rest) = P k v × Pairs P rest

-- A header that may be passed on, with one of its values.
abbrev pub Forwards : Header → Bytes → Bytes → Type 0
Forwards h k v =
    (is_dropped drop_headers_forward k ≡ false) × ((vs : List Bytes) × Has (k, vs) h × Has v vs)

Pairs-append :
    (P : Bytes → Bytes → Type 0) (xs ys : List Bytes) → Pairs P xs → Pairs P ys → Pairs P (xs ++ ys)
Pairs-append P [] ys h k = k
Pairs-append P (x ∷ []) ys h k = absurd h
Pairs-append P (x ∷ v ∷ xs) ys (p, h) k = (p, Pairs-append P xs ys h k)

append_values-Pairs :
    (P : Bytes → Bytes → Type 0) (hn : Bytes) (hvs : List Bytes)
    → ((v : Bytes) → Has v hvs → P hn v)
    → Pairs P (append_values hn hvs)
append_values-Pairs P hn [] h = tt
append_values-Pairs P hn (hv ∷ hvs) h =
    (h hv (inl refl), append_values-Pairs P hn hvs (λ v m. h v (inr m)))

Pairs-weaken :
    (h : Header) (e : Bytes × List Bytes) (xs : List Bytes)
    → Pairs (Forwards h) xs
    → Pairs (Forwards (e ∷ h)) xs
Pairs-weaken h e [] p = tt
Pairs-weaken h e (x ∷ []) p = absurd p
Pairs-weaken h e (x ∷ v ∷ xs) ((d, (vs, m, n)), p) = ((d, (vs, inr m, n)), Pairs-weaken h e xs p)

forward_all-Pairs : (h : Header) → Pairs (Forwards h) (forward_all h)
unfolding forward_all
forward_all-Pairs [] = tt
forward_all-Pairs ((hn, hvs) ∷ h) =
    let rest = Pairs-weaken h (hn, hvs) (forward_all h) (forward_all-Pairs h) in
    elim (Bool-cases (is_dropped drop_headers_forward hn)) [
      | inl d ↦ rw (d, forward_all) rest
      | inr d ↦
          rw (d, forward_all)
            (Pairs-append (Forwards ((hn, hvs) ∷ h)) (append_values hn hvs) (forward_all h)
              (append_values-Pairs (Forwards ((hn, hvs) ∷ h)) hn hvs
                (λ v m. (d, (hvs, inl refl, m))))
              rest)
    ]

pub header_values-Has :
    (h : Header) (hn : Bytes) (hvs : List Bytes) → header_values h hn ≡ some hvs → Has (hn, hvs) h
unfolding header_values
header_values-Has [] hn hvs e = cc
header_values-Has ((k, vs) ∷ h) hn hvs e = elim (Bool-cases (equal k hn)) [
  | inl q ↦ inl (let same = (equal_iff k hn).0 q in let taken = rw q at e in cc)
  | inr q ↦ inr (header_values-Has h hn hvs (rw q at e))
]

values_of-Pairs :
    (h : Header) (hn : Bytes) (o : Option (List Bytes))
    → header_values h hn ≡ o
    → Pairs (Forwards h) (values_of o hn)
values_of-Pairs h hn none e = tt
values_of-Pairs h hn (some hvs) e = elim (Bool-cases (is_dropped drop_headers_forward hn)) [
  | inl d ↦ rw d tt
  | inr d ↦
      rw d (
        append_values-Pairs (Forwards h) hn hvs
          (λ v m. (d, (hvs, header_values-Has h hn hvs e, m))))
]

forward_named-Pairs : (h : Header) (hns : List Bytes) → Pairs (Forwards h) (forward_named h hns)
forward_named-Pairs h [] = tt
forward_named-Pairs h (hn ∷ hns) =
    Pairs-append (Forwards h) (values_of (header_values h hn) hn) (forward_named h hns)
      (values_of-Pairs h hn (header_values h hn) refl) (forward_named-Pairs h hns)

-- What is passed on to a backend is a list of keys and values in turn, each a header of the request with
-- one of its values, and none of the headers that are to be dropped, whether all headers are passed on
-- or those that the tag names.
pub prepare_forward_headers-Pairs :
    (tag : TagConfig) (r : ExternalReq) → Pairs (Forwards r.header) (prepare_forward_headers tag r)
prepare_forward_headers-Pairs tag r = elim (Bool-cases tag.forward_headers_all) [
  | inl h ↦ rw h (forward_all-Pairs r.header)
  | inr h ↦ rw h (forward_named-Pairs r.header tag.forward_headers)
]
