-- ===== src/EsiTag/Entity/Spots.antt =====
-- `ParseRaw` leaves the position and the text of a tag alone.
use mathlib.Core.Path.{subst}
use caddy_esi.Prelude.{
  ℕ, ◌+◌, ◌≡◌, refl, sym, ap, ◌∙◌, not, List, [], ◌∷◌, ◌++◌, Option, none, some, length, Bool-cases,
  inl, inr, ◌==◌, ◌&&◌, ◌||◌, ltb, get_or,
}
use caddy_esi.Prelude.Result.{Result, ok, wrap, ◌>>=◌, bind-ok, or_fail}
use caddy_esi.Prelude.Text.{Bytes, codes, equal}
use caddy_esi.EsiTag.DataTags.{DataTag}
use caddy_esi.EsiTag.Registry.{new_resource}
use caddy_esi.EsiTag.Attributes.{split_attributes}
use caddy_esi.EsiTag.Entity.{
  Entity, Parsers, ParseError, AttributeName, src, key, coalesce, printdebug, condition, onerror,
  timeout, ttl, maxbodysize, forwardpostdata, forwardheaders, returnheaders, other, attribute_name,
  apply, apply_all, parse_raw, parse_raw_all, with_source, imbalanced_error, src_failed,
}

abbrev pub spot : {Handler : Type 0} → Entity Handler → Bytes × DataTag
spot et = (et.raw_tag, et.data_tag)

-- The tags are where they were.
abbrev pub SameSpots : {Handler : Type 0} → List (Entity Handler) → List (Entity Handler) → Type 0
SameSpots [] [] = Unit
SameSpots (et ∷ ets) (et' ∷ ets') = (spot et' ≡ spot et) × SameSpots ets ets'
SameSpots _ _ = ⊥

module _ {Handler : Type 0} (p : Parsers) (handlers : List (Bytes × Handler)) where
  spot_same :
      (et x et' : Entity Handler) (n n' : ℕ)
      → spot x ≡ spot et
      → ◌≡◌ {A = Result ParseError (Entity Handler × ℕ)} (ok (x, n)) (ok (et', n'))
      → spot et' ≡ spot et
  spot_same et x et' n n' e h = let same : x ≡ et' = cc in ap spot (sym same) ∙ e

  or_fail-spot :
      {A : Type 0} (e : ParseError) (o : Option A) (f : A → Entity Handler)
      (et et' : Entity Handler) (n n' : ℕ)
      → ((a : A) → spot (f a) ≡ spot et)
      → ◌>>=◌ {B = Entity Handler × ℕ} (or_fail e o) (λ a. ok (f a, n)) ≡ ok (et', n')
      → spot et' ≡ spot et
  or_fail-spot e none f et et' n n' k h = absurd (cc)
  or_fail-spot e (some a) f et et' n n' k h = spot_same et (f a) et' n n' (k a) h

  apply-spot :
      (nm : AttributeName) (attr value : Bytes) (et : Entity Handler) (n : ℕ) (et' : Entity Handler)
      (n' : ℕ)
      → apply p handlers nm attr value et n ≡ ok (et', n')
      → spot et' ≡ spot et
  unfolding apply
  apply-spot src attr value et n et' n' h =
      let (r, m, q) =
        bind-ok (wrap src_failed (new_resource p.unicode.to_lower handlers n value)) _ h in
      spot_same et (record et { resources = et.resources ++ r ∷ [] }) et' (n + 1) n' refl q
  apply-spot key attr value et n et' n' h = spot_same et _ et' n n' refl h
  apply-spot coalesce attr value et n et' n' h =
      or_fail-spot _ (p.parse_bool value) _ et et' n n' (λ b. refl) h
  apply-spot printdebug attr value et n et' n' h =
      or_fail-spot _ (p.parse_bool value) _ et et' n n' (λ b. refl) h
  apply-spot condition attr value et n et' n' h = spot_same et _ et' n n' refl h
  apply-spot onerror attr value et n et' n' h = or_fail-spot _ _ _ et et' n n' (λ b. refl) h
  apply-spot timeout attr value et n et' n' h =
      or_fail-spot _ (p.parse_duration value) _ et et' n n' (λ b. refl) h
  apply-spot ttl attr value et n et' n' h =
      or_fail-spot _ (p.parse_duration value) _ et et' n n' (λ b. refl) h
  apply-spot maxbodysize attr value et n et' n' h =
      or_fail-spot _ (p.parse_bytes value) _ et et' n n' (λ b. refl) h
  apply-spot forwardpostdata attr value et n et' n' h = spot_same et _ et' n n' refl h
  apply-spot forwardheaders attr value et n et' n' h =
      elim (Bool-cases (equal value (codes "all"))) [
        | inl e ↦ spot_same et _ et' n n' refl (rw e at h)
        | inr e ↦ spot_same et _ et' n n' refl (rw e at h)
      ]
  apply-spot returnheaders attr value et n et' n' h =
      elim (Bool-cases (equal value (codes "all"))) [
        | inl e ↦ spot_same et _ et' n n' refl (rw e at h)
        | inr e ↦ spot_same et _ et' n n' refl (rw e at h)
      ]
  apply-spot other attr value et n et' n' h =
      elim (Bool-cases (ltb 1 (length attr) && not (get_or attr 0 0 == b'x'))) [
        | inl e ↦ absurd (let q = rw e at h in cc)
        | inr e ↦ spot_same et et et' n n' refl (rw e at h)
      ]

  apply_all-spot :
      (matches : List Bytes) (et et' : Entity Handler) (n n' : ℕ)
      → apply_all p handlers matches et n ≡ ok (et', n')
      → spot et' ≡ spot et
  unfolding apply_all
  apply_all-spot [] et et' n n' h = spot_same et et et' n n' refl h
  apply_all-spot (a ∷ []) et et' n n' h = spot_same et et et' n n' refl h
  apply_all-spot (attr ∷ value ∷ matches) et et' n n' h =
      let nm = attribute_name attr in
      let ((x, m), first, rest) = bind-ok (apply p handlers nm attr value et n) _ h in
      apply_all-spot matches x et' m n' rest ∙ apply-spot nm attr value et n x m first

  with_source-spot :
      (x et' : Entity Handler) (n : ℕ) → with_source (x, n) ≡ ok et' → spot et' ≡ spot x
  with_source-spot x et' n h = elim (Bool-cases (length x.resources == 0 || n == 0)) [
    | inl e ↦ absurd (let q = rw e at h in cc)
    | inr e ↦ let q = rw e at h in let same : x ≡ et' = cc in ap spot (sym same)
  ]

  parse_raw-spot : (et et' : Entity Handler) → parse_raw p handlers et ≡ ok et' → spot et' ≡ spot et
  unfolding parse_raw
  parse_raw-spot et et' h = elim (Bool-cases (length et.raw_tag == 0)) [
    | inl e ↦ let q = rw e at h in let same : et ≡ et' = cc in ap spot (sym same)
    | inr e ↦
        let start : Entity Handler = record et { resources = [] } in
        let h' = rw e at h in
        let (ms, first, rest) =
          bind-ok (wrap imbalanced_error (split_attributes p.unicode et.raw_tag)) _ h' in
        let ((x, n), run, final) = bind-ok (apply_all p handlers ms start 0) _ rest in
        with_source-spot x et' n final ∙ apply_all-spot ms start x 0 n run
  ]

  pub parse_raw_all-SameSpots :
      (ets ets' : List (Entity Handler))
      → parse_raw_all p handlers ets ≡ ok ets'
      → SameSpots ets ets'
  unfolding parse_raw_all
  parse_raw_all-SameSpots [] [] h = tt
  parse_raw_all-SameSpots [] (et' ∷ ets') h = absurd (cc)
  parse_raw_all-SameSpots (et ∷ ets) l h =
      let (et', first, rest) = bind-ok (parse_raw p handlers et) _ h in
      let (ets', more, last) = bind-ok (parse_raw_all p handlers ets) _ rest in
      let same : et' ∷ ets' ≡ l = cc in
      subst (SameSpots (et ∷ ets)) same
        (parse_raw-spot et et' first, parse_raw_all-SameSpots ets ets' more)
