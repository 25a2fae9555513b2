-- ===== src/EsiTag/Entity/Parsed.antt =====
-- What a successful `ParseRaw` has made of the resources of a tag.
use mathlib.Core.Path.{subst}
use caddy_esi.Prelude.{
  ℕ, ◌+◌, ◌≡◌, ◌≢◌, inl, inr, refl, sym, ap, ◌∙◌, not, List, [], ◌∷◌, ◌++◌, Option, none, some,
  arith, length, Bool-cases, append_assoc, append-nil, length_pos, ◌==◌, ◌&&◌, ◌||◌, ltb, get_or,
}
use caddy_esi.Prelude.Result.{Result, ok, err, wrap, ◌>>=◌, bind-ok, or_fail}
use caddy_esi.Prelude.Text.{Bytes, codes, equal}
use caddy_esi.EsiTag.Registry.{Resource, RegistryError, new_resource}
use caddy_esi.EsiTag.Attributes.{Imbalanced, split_attributes}
use caddy_esi.EsiTag.Entity.{
  Entity, Parsers, ParseError, AttributeName, src, key, coalesce, printdebug, condition, onerror,
  timeout, ttl, maxbodysize, forwardpostdata, forwardheaders, returnheaders, other, attribute_name,
  apply, apply_all, parse_raw, with_source, imbalanced_error, src_failed,
}

module _ {Handler : Type 0} (p : Parsers) (handlers : List (Bytes × Handler)) where
  -- The values of the attributes src.
  abbrev source_of : AttributeName → Bytes → List Bytes → List Bytes
  source_of src value vs = value ∷ vs
  source_of _ value vs = vs

  abbrev pub sources : List Bytes → List Bytes
  sources (attr ∷ value ∷ matches) = source_of (attribute_name attr) value (sources matches)
  sources _ = []

  -- The resources of these values, numbered from `n` on, each as `NewResource` makes it.
  abbrev pub AreSources : ℕ → List Bytes → List (Resource Handler) → Type 0
  AreSources n [] [] = Unit
  AreSources n (v ∷ vs) (r ∷ rs) =
      (new_resource p.unicode.to_lower handlers n v ≡ ok r) × AreSources (n + 1) vs rs
  AreSources n _ _ = ⊥

  -- One round.
  abbrev Applied : AttributeName → Bytes → Entity Handler → ℕ → Entity Handler → ℕ → Type 0
  Applied src value et n et' n' =
      (r : Resource Handler) × (new_resource p.unicode.to_lower handlers n value ≡ ok r)
      × (et'.resources ≡ et.resources ++ r ∷ [])
      × (n' ≡ n + 1)
  Applied _ value et n et' n' = (et'.resources ≡ et.resources) × (n' ≡ n)

  same_resources :
      (et x et' : Entity Handler) (n n' : ℕ)
      → x.resources ≡ et.resources
      → ◌≡◌ {A = Result ParseError (Entity Handler × ℕ)} (ok (x, n)) (ok (et', n'))
      → (et'.resources ≡ et.resources) × (n' ≡ n)
  same_resources et x et' n n' e h =
      let same : x ≡ et' = cc in (ap (λ y. y.resources) (sym same) ∙ e, cc)

  or_fail_resources :
      {A : Type 0} (e : ParseError) (o : Option A) (f : A → Entity Handler)
      (et et' : Entity Handler) (n n' : ℕ)
      → ((a : A) → (f a).resources ≡ et.resources)
      → ◌>>=◌ {B = Entity Handler × ℕ} (or_fail e o) (λ a. ok (f a, n)) ≡ ok (et', n')
      → (et'.resources ≡ et.resources) × (n' ≡ n)
  or_fail_resources e none f et et' n n' k h = absurd (cc)
  or_fail_resources e (some a) f et et' n n' k h = same_resources et (f a) et' n n' (k a) h

  wrapped :
      (m : Result RegistryError (Resource Handler)) (f : RegistryError → ParseError)
      (r : Resource Handler)
      → wrap f m ≡ ok r
      → m ≡ ok r
  wrapped (ok a) f r h = cc
  wrapped (err e) f r h = absurd (cc)

  unwrapped :
      (m : Result Imbalanced (List Bytes)) (ms : List Bytes)
      → wrap imbalanced_error m ≡ ok ms
      → m ≡ ok ms
  unwrapped (ok a) ms h = cc
  unwrapped (err e) ms h = absurd (cc)

  apply-Applied :
      (nm : AttributeName) (attr value : Bytes) (et : Entity Handler) (n : ℕ) (et' : Entity Handler)
      (n' : ℕ)
      → apply p handlers nm attr value et n ≡ ok (et', n')
      → Applied nm value et n et' n'
  unfolding apply
  apply-Applied src attr value et n et' n' h =
      let (r, m, q) =
        bind-ok (wrap src_failed (new_resource p.unicode.to_lower handlers n value)) _ h in
      let y = record et { resources = et.resources ++ r ∷ [] } in
      let q' : ◌≡◌ {A = Result ParseError (Entity Handler × ℕ)} (ok (y, n + 1)) (ok (et', n')) =
        q in
      let same : et' ≡ y = cc in
      (
        r,
        wrapped (new_resource p.unicode.to_lower handlers n value) _ r m,
        ap (λ x. x.resources) same,
        cc,
      )
  apply-Applied key attr value et n et' n' h = same_resources et _ et' n n' refl h
  apply-Applied coalesce attr value et n et' n' h =
      or_fail_resources _ (p.parse_bool value) _ et et' n n' (λ b. refl) h
  apply-Applied printdebug attr value et n et' n' h =
      or_fail_resources _ (p.parse_bool value) _ et et' n n' (λ b. refl) h
  apply-Applied condition attr value et n et' n' h = same_resources et _ et' n n' refl h
  apply-Applied onerror attr value et n et' n' h = or_fail_resources _ _ _ et et' n n' (λ b. refl) h
  apply-Applied timeout attr value et n et' n' h =
      or_fail_resources _ (p.parse_duration value) _ et et' n n' (λ b. refl) h
  apply-Applied ttl attr value et n et' n' h =
      or_fail_resources _ (p.parse_duration value) _ et et' n n' (λ b. refl) h
  apply-Applied maxbodysize attr value et n et' n' h =
      or_fail_resources _ (p.parse_bytes value) _ et et' n n' (λ b. refl) h
  apply-Applied forwardpostdata attr value et n et' n' h = same_resources et _ et' n n' refl h
  apply-Applied forwardheaders attr value et n et' n' h =
      elim (Bool-cases (equal value (codes "all"))) [
        | inl e ↦ same_resources et _ et' n n' refl (rw e at h)
        | inr e ↦ same_resources et _ et' n n' refl (rw e at h)
      ]
  apply-Applied returnheaders attr value et n et' n' h =
      elim (Bool-cases (equal value (codes "all"))) [
        | inl e ↦ same_resources et _ et' n n' refl (rw e at h)
        | inr e ↦ same_resources et _ et' n n' refl (rw e at h)
      ]
  apply-Applied other attr value et n et' n' h =
      elim (Bool-cases (ltb 1 (length attr) && not (get_or attr 0 0 == b'x'))) [
        | inl e ↦ absurd (let q = rw e at h in cc)
        | inr e ↦ same_resources et et et' n n' refl (rw e at h)
      ]

  -- A run of the loop.
  pub record Adds (n : ℕ) (vs : List Bytes) (et et' : Entity Handler) (n' : ℕ) : Type 0 where
    pub made : List (Resource Handler)
    pub resources_eq : et'.resources ≡ et.resources ++ made
    pub count_eq : n' ≡ n + length made
    pub are_sources : AreSources n vs made

  Adds-none :
      (et et' : Entity Handler) (n n' : ℕ)
      → (et'.resources ≡ et.resources) × (n' ≡ n)
      → Adds n [] et et' n'
  Adds-none et et' n n' (e, k) = record {
    made = [];
    resources_eq = e ∙ sym (append-nil et.resources);
    count_eq = omega arith;
    are_sources = tt;
  }

  Adds-keep :
      (et x et' : Entity Handler) (n m n' : ℕ) (vs : List Bytes)
      → (x.resources ≡ et.resources) × (m ≡ n)
      → Adds m vs x et' n'
      → Adds n vs et et' n'
  Adds-keep et x et' n m n' vs (e, k) a = record {
    made = a.made;
    resources_eq = a.resources_eq ∙ ap (λ rs. rs ++ a.made) e;
    count_eq = omega (arith, a.count_eq);
    are_sources = subst (λ i. AreSources i vs a.made) k a.are_sources;
  }

  Adds-step :
      (nm : AttributeName) (value : Bytes) (et x et' : Entity Handler) (n m n' : ℕ)
      (vs : List Bytes)
      → Applied nm value et n x m
      → Adds m vs x et' n'
      → Adds n (source_of nm value vs) et et' n'
  Adds-step src value et x et' n m n' vs (r, made, e, k) a = record {
    made = r ∷ a.made;
    resources_eq =
        a.resources_eq ∙ ap (λ rs. rs ++ a.made) e ∙ append_assoc et.resources (r ∷ []) a.made;
    count_eq = omega (arith, a.count_eq);
    are_sources = (made, subst (λ i. AreSources i vs a.made) k a.are_sources);
  }
  Adds-step _ value et x et' n m n' vs h a = Adds-keep et x et' n m n' vs h a

  apply_all-Adds :
      (matches : List Bytes) (et et' : Entity Handler) (n n' : ℕ)
      → apply_all p handlers matches et n ≡ ok (et', n')
      → Adds n (sources matches) et et' n'
  unfolding apply_all
  apply_all-Adds [] et et' n n' h = Adds-none et et' n n' (same_resources et et et' n n' refl h)
  apply_all-Adds (a ∷ []) et et' n n' h =
      Adds-none et et' n n' (same_resources et et et' n n' refl h)
  apply_all-Adds (attr ∷ value ∷ matches) et et' n n' h =
      let nm = attribute_name attr in
      let ((x, m), first, rest) = bind-ok (apply p handlers nm attr value et n) _ h in
      Adds-step nm value et x et' n m n' (sources matches)
        (apply-Applied nm attr value et n x m first) (apply_all-Adds matches x et' m n' rest)

  -- What `ParseRaw` has done when it succeeds on a tag that is not empty.
  pub record Parsed (et et' : Entity Handler) : Type 0 where
    pub matches : List Bytes
    pub split_eq : split_attributes p.unicode et.raw_tag ≡ ok matches
    pub are_sources : AreSources 0 (sources matches) et'.resources
    pub resources_ne : et'.resources ≢ []

  with_source_ok :
      (x et' : Entity Handler) (n : ℕ)
      → with_source (x, n) ≡ ok et'
      → (x ≡ et') × (x.resources ≢ [])
  with_source_ok x et' n h = elim (Bool-cases (length x.resources == 0 || n == 0)) [
    | inl e ↦ absurd (let q = rw e at h in cc)
    | inr e ↦ (
      let q = rw e at h in cc,
      λ z. absurd (let l : length x.resources ≡ 0 = ap length z in let q = rw l at e in cc),
    )
  ]

  -- A successful `ParseRaw` of a tag that is not empty leaves one resource for each attribute src, in the
  -- order of the tag and with their positions as indices, each with the handler that is registered for its
  -- scheme or alias, and there is at least one.
  pub parse_raw-Parsed :
      (et et' : Entity Handler) → et.raw_tag ≢ [] → parse_raw p handlers et ≡ ok et' → Parsed et et'
  unfolding parse_raw
  parse_raw-Parsed et et' ne h = elim (Bool-cases (length et.raw_tag == 0)) [
    | inl e ↦ absurd (let some_tag = length_pos et.raw_tag ne in ground arith)
    | inr e ↦
        let start = record et { resources = [] } in
        let h' = rw e at h in
        let (ms, first, rest) =
          bind-ok (wrap imbalanced_error (split_attributes p.unicode et.raw_tag)) _ h' in
        let ((x, n), run, final) = bind-ok (apply_all p handlers ms start 0) _ rest in
        let a = apply_all-Adds ms start x 0 n run in
        let (same, some_left) = with_source_ok x et' n final in
        record {
          matches = ms;
          split_eq = unwrapped (split_attributes p.unicode et.raw_tag) ms first;
          are_sources =
              subst (AreSources 0 (sources ms)) (sym a.resources_eq ∙ ap (λ y. y.resources) same)
                a.are_sources;
          resources_ne = λ z. some_left (ap (λ y. y.resources) same ∙ z);
        }
  ]
