-- ===== src/EsiTag/Query/First.antt =====
-- The first resource that is not held back by its breaker and has a content decides; the breakers of
-- the resources before it record their failures, and those behind it are left alone.
use mathlib.Core.Path.{subst}
use caddy_esi.Prelude.{
  ℕ, suc, ◌+◌, ◌≡◌, ◌≢◌, ◌⊎◌, inl, inr, refl, sym, ap, ◌∙◌, List, [], ◌∷◌, ◌++◌, Option, none, some,
  arith, length,
}
use caddy_esi.Prelude.Text.{Bytes}
use caddy_esi.EsiTag.Breaker.{CbState, cb_state_open, cb_state_half_open, cb_state_closed, cb_state}
use caddy_esi.EsiTag.Query.{
  Resource, ResourceArgs, Reply, content, not_found, failure, Moment, Queried, prepare, recorded,
  reset, heard, query_from, query_resources,
}

CbState-cases :
    (s : CbState) → (s ≡ cb_state_open) ⊎ ((s ≡ cb_state_half_open) ⊎ (s ≡ cb_state_closed))
CbState-cases cb_state_open = inl refl
CbState-cases cb_state_half_open = inr (inl refl)
CbState-cases cb_state_closed = inr (inr refl)

-- What the resource that gave no content looks like behind the loop.
abbrev pub Silent : Moment → ResourceArgs → Resource → Resource → Type 0
Silent m args r r' =
    ((cb_state r.breaker m.asked_at ≡ cb_state_open) × (r' ≡ r))
    ⊎ ((cb_state r.breaker m.asked_at ≢ cb_state_open)
        × (((m.reply args ≡ not_found) × (r' ≡ r))
            ⊎ ((m.reply args ≡ failure) × (r' ≡ recorded r m.failed_at))))

-- A resource whose content is taken: a breaker that was half open is reset.
abbrev pub Answers : Moment → ResourceArgs → Resource → Bytes → Resource → Type 0
Answers m args r d r' =
    (m.reply args ≡ content d)
    × (((cb_state r.breaker m.asked_at ≡ cb_state_closed) × (r' ≡ r))
        ⊎ ((cb_state r.breaker m.asked_at ≡ cb_state_half_open) × (r' ≡ reset r)))

module _ (replace : Bytes → Bytes) (env : ℕ → Moment) where
  -- All resources, from number `i` on, give no content.
  abbrev pub AllSilent : ℕ → Bytes → List Resource → List Resource → Type 0
  AllSilent i key [] [] = Unit
  AllSilent i key (r ∷ rs) (r' ∷ rs') =
      Silent (env i) (record { url = replace r.url; key = replace key }) r r'
      × AllSilent (i + 1) key rs rs'
  AllSilent i key _ _ = ⊥

  -- The split at the first resource that gives a content.
  pub record FirstAnswer (i : ℕ) (key : Bytes) (rs rs' : List Resource) (d : Bytes) : Type 0 where
    pub before : List Resource
    pub before' : List Resource
    pub server : Resource
    pub server' : Resource
    pub behind : List Resource
    pub splits : rs ≡ before ++ server ∷ behind
    pub splits' : rs' ≡ before' ++ server' ∷ behind
    pub silent : AllSilent i key before before'
    pub answers :
        Answers
          (env (i + length before))
          (record { url = replace server.url; key = replace key })
          server
          d
          server'

  abbrev pub Outcome : ℕ → Bytes → List Resource → Option Bytes → List Resource → Type 0
  Outcome i key rs none rs' = AllSilent i key rs rs'
  Outcome i key rs (some d) rs' = FirstAnswer i key rs rs' d

  Silent-cons :
      (i : ℕ) (key : Bytes) (r r' : Resource) (rs rs' : List Resource) (o : Option Bytes)
      → Silent (env i) (record { url = replace r.url; key = replace key }) r r'
      → Outcome (i + 1) key rs o rs'
      → Outcome i key (r ∷ rs) o (r' ∷ rs')
  Silent-cons i key r r' rs rs' none s h = (s, h)
  Silent-cons i key r r' rs rs' (some d) s h =
      let n : i + 1 + length h.before ≡ i + suc (length h.before) = omega arith in
      record {
        before = r ∷ h.before;
        before' = r' ∷ h.before';
        server = h.server;
        server' = h.server';
        behind = h.behind;
        splits = ap (λ l. r ∷ l) h.splits;
        splits' = ap (λ l. r' ∷ l) h.splits';
        silent = (s, h.silent);
        answers =
            subst
              (λ k.
                Answers (env k) (record { url = replace h.server.url; key = replace key }) h.server
                  d h.server')
              n h.answers;
      }

  answer_here :
      (i : ℕ) (key : Bytes) (r r' : Resource) (rs : List Resource) (d : Bytes)
      → Answers (env i) (record { url = replace r.url; key = replace key }) r d r'
      → FirstAnswer i key (r ∷ rs) (r' ∷ rs) d
  answer_here i key r r' rs d h =
      let n : i ≡ i + 0 = omega arith in
      record {
        before = [];
        before' = [];
        server = r;
        server' = r';
        behind = rs;
        splits = refl;
        splits' = refl;
        silent = tt;
        answers =
            subst (λ k. Answers (env k) (record { url = replace r.url; key = replace key }) r d r')
              n h;
      }

  -- One resource that its breaker lets through.
  heard-Outcome :
      (state : CbState) (reply : Reply) (i : ℕ) (key : Bytes) (r : Resource) (rs : List Resource)
      (args : ResourceArgs) (rest : Queried)
      → cb_state r.breaker (env i).asked_at ≡ state
      → state ≢ cb_state_open
      → (env i).reply (record { url = replace r.url; key = replace key }) ≡ reply
      → Outcome (i + 1) key rs rest.content rest.resources
      → let q = heard state (env i) i r rs args reply rest in
        Outcome i key (r ∷ rs) q.content q.resources
  unfolding heard
  heard-Outcome cb_state_open reply i key r rs args rest e ne h o = absurd (ne refl)
  heard-Outcome cb_state_half_open (content d) i key r rs args rest e ne h o =
      answer_here i key r (reset r) rs d (h, inr (e, refl))
  heard-Outcome cb_state_closed (content d) i key r rs args rest e ne h o =
      answer_here i key r r rs d (h, inl (e, refl))
  heard-Outcome state not_found i key r rs args rest e ne h o =
      Silent-cons i key r r rs rest.resources rest.content
        (inr (λ x. ne (sym e ∙ x), inl (h, refl))) o
  heard-Outcome state failure i key r rs args rest e ne h o =
      Silent-cons i key r (recorded r (env i).failed_at) rs rest.resources rest.content
        (inr (λ x. ne (sym e ∙ x), inr (h, refl))) o

  query_from-Outcome :
      ((x : Bytes) → replace (replace x) ≡ replace x)
      → (rs : List Resource) (i : ℕ) (args : ResourceArgs) (key : Bytes)
      → replace args.key ≡ replace key
      → let q = query_from replace env i args rs in Outcome i key rs q.content q.resources
  unfolding query_from
  query_from-Outcome idem [] i args key k = tt
  query_from-Outcome idem (r ∷ rs) i args key k =
      let m = env i in
      let args' = prepare replace r args in
      let open_rest = query_from-Outcome idem rs (i + 1) args key k in
      let asked_rest = query_from-Outcome idem rs (i + 1) args' key (idem args.key ∙ k) in
      let e : m.reply (record { url = replace r.url; key = replace key }) ≡ m.reply args' =
        ap (λ x. m.reply (record { url = replace r.url; key = x })) (sym k) in
      elim (CbState-cases (cb_state r.breaker m.asked_at)) [
        | inl is_open ↦
            rw (is_open, query_from) (Silent-cons i key r r rs _ _ (inl (is_open, refl)) open_rest)
        | inr (inl half) ↦
            rw (half, query_from)
              (heard-Outcome cb_state_half_open (m.reply args') i key r rs args' _ half (λ x. cc) e
                asked_rest)
        | inr (inr closed) ↦
            rw (closed, query_from)
              (heard-Outcome cb_state_closed (m.reply args') i key r rs args' _ closed (λ x. cc) e
                asked_rest)
      ]

module _ (replace : Bytes → Bytes) (env : ℕ → Moment) where
  -- If replacing in a replaced text changes nothing, `QueryResources` behaves as the loop over untouched
  -- arguments. Either every resource is silent (its breaker is open, or the backend has not found the
  -- content, or it has failed and its breaker has recorded that) and there is no content; or the first
  -- resource that is not silent gives the content, its breaker is reset if it was half open, and the
  -- resources behind it are as before.
  pub query_resources-Outcome :
      ((x : Bytes) → replace (replace x) ≡ replace x)
      → (key : Bytes) (rs : List Resource)
      → let q = query_resources replace env key rs in
        Outcome replace env 0 key rs q.content q.resources
  unfolding query_resources
  query_resources-Outcome idem key rs = query_from-Outcome replace env idem rs 0 _ key refl
