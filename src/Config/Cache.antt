-- ===== src/Config/Cache.antt =====
-- The cache of the tags of each page.
mod Tests
use caddy_esi.Prelude.{
  ℕ, ◌≡◌, ◌≢◌, refl, Bool, true, false, List, [], ◌∷◌, Option, none, some, arith, ◌==◌, map,
  Bool-cases, inl, inr, ◌⊎◌,
}
use caddy_esi.Prelude.Text.{Bytes}
use caddy_esi.Http.{Request}
use caddy_esi.Helper.RealIp.{Net}
use caddy_esi.EsiTag.Entity.{Entity}
use caddy_esi.Config.{
  Reference, PathConfig, with_defaults, cached, cache_put, upsert_esi_tags, purge_esi_cache,
  page_id, esi_tags_by_request,
}

pub id-cases : (x y : ℕ) → (x ≡ y) ⊎ (x ≢ y)
id-cases x y = ground arith

pub cached-put :
    (cache : List (ℕ × List (Entity Reference))) (id : ℕ) (es : List (Entity Reference)) (id' : ℕ)
    → ((id' ≡ id → cached (cache_put cache id es) id' ≡ some es)
        × (id' ≢ id → cached (cache_put cache id es) id' ≡ cached cache id'))
unfolding cached cache_put
cached-put [] id es id' = (λ e. ground arith, λ n. ground arith)
cached-put ((k, xs) ∷ cache) id es id' =
    let ih = cached-put cache id es id' in
    elim (Bool-cases (k == id)) [
      | inl h ↦ rw (h, cache_put) (λ e. ground arith, λ n. ground arith)
      | inr h ↦
          rw (h, cache_put) (λ e. rw (ih.0 e, cached) (ground arith), λ n. rw (ih.1 n, cached) refl)
    ]

module _ (net : Net) (hash : Bytes → ℕ → ℕ) (canonical : Bytes → Bytes) where
  -- After the tags of a page are upserted, a request whose page has the same ID gets these tags with the
  -- defaults of the configuration, a request with another page ID gets what it got before, and after a
  -- purge no request gets tags. The page ID of a request stays the same all along.
  pub upsert-esi_tags_by_request :
      (pc : PathConfig) (id : ℕ) (es : List (Entity Reference)) (r : Request)
      → let pc' = upsert_esi_tags pc id es in
        let found = esi_tags_by_request net hash canonical pc' r in
        let gone = esi_tags_by_request net hash canonical (purge_esi_cache pc').0 r in
        (found.0 ≡ page_id net hash canonical pc r)
        × (((found.0 ≡ id) × (found.1 ≡ some (map (with_defaults pc) es)))
            ⊎ ((found.0 ≢ id) × (found.1 ≡ (esi_tags_by_request net hash canonical pc r).1)))
        × (gone.1 ≡ none)
  unfolding cached
  upsert-esi_tags_by_request pc id es r =
      let k =
        cached-put pc.esi_cache id (map (with_defaults pc) es) (page_id net hash canonical pc r) in
      elim (id-cases (page_id net hash canonical pc r) id) [
        | inl e ↦ (refl, inl (e, k.0 e), refl)
        | inr n ↦ (refl, inr (n, k.1 n), refl)
      ]
