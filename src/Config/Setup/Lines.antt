-- ===== src/Config/Setup/Lines.antt =====
-- What one line of the directive does.
use caddy_esi.Prelude.{
  ◌≡◌, refl, sym, ap, ◌∙◌, Bool, true, false, Option, none, some, inl, inr, Bool-cases,
}
use caddy_esi.Prelude.Result.{Result, ok, wrap, ◌>>=◌, bind-ok, or_fail}
use caddy_esi.Prelude.Text.{Bytes}
use caddy_esi.Config.{PathConfig}
use caddy_esi.Config.Items.{unmarshal_resource_items}
use caddy_esi.EsiCache.{register}
use caddy_esi.Config.Setup.{
  Env, Registries, SetupError, ParamKey, timeout, ttl, max_body_size, cache, page_id_source,
  allowed_methods, cmd_header_name, on_error, log_file, log_level, resources, other, param_key,
  set_param, is_known, register_items, items_failed, cache_failed,
}
use caddy_esi.Config.Setup.Loops.{Controller, argument, config_load_params}

module _ (c : Controller) {Handler : Type 0} (env : Env Handler) where
  -- What a line of a block that is accepted has done.
  pub record Line (s : c.State) (pc : PathConfig) (hs : Registries Handler) (s' : c.State)
      (pc' : PathConfig) (hs' : Registries Handler) : Type 0 where
    pub moved : s' ≡ (c.next_arg s).1
    pub key : ParamKey
    pub sets : set_param env key (c.val s') pc hs ≡ ok (pc', hs')

  argument-moved : (found : Bool) (s s' : c.State) → argument c env (found, s) ≡ ok s' → s' ≡ s
  argument-moved true s s' h = cc
  argument-moved false s s' h = absurd (cc)

  loaded_eq :
      (t s : c.State) (pc pc' : PathConfig) (hs hs' : Registries Handler)
      → ◌≡◌ {A = Result SetupError (c.State × PathConfig × Registries Handler)}
          (ok (t, pc, hs))
          (ok (s, pc', hs'))
      → (t ≡ s) × (◌≡◌ {A = PathConfig × Registries Handler} (pc, hs) (pc', hs'))
  loaded_eq t s pc pc' hs hs' h = (cc, cc)

  pub config_load_params-Line :
      (s : c.State) (pc : PathConfig) (hs : Registries Handler) (s' : c.State) (pc' : PathConfig)
      (hs' : Registries Handler)
      → config_load_params c env s pc hs ≡ ok (s', pc', hs')
      → Line s pc hs s' pc' hs'
  unfolding config_load_params
  config_load_params-Line s pc hs s' pc' hs' h =
      let k = param_key (c.val s) in
      elim (Bool-cases (is_known k)) [
        | inr e ↦ absurd (let q = rw e at h in cc)
        | inl e ↦
            let h' = rw e at h in
            let (t, first, rest) = bind-ok (argument c env (c.next_arg s)) _ h' in
            let ((pc₁, hs₁), set, last) = bind-ok (set_param env k (c.val t) pc hs) _ rest in
            let (at, same) = loaded_eq t s' pc₁ pc' hs₁ hs' last in
            record {
              moved = sym at ∙ argument-moved (c.next_arg s).0 (c.next_arg s).1 t first;
              key = k;
              sets = ap (λ x. set_param env k (c.val x) pc hs) (sym at) ∙ set ∙ ap ok same;
            }
      ]

  -- The cache of a configuration stays empty, and the logger is left alone.
  abbrev pub Keeps : PathConfig → PathConfig → Type 0
  Keeps pc pc' = (pc'.esi_cache ≡ pc.esi_cache)

  keeps :
      (pc x pc' : PathConfig) (hs hs₁ hs' : Registries Handler)
      → x.esi_cache ≡ pc.esi_cache
      → ◌≡◌ {A = Result SetupError (PathConfig × Registries Handler)} (ok (x, hs₁)) (ok (pc', hs'))
      → Keeps pc pc'
  keeps pc x pc' hs hs₁ hs' e h = let same : x ≡ pc' = cc in ap (λ y. y.esi_cache) (sym same) ∙ e

  or_fail-Keeps :
      {A : Type 0} (e : SetupError) (o : Option A) (g : A → PathConfig) (pc pc' : PathConfig)
      (hs hs' : Registries Handler)
      → ((a : A) → (g a).esi_cache ≡ pc.esi_cache)
      → ◌>>=◌ {B = PathConfig × Registries Handler} (or_fail e o) (λ a. ok (g a, hs))
        ≡ ok (pc', hs')
      → Keeps pc pc'
  or_fail-Keeps e none g pc pc' hs hs' k h = absurd (cc)
  or_fail-Keeps e (some a) g pc pc' hs hs' k h = keeps pc (g a) pc' hs hs hs' (k a) h

  pub set_param-Keeps :
      (key : ParamKey) (value : Bytes) (pc pc' : PathConfig) (hs hs' : Registries Handler)
      → set_param env key value pc hs ≡ ok (pc', hs')
      → Keeps pc pc'
  unfolding set_param
  set_param-Keeps timeout value pc pc' hs hs' h =
      or_fail-Keeps _ (env.parsers.parse_duration value) _ pc pc' hs hs' (λ d. refl) h
  set_param-Keeps ttl value pc pc' hs hs' h =
      or_fail-Keeps _ (env.parsers.parse_duration value) _ pc pc' hs hs' (λ d. refl) h
  set_param-Keeps max_body_size value pc pc' hs hs' h =
      or_fail-Keeps _ (env.parsers.parse_bytes value) _ pc pc' hs hs' (λ d. refl) h
  set_param-Keeps cache value pc pc' hs hs' h =
      let (caches, e, h₁) = bind-ok (wrap cache_failed (register hs.caches pc.scope value)) _ h in
      keeps pc pc pc' hs (record hs { caches = caches }) hs' refl h₁
  set_param-Keeps page_id_source value pc pc' hs hs' h = keeps pc _ pc' hs hs hs' refl h
  set_param-Keeps allowed_methods value pc pc' hs hs' h = keeps pc _ pc' hs hs hs' refl h
  set_param-Keeps cmd_header_name value pc pc' hs hs' h = keeps pc _ pc' hs hs hs' refl h
  set_param-Keeps on_error value pc pc' hs hs' h = or_fail-Keeps _ _ _ pc pc' hs hs' (λ d. refl) h
  set_param-Keeps log_file value pc pc' hs hs' h = keeps pc _ pc' hs hs hs' refl h
  set_param-Keeps log_level value pc pc' hs hs' h = keeps pc _ pc' hs hs hs' refl h
  set_param-Keeps resources value pc pc' hs hs' h =
      let (items, e, h₁) =
        bind-ok (wrap items_failed (unmarshal_resource_items env.sources value)) _ h in
      let (handlers, e₁, h₂) = bind-ok (register_items env items hs.handlers) _ h₁ in
      keeps pc pc pc' hs (record hs { handlers = handlers }) hs' refl h₂
  set_param-Keeps other value pc pc' hs hs' h = absurd (cc)
