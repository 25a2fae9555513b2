-- ===== src/Config/Setup/Ready.antt =====
-- That the setup ends, and what holds of the configurations that it returns.
use mathlib.Core.Path.{subst}
use caddy_esi.Prelude.{
  ℕ, zero, suc, ◌<◌, ◌≤◌, ◌≡◌, refl, sym, ◌∙◌, List, [], ◌∷◌, some, arith, inl, inr, Bool-cases,
}
use caddy_esi.Prelude.Result.{Result, ok, err}
use caddy_esi.Prelude.Text.{Bytes}
use caddy_esi.Config.{PathConfig, new_path_config}
use caddy_esi.Config.Setup.{
  Env, Registries, SetupError, setup_logger, with_setup_defaults, scope_of,
}
use caddy_esi.Config.Setup.Loops.{
  Controller, Forwards, Setups, add_config, finish_config, after_block, with_scope,
  config_esi_parse,
}
use caddy_esi.Config.Setup.Blocks.{Accepts, load_block-Ends}
use caddy_esi.Config.Setup.Loggers.{IsReady, AllReady, finished-IsReady}

module _ (c : Controller) {Handler : Type 0} (env : Env Handler) where
  -- The setup ends, and what it accepts is ready.
  abbrev pub Finishes : Setups c env → Type 0
  Finishes o =
      (r : Result SetupError (List PathConfig × Registries Handler)) × (o ≡ some r)
      × ((pcs : List PathConfig) (hs : Registries Handler) → r ≡ ok (pcs, hs) → AllReady env pcs)

  Finishes-error : (e : SetupError) → Finishes (some (err e))
  Finishes-error e = (err e, refl, λ pcs hs q. absurd (cc))

  added :
      (pc : PathConfig) (r : Result SetupError (List PathConfig × Registries Handler))
      → IsReady env pc
      → ((pcs : List PathConfig) (hs : Registries Handler) → r ≡ ok (pcs, hs) → AllReady env pcs)
      → Finishes (add_config c env pc (some r))
  added pc (err e) h k = Finishes-error e
  added pc (ok (pcs, hs)) h k = (
    ok (pc ∷ pcs, hs),
    refl,
    λ pcs' hs' q. let same : pc ∷ pcs ≡ pcs' = cc in subst (AllReady env) same (h, k pcs hs refl),
  )

  add_config-Finishes :
      (pc : PathConfig) (o : Setups c env)
      → IsReady env pc
      → Finishes o
      → Finishes (add_config c env pc o)
  add_config-Finishes pc o h (r, e, k) =
      subst (λ x. Finishes (add_config c env pc x)) (sym e) (added pc r h k)

  finish_config-Finishes :
      (pc : PathConfig) (rest : Setups c env) (r : Result SetupError PathConfig)
      → pc.esi_cache ≡ []
      → setup_logger env.can_open pc ≡ r
      → Finishes rest
      → Finishes (finish_config c env pc rest r)
  finish_config-Finishes pc rest (err e) h q k = Finishes-error e
  finish_config-Finishes pc rest (ok pc') h q k =
      add_config-Finishes (with_setup_defaults pc') rest (finished-IsReady env pc pc' h q) k

  after_block-Finishes :
      (f : Forwards c) (more : c.State → Registries Handler → Setups c env) (s : c.State)
      (pc : PathConfig) (r : Result SetupError (c.State × PathConfig × Registries Handler))
      → pc.esi_cache ≡ []
      → Accepts c env f s pc r
      → ((s' : c.State) (hs' : Registries Handler) → f.left s' ≤ f.left s → Finishes (more s' hs'))
      → Finishes (after_block c env more (some r))
  after_block-Finishes f more s pc (err e) h a ih = Finishes-error e
  after_block-Finishes f more s pc (ok (s', pc', hs')) h a ih =
      let (l, k) = a s' pc' hs' refl in
      finish_config-Finishes pc' (more s' hs') (setup_logger env.can_open pc') (k ∙ h) refl
        (ih s' hs' l)

  with_scope-Finishes :
      (f : Forwards c) (more : c.State → Registries Handler → Setups c env) (fuel : ℕ) (s : c.State)
      (hs : Registries Handler) (r : Result SetupError Bytes)
      → f.left s < fuel
      → ((s' : c.State) (hs' : Registries Handler) → f.left s' ≤ f.left s → Finishes (more s' hs'))
      → Finishes (with_scope c env more fuel s hs r)
  with_scope-Finishes f more fuel s hs (err e) h ih = Finishes-error e
  with_scope-Finishes f more fuel s hs (ok scope) h ih =
      let pc : PathConfig = record new_path_config { scope = scope } in
      let (r, e, a) = load_block-Ends c env f fuel s pc hs h in
      subst (λ o. Finishes (after_block c env more o)) (sym e)
        (after_block-Finishes f more s pc r refl a ih)

  -- With one unit of fuel more than there are tokens, the setup comes to an end for every Caddyfile. Each
  -- configuration that it returns has a limit for the size, a timeout and a message for failures that are not
  -- empty, the logger that its settings ask for, and an empty cache.
  pub config_esi_parse-Finishes :
      (f : Forwards c) (fuel : ℕ) (s : c.State) (hs : Registries Handler)
      → f.left s < fuel
      → Finishes (config_esi_parse c env fuel s hs)
  unfolding config_esi_parse
  config_esi_parse-Finishes f zero s hs h = absurd (omega arith)
  config_esi_parse-Finishes f (suc fuel) s hs h = elim (Bool-cases (c.next s).0) [
    | inr e ↦
        rw (e, config_esi_parse)
          (ok ([], hs), refl, λ pcs hs' q. let same : [] ≡ pcs = cc in subst (AllReady env) same tt)
    | inl e ↦
        let t = (c.next s).1 in
        let fewer = f.next_fewer s e in
        let least = f.remaining_args_least t in
        rw (e, config_esi_parse)
          (with_scope-Finishes f (config_esi_parse c env fuel) (suc fuel) (c.remaining_args t).1 hs
            (scope_of (c.remaining_args t).0) (omega arith)
            (λ s' hs' l. config_esi_parse-Finishes f fuel s' hs' (omega arith)))
  ]
