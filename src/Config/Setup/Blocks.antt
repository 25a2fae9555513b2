-- ===== src/Config/Setup/Blocks.antt =====
-- The block of a directive: it ends, and does not touch the cache.
use caddy_esi.Prelude.{
  ℕ, zero, suc, ◌<◌, ◌≤◌, ◌≡◌, refl, sym, ap, ◌∙◌, some, arith, inl, inr, Bool-cases,
}
use caddy_esi.Prelude.Result.{Result, ok, err}
use caddy_esi.Config.{PathConfig}
use caddy_esi.Config.Setup.{Env, Registries, SetupError}
use caddy_esi.Config.Setup.Loops.{
  Controller, Forwards, config_load_params, BlockResult, then_block, load_block,
}
use caddy_esi.Config.Setup.Lines.{config_load_params-Line, set_param-Keeps}

module _ (c : Controller) {Handler : Type 0} (env : Env Handler) where
  -- What a block has done, if it is accepted.
  abbrev pub Accepts :
      Forwards c
      → c.State
      → PathConfig
      → Result SetupError (c.State × PathConfig × Registries Handler)
      → Type 0
  Accepts f s pc r =
      (s' : c.State) (pc' : PathConfig) (hs' : Registries Handler)
      → r ≡ ok (s', pc', hs')
      → (f.left s' ≤ f.left s) × (pc'.esi_cache ≡ pc.esi_cache)

  abbrev pub Ends : Forwards c → c.State → PathConfig → BlockResult c env → Type 0
  Ends f s pc o =
      (r : Result SetupError (c.State × PathConfig × Registries Handler)) × (o ≡ some r)
      × Accepts f s pc r

  block_done :
      (f : Forwards c) (s t : c.State) (pc : PathConfig) (hs : Registries Handler)
      → f.left t ≤ f.left s
      → Accepts f s pc (ok (t, pc, hs))
  block_done f s t pc hs h s' pc' hs' q =
      let at : t ≡ s' = cc in
      let same : pc ≡ pc' = cc in
      let e = ap f.left at in (omega arith, ap (λ x. x.esi_cache) (sym same))

  -- The rest of a block, behind a line.
  block_more :
      (f : Forwards c) (more : c.State → PathConfig → Registries Handler → BlockResult c env)
      (s t : c.State) (pc : PathConfig) (hs : Registries Handler)
      (r : Result SetupError (c.State × PathConfig × Registries Handler))
      → f.left t < f.left s
      → config_load_params c env t pc hs ≡ r
      → ((s₁ : c.State) (pc₁ : PathConfig) (hs₁ : Registries Handler)
          → f.left s₁ < f.left s
          → Ends f s₁ pc₁ (more s₁ pc₁ hs₁))
      → Ends f s pc (then_block c env more r)
  block_more f more s t pc hs (err e) h q ih = (err e, refl, λ s' pc' hs' z. absurd (cc))
  block_more f more s t pc hs (ok (s₁, pc₁, hs₁)) h q ih =
      let line = config_load_params-Line c env t pc hs s₁ pc₁ hs₁ q in
      let moved = ap f.left line.moved in
      let least = f.next_arg_least t in
      let kept = set_param-Keeps c env line.key (c.val s₁) pc pc₁ hs hs₁ line.sets in
      let (r, e, a) = ih s₁ pc₁ hs₁ (omega arith) in
      (r, e, λ s' pc' hs' z. let (l, k) = a s' pc' hs' z in (omega arith, k ∙ kept))

  -- A block ends if there is a unit of fuel for each token.
  pub load_block-Ends :
      (f : Forwards c) (fuel : ℕ) (s : c.State) (pc : PathConfig) (hs : Registries Handler)
      → f.left s < fuel
      → Ends f s pc (load_block c env fuel s pc hs)
  unfolding load_block
  load_block-Ends f zero s pc hs h = absurd (omega arith)
  load_block-Ends f (suc fuel) s pc hs h = elim (Bool-cases (c.next_block s).0) [
    | inr e ↦
        rw (e, load_block)
          (
            ok ((c.next_block s).1, pc, hs),
            refl,
            block_done f s (c.next_block s).1 pc hs (f.next_block_least s),
          )
    | inl e ↦
        rw (e, load_block)
          (block_more f (load_block c env fuel) s (c.next_block s).1 pc hs
            (config_load_params c env (c.next_block s).1 pc hs) (f.next_block_fewer s e) refl
            (λ s₁ pc₁ hs₁ l. load_block-Ends f fuel s₁ pc₁ hs₁ (omega arith)))
  ]
