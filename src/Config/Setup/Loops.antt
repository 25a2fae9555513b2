-- ===== src/Config/Setup/Loops.antt =====
-- setup.go: `configLoadParams` and the loops of `configEsiParse`, over the tokens of the Caddyfile.
use caddy_esi.Prelude.{
  ℕ, zero, suc, ◌<◌, ◌≤◌, ◌≡◌, Bool, true, false, List, [], ◌∷◌, Option, none, some, if◌then◌else◌,
}
use caddy_esi.Prelude.Result.{Result, ok, err, ◌>>=◌}
use caddy_esi.Prelude.Text.{Bytes}
use caddy_esi.Config.{PathConfig, new_path_config}
use caddy_esi.Config.Setup.{
  Env, Registries, SetupError, missing_arg, key_not_supported, ParamKey, param_key, is_known,
  set_param, setup_logger, with_setup_defaults, scope_of,
}

-- The calls of `caddy.Controller`, each with the position behind it.
pub record Controller : Type 1 where
  pub State : Type 0
  pub next : State → Bool × State
  pub next_block : State → Bool × State
  pub next_arg : State → Bool × State
  pub val : State → Bytes
  pub remaining_args : State → List Bytes × State

-- No call moves backwards, and the calls that find a line move forwards.
pub record Forwards (c : Controller) : Type 0 where
  pub left : c.State → ℕ
  pub next_fewer : (s : c.State) → (c.next s).0 ≡ true → left (c.next s).1 < left s
  pub next_block_fewer :
      (s : c.State) → (c.next_block s).0 ≡ true → left (c.next_block s).1 < left s
  pub next_block_least : (s : c.State) → left (c.next_block s).1 ≤ left s
  pub next_arg_least : (s : c.State) → left (c.next_arg s).1 ≤ left s
  pub remaining_args_least : (s : c.State) → left (c.remaining_args s).1 ≤ left s

module _ (c : Controller) {Handler : Type 0} (env : Env Handler) where
  -- `if !c.NextArg() { return … }`.
  abbrev pub argument : Bool × c.State → Result SetupError c.State
  argument (found, s) = if found then ok s else err missing_arg

  -- A known key has an argument.
  abbrev pub load_known :
      ParamKey
      → c.State
      → PathConfig
      → Registries Handler
      → Result SetupError (c.State × PathConfig × Registries Handler)
  load_known key s pc hs = do
    s' ← argument (c.next_arg s)
    (pc', hs') ← set_param env key (c.val s') pc hs
    ok (s', pc', hs')

  -- `configLoadParams`.
  unfoldable pub config_load_params :
      c.State
      → PathConfig
      → Registries Handler
      → Result SetupError (c.State × PathConfig × Registries Handler)
  config_load_params s pc hs =
      let key = param_key (c.val s) in
      if is_known key then load_known key s pc hs else err key_not_supported

  abbrev pub BlockResult : Type 0
  BlockResult = Option (Result SetupError (c.State × PathConfig × Registries Handler))

  -- The loop over a block; `none` is a lack of fuel.
  abbrev pub then_block :
      (c.State → PathConfig → Registries Handler → BlockResult)
      → Result SetupError (c.State × PathConfig × Registries Handler)
      → BlockResult
  then_block more (err e) = some (err e)
  then_block more (ok (s, pc, hs)) = more s pc hs

  unfoldable pub load_block : ℕ → c.State → PathConfig → Registries Handler → BlockResult
  load_block zero s pc hs = none
  load_block (suc fuel) s pc hs = elim (c.next_block s).0 [
    | false ↦ some (ok ((c.next_block s).1, pc, hs))
    | true ↦ then_block (load_block fuel) (config_load_params (c.next_block s).1 pc hs)
  ]

  abbrev pub Setups : Type 0
  Setups = Option (Result SetupError (List PathConfig × Registries Handler))

  abbrev pub add_config : PathConfig → Setups → Setups
  add_config pc none = none
  add_config pc (some (err e)) = some (err e)
  add_config pc (some (ok (pcs, hs))) = some (ok (pc ∷ pcs, hs))

  -- What follows the block of a directive; `rest` is the rest of the loop.
  abbrev pub finish_config : PathConfig → Setups → Result SetupError PathConfig → Setups
  finish_config pc rest (err e) = some (err e)
  finish_config pc rest (ok pc') = add_config (with_setup_defaults pc') rest

  abbrev pub after_block : (c.State → Registries Handler → Setups) → BlockResult → Setups
  after_block more none = none
  after_block more (some (err e)) = some (err e)
  after_block more (some (ok (s, pc, hs))) =
      finish_config pc (more s hs) (setup_logger env.can_open pc)

  abbrev pub with_scope :
      (c.State → Registries Handler → Setups)
      → ℕ
      → c.State
      → Registries Handler
      → Result SetupError Bytes
      → Setups
  with_scope more fuel s hs (err e) = some (err e)
  with_scope more fuel s hs (ok scope) =
      after_block more (load_block fuel s (record new_path_config { scope = scope }) hs)

  -- `configEsiParse`, for a registry that may hold handlers already.
  unfoldable pub config_esi_parse : ℕ → c.State → Registries Handler → Setups
  config_esi_parse zero s hs = none
  config_esi_parse (suc fuel) s hs = elim (c.next s).0 [
    | false ↦ some (ok ([], hs))
    | true ↦
        let (args, s') = c.remaining_args (c.next s).1 in
        with_scope (config_esi_parse fuel) (suc fuel) s' hs (scope_of args)
  ]
