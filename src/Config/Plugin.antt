-- ===== src/Config/Plugin.antt =====
-- setup.go: `PluginSetup`, and what the server calls before it stops or starts again. The server is a library; what
-- it gets is a value. Go visits a map in any order: `visited` are the handlers in this order.
pub mod Restart
mod Tests
use caddy_esi.Prelude.{ℕ, Bool, List, [], ◌∷◌, Option, none, some}
use caddy_esi.Prelude.Result.{Result, ok, err, wrap}
use caddy_esi.Prelude.Text.{Bytes}
use caddy_esi.EsiTag.Registry.{close_all}
use caddy_esi.Config.{PathConfig, purge_esi_cache}
use caddy_esi.Config.Setup.{Env, Registries, SetupError}
use caddy_esi.Config.Setup.Loops.{Controller, Setups, config_esi_parse}

-- The fields of the middleware that the setup fills, and the registries of the program.
pub record Plugin (Handler : Type 0) : Type 0 where
  pub root : Bytes
  pub path_configs : List PathConfig
  pub registries : Registries Handler

pub data PluginError : Type 0 where
  parse_failed : SetupError → PluginError
  shutdown_failed restart_failed : Bytes → PluginError

module _ (c : Controller) {Handler : Type 0} (env : Env Handler) where
  abbrev with_configs : Bytes → Setups c env → Option (Result PluginError (Plugin Handler))
  with_configs root none = none
  with_configs root (some (err e)) = some (err (parse_failed e))
  with_configs root (some (ok (pcs, registries))) =
      some (ok (record { root = root; path_configs = pcs; registries = registries }))

  -- `PluginSetup`; `none` is a lack of fuel.
  abbrev pub plugin_setup :
      ℕ → Bytes → c.State → Registries Handler → Option (Result PluginError (Plugin Handler))
  plugin_setup fuel root s registries = with_configs root (config_esi_parse c env fuel s registries)

-- The schemes whose handlers are closed, and the error.
abbrev pub Closings : Type 0
Closings = List Bytes × Option PluginError

abbrev pub closed_as : (Bytes → PluginError) → List Bytes × Option Bytes → Closings
closed_as e (closed, none) = (closed, none)
closed_as e (closed, some scheme) = (closed, some (e scheme))

-- The loop over the configurations.
unfoldable pub purge_all : List PathConfig → List PathConfig
purge_all [] = []
purge_all (pc ∷ pcs) = (purge_esi_cache pc).0 ∷ purge_all pcs

module _ {Handler : Type 0} (closes : Handler → Bool) where
  abbrev pub on_shutdown : List (Bytes × Handler) → Closings
  on_shutdown visited = closed_as shutdown_failed (close_all closes visited)

  abbrev pub on_restart : List (Bytes × Handler) → Plugin Handler → Plugin Handler × Closings
  on_restart visited p = (
    record p { path_configs = purge_all p.path_configs },
    closed_as restart_failed (close_all closes visited),
  )
