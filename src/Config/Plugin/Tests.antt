-- ===== src/Config/Plugin/Tests.antt =====
-- A server with one path and two handlers, of which one cannot be closed.
use mathlib.Core.List.Perm
use caddy_esi.Prelude.{ℕ, ◌≡◌, refl, Bool, false, List, [], ◌∷◌, none, some, length, ◌+◌, ◌==◌}
use caddy_esi.Prelude.Text.{Bytes, codes, equal}
use caddy_esi.Helper.RealIp.{Net}
use caddy_esi.Config.{new_path_config}
use caddy_esi.Config.Plugin.{
  Plugin, Closings, on_shutdown, shutdown_failed, restart_failed, purge_all,
}
use caddy_esi.Config.Plugin.Restart.{Restarts, on_restart-Restarts}

abbrev net : Net
net = record {
  split_host_port = λ a. none;
  parse_ip = λ a. none;
  runes = λ s. s;
  encode = λ c. c ∷ [];
  is_kept = λ c. false;
}

abbrev hash : Bytes → ℕ → ℕ
hash s n = length s + n

abbrev closes : ℕ → Bool
closes h = h == 5

abbrev handlers : List (Bytes × ℕ)
handlers = (codes "redis", 5) ∷ (codes "grpc", 6) ∷ (codes "http", 5) ∷ []

abbrev running : Plugin ℕ
running = record {
  root = codes "/www";
  path_configs = record new_path_config { scope = codes "/shop"; esi_cache = (18, []) ∷ [] } ∷ [];
  registries = record { handlers = handlers; caches = [] };
}

-- The third handler stays open.
shut :
    on_shutdown closes handlers
    ≡ (codes "redis" ∷ codes "grpc" ∷ [], some (shutdown_failed (codes "grpc")))
shut = refl

abbrev closed : Closings
closed = (codes "redis" ∷ codes "grpc" ∷ [], some (restart_failed (codes "grpc")))

abbrev restarted : Plugin ℕ
restarted = record running { path_configs = purge_all running.path_configs }

on_restart-Restarts_example : Restarts net hash (λ s. s) closes equal running restarted closed
on_restart-Restarts_example =
    on_restart-Restarts net hash (λ s. s) closes equal handlers running (Perm.refl handlers)
