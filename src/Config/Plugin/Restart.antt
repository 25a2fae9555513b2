-- ===== src/Config/Plugin/Restart.antt =====
-- What is left of the caches and of the handlers when the server starts again.
use mathlib.Core.List.{Perm}
use caddy_esi.Prelude.{
  ℕ, ◌≡◌, refl, ap, Bool, true, false, List, [], ◌∷◌, ◌++◌, Option, none, some, Bool-cases, inl,
  inr,
}
use caddy_esi.Prelude.Text.{Bytes}
use caddy_esi.Http.{Request}
use caddy_esi.Helper.RealIp.{Net}
use caddy_esi.EsiTag.Registry.{close_all}
use caddy_esi.Config.{
  PathConfig, purge_esi_cache, config_for_path, page_id, cached, esi_tags_by_request,
}
use caddy_esi.Config.Plugin.{
  Plugin, PluginError, restart_failed, Closings, closed_as, purge_all, on_restart,
}

module _ {Handler : Type 0} (closes : Handler → Bool) where
  abbrev pub schemes : List (Bytes × Handler) → List Bytes
  schemes [] = []
  schemes ((scheme, h) ∷ hs) = scheme ∷ schemes hs

  abbrev pub AllClose : List (Bytes × Handler) → Type 0
  AllClose [] = Unit
  AllClose ((scheme, h) ∷ hs) = (closes h ≡ true) × AllClose hs

  -- Which handlers are closed, and with which error.
  pub data Closing (e : Bytes → PluginError) (visited : List (Bytes × Handler))
      : Closings → Type 0 where
    all_closed : AllClose visited → Closing e visited (schemes visited, none)
    stopped :
        (before after : List (Bytes × Handler)) (scheme : Bytes) (h : Handler)
        → visited ≡ before ++ (scheme, h) ∷ after
        → AllClose before
        → closes h ≡ false
        → Closing e visited (schemes before ++ scheme ∷ [], some (e scheme))

  Closing-cons :
      (e : Bytes → PluginError) (scheme : Bytes) (h : Handler) (hs : List (Bytes × Handler))
      (closed : List Bytes) (failed : Option PluginError)
      → closes h ≡ true
      → Closing e hs (closed, failed)
      → Closing e ((scheme, h) ∷ hs) (scheme ∷ closed, failed)
  Closing-cons e scheme h hs _ _ c (all_closed a) = all_closed (c, a)
  Closing-cons e scheme h hs _ _ c (stopped before after s h' q a n) =
      stopped ((scheme, h) ∷ before) after s h' (ap (λ l. (scheme, h) ∷ l) q) (c, a) n

  closed_as-Closing :
      (e : Bytes → PluginError) (scheme : Bytes) (h : Handler) (hs : List (Bytes × Handler))
      (r : List Bytes × Option Bytes)
      → closes h ≡ true
      → Closing e hs (closed_as e r)
      → Closing e ((scheme, h) ∷ hs) (closed_as e (scheme ∷ r.0, r.1))
  closed_as-Closing e scheme h hs (closed, none) c k = Closing-cons e scheme h hs closed none c k
  closed_as-Closing e scheme h hs (closed, some s) c k =
      Closing-cons e scheme h hs closed (some (e s)) c k

  pub close_all-Closing :
      (e : Bytes → PluginError) (visited : List (Bytes × Handler))
      → Closing e visited (closed_as e (close_all closes visited))
  close_all-Closing e [] = all_closed tt
  close_all-Closing e ((scheme, h) ∷ hs) = elim (Bool-cases (closes h)) [
    | inl c ↦
        rw c (closed_as-Closing e scheme h hs (close_all closes hs) c (close_all-Closing e hs))
    | inr c ↦ rw c (stopped [] hs scheme h refl tt c)
  ]

module _ (net : Net) (hash : Bytes → ℕ → ℕ) (canonical : Bytes → Bytes) where
  -- The configuration for a request, before and after.
  pub data Forgot (r : Request) : Option PathConfig → Option PathConfig → Type 0 where
    no_config : Forgot r none none
    emptied :
        (pc pc' : PathConfig)
        → pc' ≡ record pc { esi_cache = [] }
        → esi_tags_by_request net hash canonical pc' r ≡ (page_id net hash canonical pc r, none)
        → Forgot r (some pc) (some pc')

  purge_all-Forgot :
      (matches : Bytes → Bytes → Bool) (pcs : List PathConfig) (r : Request)
      → Forgot r (config_for_path matches pcs r) (config_for_path matches (purge_all pcs) r)
  unfolding purge_all cached
  purge_all-Forgot matches [] r = no_config
  purge_all-Forgot matches (pc ∷ pcs) r = elim (Bool-cases (matches r.url.path pc.scope)) [
    | inl e ↦ rw e (emptied pc (purge_esi_cache pc).0 refl refl)
    | inr e ↦ rw e (purge_all-Forgot matches pcs r)
  ]

  pub record Restarts {Handler : Type 0} (closes : Handler → Bool) (matches : Bytes → Bytes → Bool)
      (p q : Plugin Handler) (c : Closings) : Type 0 where
    pub forgot :
        (r : Request)
        → Forgot r
            (config_for_path matches p.path_configs r)
            (config_for_path matches q.path_configs r)
    pub visited : List (Bytes × Handler)
    pub visits : Perm visited p.registries.handlers
    pub closing : Closing closes restart_failed visited c
    pub still_registered : q.registries ≡ p.registries

  -- When the server starts again, whatever requests the middleware has served: every request gets the
  -- configuration of its path as before, in all its fields but the cache, which is empty, with the same page ID. In the order in
  -- which the map of the handlers is visited, all handlers are closed and there is no error, or they are closed up to
  -- the first that fails, which the error names, and the others are left open. All handlers stay in the registry.
  pub on_restart-Restarts :
      {Handler : Type 0} (closes : Handler → Bool) (matches : Bytes → Bytes → Bool)
      (visited : List (Bytes × Handler)) (p : Plugin Handler)
      → Perm visited p.registries.handlers
      → let (q, c) = on_restart closes visited p in Restarts closes matches p q c
  on_restart-Restarts closes matches visited p perm = record {
    forgot = purge_all-Forgot matches p.path_configs;
    visited = visited;
    visits = perm;
    closing = close_all-Closing closes restart_failed visited;
    still_registered = refl;
  }
