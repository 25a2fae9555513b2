-- ===== src/Middleware/Routes.antt =====
-- The ways of a request.
use caddy_esi.Prelude.{
  ℕ, ◌≡◌, ◌≢◌, refl, ap, ◌∙◌, Bool, true, false, List, [], ◌++◌, some, length, Bool-cases, inl, inr,
}
use caddy_esi.Prelude.Int.{pos}
use caddy_esi.Prelude.Text.{Bytes, codes, equal, equal_iff}
use caddy_esi.Http.{Request, header_get}
use caddy_esi.Helper.RealIp.{Net}
use caddy_esi.Response.{Decimals}
use caddy_esi.Config.{
  PathConfig, purge_esi_cache, is_request_allowed, config_for_path, page_id, cached,
}
use caddy_esi.Middleware.{buffers, serve_http, route_for, handle_header_commands, command_of}

module _ (net : Net) (hash : Bytes → ℕ → ℕ) (canonical : Bytes → Bytes) (d : Decimals)
    (can_open : Bytes → Bool) (matches : Bytes → Bytes → Bool) (configs : List PathConfig) where
  not_named : (name : Bytes) → name ≢ [] → equal name [] ≡ false
  not_named name h = elim (Bool-cases (equal name [])) [
    | inl e ↦ absurd (h ((equal_iff name []).0 e))
    | inr e ↦ e
  ]

  -- An allowed request whose command header says purge empties the cache of its path, is told how many pages
  -- the cache held, and is itself served from the buffer, whatever was cached for its page.
  pub serve_http-purge :
      (r : Request) (cfg : PathConfig)
      → config_for_path matches configs r ≡ some cfg
      → is_request_allowed cfg r ≡ true
      → cfg.cmd_header_name ≢ []
      → header_get r.header (canonical cfg.cmd_header_name) ≡ codes "purge"
      → serve_http net hash canonical d can_open matches configs r ≡ (
        buffers (purge_esi_cache cfg).0 (page_id net hash canonical cfg r),
        some (codes "purge-ok-" ++ d.itoa (pos (length cfg.esi_cache))),
      )
  unfolding serve_http handle_header_commands command_of cached equal
  serve_http-purge r cfg found allowed named value =
      ap (route_for net hash canonical d can_open r) found
      ∙ rw (allowed, not_named cfg.cmd_header_name named, value) refl
