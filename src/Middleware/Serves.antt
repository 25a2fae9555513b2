-- ===== src/Middleware/Serves.antt =====
-- What `serveBuffered` sends.
use caddy_esi.Prelude.{ℕ, length, ◌≡◌, false, List, ◌++◌, some, map}
use caddy_esi.Prelude.Int.{ℤ, pos, ◌+ℤ◌}
use caddy_esi.Prelude.Text.{Bytes}
use caddy_esi.EsiTag.DataTags.{DataTag}
use caddy_esi.EsiTag.Entity.{Entity}
use caddy_esi.Response.{ResponseWriter, Observed, Decimals}
use caddy_esi.Config.{Reference, PathConfig, with_defaults, cached}
use caddy_esi.Middleware.{Next, Reply}
use caddy_esi.Middleware.Heads.{Headed}
use caddy_esi.Middleware.Buffers.{Page}

module _ (w : ResponseWriter) (v : Observed w) (d : Decimals) (detect : Bytes → Bytes)
    (sort : List DataTag → List DataTag) where
  -- The client behind the injection.
  record Sent (b b' : Page w v d detect sort) (r : Reply w.State) (code : ℕ) (out : Bytes)
      : Type 0 where
    code_same : r.code ≡ code
    not_failed : r.failed ≡ false
    client_is : r.client ≡ b'.rw
    body_more : v.body.content r.client ≡ v.body.content b.rw ++ out

  -- What has become of a request: the reply, and the configuration.
  pub record Served (cfg cfg' : PathConfig) (id : ℕ) (entities : List (Entity Reference))
      (next : Next) (client : w.State) (doc out : Bytes) (r : Reply w.State) : Type 0 where
    pub returned_eq : r.code ≡ next.code
    pub no_error : r.failed ≡ false
    pub added : ℤ
    pub added_eq : pos (length out) ≡ pos (length doc) +ℤ added
    pub head : Headed w v d detect sort next client r.client added out
    pub body_eq : v.body.content r.client ≡ v.body.content client ++ out
    pub cached_eq : cached cfg'.esi_cache id ≡ some (map (with_defaults cfg) entities)
