-- ===== src/Middleware/Cached/Serves.antt =====
-- What a request gets whose page has its tags in the cache.
use caddy_esi.Prelude.{◌≡◌, List, [], ◌++◌}
use caddy_esi.Prelude.Text.{Bytes}
use caddy_esi.EsiTag.DataTags.{DataTag, data_len}
use caddy_esi.EsiTag.DataTags.Splice.{splice}
use caddy_esi.EsiTag.Entity.{Entity}
use caddy_esi.Response.{ResponseWriter, Observed, Decimals}
use caddy_esi.Response.Injecting.{InjectingWriter}
use caddy_esi.Config.{Reference}
use caddy_esi.Middleware.{Action, Reply}
use caddy_esi.Middleware.Cached.Answers.{Answered}
use caddy_esi.EsiTag.DataTags.{DataTags}
use caddy_esi.Middleware.Cached.Heads.{head_of, Shown}

module _ (w : ResponseWriter) (v : Observed w) (d : Decimals) (detect : Bytes → Bytes)
    (sort : List DataTag → List DataTag) where
  -- The client behind the calls of the next handler.
  record Injected (before : List Action) (tags : List DataTag) (client : w.State) (doc : Bytes)
      (b : InjectingWriter w.State) : Type 0 where
    head_shown : Shown w v d detect sort client b.rw (data_len tags) (head_of [] before)
    body_more : v.body.content b.rw ≡ v.body.content client ++ splice 0 tags doc

  -- What has become of a request: the reply, and the answers for the tags of the page.
  pub record ServedCached (replace : Bytes → Bytes) (entities : List (Entity Reference))
      (before : List Action) (client : w.State) (doc : Bytes) (r : Reply w.State) : Type 0 where
    pub tags : List DataTag
    pub answered : Answered replace entities tags
    pub body_eq : v.body.content r.client ≡ v.body.content client ++ splice 0 tags doc
    pub head : Shown w v d detect sort client r.client (data_len tags) (head_of [] before)
