-- ===== src/Middleware/Handle.antt =====
-- `ServeHTTP` (middleware.go) as a whole, for the configuration of one path: the command of the header, the cache,
-- and the way of the request, one request after the other. A configuration is a pointer in Go; here each request
-- gives the configuration that it leaves behind.
pub mod Commands
pub mod Known
pub mod Runs
mod Tests
use caddy_esi.Prelude.{ℕ, Bool, true, false, List, [], ◌∷◌, Option, none, some}
use caddy_esi.Prelude.Text.{Bytes}
use caddy_esi.Helper.RealIp.{Net}
use caddy_esi.Http.{Request}
use caddy_esi.EsiTag.DataTags.{DataTag}
use caddy_esi.EsiTag.Entity.{Entity, Parsers}
use caddy_esi.Response.{ResponseWriter, Decimals}
use caddy_esi.Config.{Reference, PathConfig}
use caddy_esi.Middleware.{
  Action, put_header, send_code, send, Next, Reply, internal_server_error, Route, passes, fails,
  buffers, injects, route_for, serve_buffered,
}
use caddy_esi.Middleware.Cached.{serve_cached}

-- A request, with its client, and what the surroundings do for it: the next handler, the windows of the scanner,
-- and the tags that arrive for the entities that are queried, in the buffer and at the `injectingWriter`.
pub record Visit (S : Type 0) : Type 0 where
  pub request : Request
  pub client : S
  pub next : Next
  pub sizes : List ℕ
  pub arrived : List (Entity Reference) → List DataTag
  pub taken : List (Entity Reference) → List DataTag

module _ (w : ResponseWriter) where
  -- A call of the next handler at the writer of the client.
  abbrev pub act_directly : Action → w.State → w.State
  act_directly (put_header k vs) s = w.put_header s k vs
  act_directly (send_code code) s = w.write_header s code
  act_directly (send p) s = (w.write s p).sink

  abbrev pub act_directly_all : List Action → w.State → w.State
  act_directly_all [] s = s
  act_directly_all (a ∷ more) s = act_directly_all more (act_directly a s)

  -- `w.Header().Set(pc.CmdHeaderName, …)`.
  abbrev pub tell : (Bytes → Bytes) → Bytes → Option Bytes → w.State → w.State
  tell canonical name none s = s
  tell canonical name (some value) s = w.put_header s (canonical name) (value ∷ [])

  module _ (d : Decimals) (detect : Bytes → Bytes) (sort : List DataTag → List DataTag)
      (parsers : Parsers) (handlers : List (Bytes × Reference)) (net : Net) (hash : Bytes → ℕ → ℕ)
      (canonical : Bytes → Bytes) (can_open : Bytes → Bool) where
    -- The way of a request.
    abbrev pub go_way : PathConfig → Visit w.State → Route → w.State → PathConfig × Reply w.State
    go_way cfg v passes s = (
      cfg,
      record {
        client = act_directly_all v.next.actions s;
        code = v.next.code;
        failed = v.next.failed;
      },
    )
    go_way cfg v (fails cfg' e) s =
        (cfg', record { client = s; code = internal_server_error; failed = true })
    go_way cfg v (buffers cfg' id) s =
        serve_buffered w d detect sort parsers handlers v.sizes v.arrived cfg' id v.next s
    go_way cfg v (injects cfg' entities) s =
        (cfg', serve_cached sort w d detect (v.taken entities) v.next s)

    abbrev pub route_of : PathConfig → Request → Route × Option Bytes
    route_of cfg r = route_for net hash canonical d can_open r (some cfg)

    unfoldable pub handle : PathConfig → Visit w.State → PathConfig × Reply w.State
    handle cfg v =
        let (route, value) = route_of cfg v.request in
        go_way cfg v route (tell canonical cfg.cmd_header_name value v.client)

    -- The configuration behind requests.
    unfoldable pub handle_all : PathConfig → List (Visit w.State) → PathConfig
    handle_all cfg [] = cfg
    handle_all cfg (v ∷ vs) = handle_all (handle cfg v).0 vs
