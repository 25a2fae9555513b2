-- ===== src/Middleware.antt =====
-- middleware.go: `ServeHTTP`, `serveBuffered` and `handleHeaderCommands`, for one request at a time: of the
-- two groups of calls (singleflight), each runs its function for this request. The handler behind the
-- middleware is what it does to the writer it is given, which does not depend on the results of its writes.
-- What arrives on the channel of the tags is a parameter; EsiTag/Fanout says what arrives.
pub mod Routes
pub mod Buffers
pub mod Spots
pub mod Heads
pub mod Serves
pub mod Cached
pub mod Handle
mod Tests
use caddy_esi.Prelude.{
  ℕ, Bool, true, false, not, List, [], ◌∷◌, ◌++◌, Option, none, some, if◌then◌else◌, map, length,
}
use caddy_esi.Prelude.Int.{ℤ, pos}
use caddy_esi.Prelude.Result.{Result, ok, err}
use caddy_esi.Prelude.Text.{Bytes, codes, equal}
use caddy_esi.Http.{Header, Request, header_get, header_put}
use caddy_esi.Helper.RealIp.{Net}
use caddy_esi.Writer.{Writer, Written, buffer}
use caddy_esi.EsiTag.DataTags.{DataTag, data_len, new_data_tags_capped}
use caddy_esi.EsiTag.DataTags.Inject.{Failure, Injected, inject_content}
use caddy_esi.EsiTag.Entity.{Entity, Parsers, ParseError}
use caddy_esi.EsiTag.Parse.{parse}
use caddy_esi.Response.{ResponseWriter, Decimals}
use caddy_esi.Response.Buffered.{BufferedWriter, response_wrap_buffer, trigger_real_write}
use caddy_esi.Response.Buffered as Buffered
use caddy_esi.Response.Injecting.{is_response_allowed}
use caddy_esi.Config.{
  Reference, PathConfig, black_hole, with_defaults, upsert_esi_tags, purge_esi_cache,
  is_request_allowed, config_for_path, page_id, esi_tags_by_request,
}
use caddy_esi.Config.Setup.{setup_logger, SetupError}

-- A call of a response writer.
pub data Action : Type 0 where
  put_header : Bytes → List Bytes → Action
  send_code : ℕ → Action
  send : Bytes → Action

-- `Next.ServeHTTP`: its calls, and the code and whether it returns an error.
pub record Next : Type 0 where
  pub actions : List Action
  pub code : ℕ
  pub failed : Bool

-- What `ServeHTTP` leaves behind: the client, the code, and whether it returns an error.
pub record Reply (S : Type 0) : Type 0 where
  pub client : S
  pub code : ℕ
  pub failed : Bool

abbrev pub internal_server_error : ℕ
internal_server_error = 500

-- What a command of the header does: the configuration, and the header that is set for the client.
pub data Command : Type 0 where
  purge : Command
  log_as : Bytes → Command
  no_command : Command

unfoldable pub command_of : Bytes → Command
command_of value =
    if equal value (codes "purge")
    then purge
    else if equal value (codes "log-debug")
    then log_as (codes "debug")
    else if equal value (codes "log-info")
    then log_as (codes "info")
    else if equal value (codes "log-none")
    then log_as (codes "none")
    else no_command

-- The configuration behind a command, the error, and the value of the header that is set for the client.
pub record Commanded : Type 0 where
  pub config : PathConfig
  pub error : Option SetupError
  pub value : Option Bytes

-- `err = setupLogger(pc)`: the level is set, and the logger is reset, in any case.
abbrev pub logged_as : Bytes → PathConfig → Result SetupError PathConfig → Commanded
logged_as previous set (err e) = record {
  config = record set { log = black_hole };
  error = some e;
  value = none;
}
logged_as previous set (ok pc) = record {
  config = pc;
  error = none;
  value = some (codes "log-" ++ (previous ++ codes "-ok"));
}

module _ (d : Decimals) (canonical : Bytes → Bytes) (can_open : Bytes → Bool) where
  abbrev pub run_command : PathConfig → Command → Commanded
  run_command pc purge =
      let (pc', count) = purge_esi_cache pc in
      record { config = pc'; error = none; value = some (codes "purge-ok-" ++ d.itoa (pos count)) }
  run_command pc (log_as level) =
      let pc' = record pc { log_level = level } in
      logged_as pc.log_level pc' (setup_logger can_open pc')
  run_command pc no_command = record { config = pc; error = none; value = none }

  -- `handleHeaderCommands`, with the header of the request.
  unfoldable pub handle_header_commands : PathConfig → Header → Commanded
  handle_header_commands pc header =
      if equal pc.cmd_header_name []
      then record { config = pc; error = none; value = none }
      else run_command pc (command_of (header_get header (canonical pc.cmd_header_name)))

-- The way that `ServeHTTP` takes: the next handler with the writer as it is, an error, `serveBuffered`, or
-- the next handler with an `injectingWriter` for the tags of these entities.
pub data Route : Type 0 where
  passes : Route
  fails : PathConfig → SetupError → Route
  buffers : PathConfig → ℕ → Route
  injects : PathConfig → List (Entity Reference) → Route

abbrev pub route_cached : PathConfig → ℕ × Option (List (Entity Reference)) → Route
route_cached cfg (id, some (e ∷ entities)) = injects cfg (e ∷ entities)
route_cached cfg (id, _) = buffers cfg id

module _ (net : Net) (hash : Bytes → ℕ → ℕ) (canonical : Bytes → Bytes) (d : Decimals)
    (can_open : Bytes → Bool) where
  abbrev pub route_commanded : Request → PathConfig → Option SetupError → Route
  route_commanded r cfg (some e) = fails cfg e
  route_commanded r cfg none = route_cached cfg (esi_tags_by_request net hash canonical cfg r)

  abbrev pub route_for : Request → Option PathConfig → Route × Option Bytes
  route_for r none = (passes, none)
  route_for r (some cfg) =
      if not (is_request_allowed cfg r)
      then (passes, none)
      else (let c = handle_header_commands d canonical can_open cfg r.header in
          (route_commanded r c.config c.error, c.value))

  -- `ServeHTTP`, with the value of the command header that it sets for the client.
  unfoldable pub serve_http :
      (Bytes → Bytes → Bool) → List PathConfig → Request → Route × Option Bytes
  serve_http matches configs r = route_for r (config_for_path matches configs r)

module _ (w : ResponseWriter) (d : Decimals) (detect : Bytes → Bytes)
    (sort : List DataTag → List DataTag) where
  -- `bufferedWriter`, as an io.Writer.
  abbrev pub page_writer : Writer
  page_writer = record { Sink = BufferedWriter w.State Bytes; write = Buffered.write w buffer d }

  unfoldable pub act : Action → BufferedWriter w.State Bytes → BufferedWriter w.State Bytes
  act (put_header k vs) b = record b { header = header_put b.header k vs }
  act (send_code code) b = Buffered.write_header b code
  act (send p) b = (Buffered.write w buffer d b p).sink

  unfoldable pub act_all : List Action → BufferedWriter w.State Bytes → BufferedWriter w.State Bytes
  act_all [] b = b
  act_all (a ∷ more) b = act_all more (act a b)

  -- `if _, err := …; err != nil { return http.StatusInternalServerError, err }`.
  abbrev pub replied : Bool → BufferedWriter w.State Bytes → ℕ → Reply w.State
  replied failed b code =
      if failed
      then record { client = b.rw; code = internal_server_error; failed = true }
      else record { client = b.rw; code = code; failed = false }

  abbrev pub pass_on : BufferedWriter w.State Bytes → ℕ → Reply w.State
  pass_on b code =
      let r = Buffered.write w buffer d (trigger_real_write b (pos 0)) b.buf in
      replied r.failed r.sink code

  abbrev pub has_failed : Option Failure → Bool
  has_failed none = false
  has_failed (some e) = true

  -- From `TriggerRealWrite` on.
  abbrev pub inject_arrived : BufferedWriter w.State Bytes → List DataTag → ℕ → Reply w.State
  inject_arrived b arrived code =
      let tags = record (new_data_tags_capped 5) { slice = sort arrived } in
      let r = inject_content page_writer tags b.buf (trigger_real_write b (data_len arrived)) in
      replied (has_failed r.failure) r.sink code

  module _ (parsers : Parsers) (handlers : List (Bytes × Reference)) (sizes : List ℕ)
      (arrived : List (Entity Reference) → List DataTag) where
    -- The page is parsed, its tags are kept in the cache, and queried.
    abbrev pub serve_parsed :
        PathConfig
        → ℕ
        → BufferedWriter w.State Bytes
        → ℕ
        → Option (Result ParseError (List (Entity Reference)))
        → PathConfig × Reply w.State
    serve_parsed cfg id b code (some (ok entities)) =
        let cfg' = upsert_esi_tags cfg id entities in
        (cfg', inject_arrived b (arrived (map (with_defaults cfg) entities)) code)
    serve_parsed cfg id b code _ = (cfg, replied true b code)

    abbrev pub serve_page :
        PathConfig → ℕ → BufferedWriter w.State Bytes → ℕ → PathConfig × Reply w.State
    serve_page cfg id b code =
        if not (is_response_allowed sort w d detect b.buf)
        then (cfg, pass_on b code)
        else serve_parsed cfg id b code (parse parsers handlers sizes b.buf)

    unfoldable pub serve_buffered : PathConfig → ℕ → Next → w.State → PathConfig × Reply w.State
    serve_buffered cfg id next client =
        let b = act_all next.actions (response_wrap_buffer [] client) in
        if next.failed then (cfg, replied true b next.code) else serve_page cfg id b next.code
