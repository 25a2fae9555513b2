-- ===== src/Backend/Replies.antt =====
-- What the backends return: `ResourceHandler.DoRequest` of the five handlers, as they stand behind the interface.
pub mod Services
pub mod All
use mathlib.Core.Path.{subst}
use caddy_esi.Prelude.{
  ◌≤◌, ◌<◌, ◌^◌, ◌≡◌, refl, sym, ◌∙◌, inl, inr, false, [], ◌∷◌, Option, none, some, leb, length,
  ==_iff, ◌==◌, Bool-cases,
}
use caddy_esi.Prelude.Result.{ok, err, bind-ok, or_fail, or_fail-ok}
use caddy_esi.Prelude.Text.{Bytes}
use caddy_esi.Http.{Header}
use caddy_esi.EsiTag.Args.{
  ResourceArgs, ExternalReq, Missing, validate, validate_with_key, prepare_forward_headers,
}
use caddy_esi.EsiTag.Args.Returned.{prepare_return_headers}
use caddy_esi.Backend.{
  read_failed, client_failed, json_failed, Answer, to_int, cut_to, limit_reader, Bounded,
}
use caddy_esi.Backend.Http.{
  breaks_within, HttpClient, HttpResponse, responded, status_ok, set_pairs, fetch, fetch_checked,
  fetch_valid, handle_done, with_body, Done, failed_over, failed_open,
}
use caddy_esi.Backend.Redis.{EsiRedis, RedisReturns}
use caddy_esi.Backend.MemCache.{EsiMemCache, MemCacheReturns}
use caddy_esi.Backend.Grpc.{GrpcClient, body_of, message_for, call, call_checked, call_valid}
use caddy_esi.Backend.Shell.{
  Processes, Ran, not_run, ran, shell_command, execute_request, execute_checked, execute, output,
  url_prefix,
}
use caddy_esi.Backend.Cuts.{
  cut_to-Bounded, limit_reader-Bounded, cut_to-wraps, limit_reader-wraps, validate-size,
  validate_with_key-size,
}
use caddy_esi.Backend.Stored.{Stored, store-Stored}
use caddy_esi.Backend.Keyed.{StoreReply, value}

-- The handlers of resources, each with its client.
pub data Backend : Type 0 where
  http : (canonical : Bytes → Bytes) → HttpClient → Backend
  redis : (Bytes → StoreReply) → EsiRedis → Backend
  mem_cache : (Bytes → StoreReply) → EsiMemCache → Backend
  grpc : GrpcClient → Backend
  shell : Processes → Backend

-- `DoRequest` of a handler returns an answer.
pub data Returns : Backend → ResourceArgs → Answer → Type 0 where
  by_http :
      (canonical : Bytes → Bytes) (c : HttpClient) (args : ResourceArgs)
      → Returns (http canonical c) args (fetch canonical c args).answer
  by_redis :
      (get : Bytes → StoreReply) (r : EsiRedis) (args : ResourceArgs) {a : Answer}
      → RedisReturns get r args a
      → Returns (redis get r) args a
  by_mem_cache :
      (get : Bytes → StoreReply) (mc : EsiMemCache) (args : ResourceArgs) {a : Answer}
      → MemCacheReturns get mc args a
      → Returns (mem_cache get mc) args a
  by_grpc : (c : GrpcClient) (args : ResourceArgs) → Returns (grpc c) args (call c args)
  by_shell : (p : Processes) (args : ResourceArgs) → Returns (shell p) args (execute_request p args)

-- The checks that a handler makes.
abbrev pub Accepts : Backend → ResourceArgs → Type 0
Accepts (http canonical c) args = validate args ≡ none
Accepts (redis get r) args = validate_with_key args ≡ none
Accepts (mem_cache get mc) args = validate_with_key args ≡ none
Accepts (grpc c) args = (validate args ≡ none) × (validate_with_key args ≡ none)
Accepts (shell p) args = validate args ≡ none

-- The service sent these bytes.
abbrev pub Sends : Backend → ResourceArgs → Bytes → Type 0
Sends (http canonical c) args sent =
    (e : ExternalReq) × (r : HttpResponse) × (args.external_req ≡ some e)
    × (c.send args.url (set_pairs canonical (prepare_forward_headers args.tag e) [])
          args.tag.timeout
        ≡ responded r)
    × (r.status ≡ status_ok)
    × (breaks_within canonical c (to_int args.tag.max_body_size) r ≡ false)
    × (r.body ≡ sent)
Sends (redis get r) args sent = get args.tag.key ≡ value sent
Sends (mem_cache get mc) args sent = get args.tag.key ≡ value sent
Sends (grpc c) args sent =
    (e : ExternalReq) × (body : Bytes) × (args.external_req ≡ some e)
    × (body_of c args e ≡ ok body)
    × (c.get_header_body (message_for c args e body) ≡ some sent)
Sends (shell p) args sent =
    (j : Bytes) × (p.marshal args ≡ some j)
    × (p.run (shell_command args.url).0 (shell_command args.url).1 args.tag.timeout j ≡ ran sent [])

-- A limit that int does not hold is negative: io.LimitReader then stops at once, and the others do not cut.
abbrev pub unlimited : Backend → Bytes → Bytes
unlimited (http canonical c) sent = []
unlimited _ sent = sent

pub record Replied (b : Backend) (args : ResourceArgs) (body : Bytes) : Type 0 where
  pub accepted : Accepts b args
  pub size_pos : 0 < args.tag.max_body_size
  pub sent : Bytes
  pub sends : Sends b args sent
  pub bounded : args.tag.max_body_size < 2 ^ 63 → Bounded args.tag.max_body_size sent body
  pub wrapped : 2 ^ 63 ≤ args.tag.max_body_size → body ≡ unlimited b sent

pub cut-Replied :
    (b : Backend) (args : ResourceArgs) (sent body : Bytes)
    → unlimited b sent ≡ sent
    → Accepts b args
    → 0 < args.tag.max_body_size
    → Sends b args sent
    → body ≡ cut_to (to_int args.tag.max_body_size) sent
    → Replied b args body
cut-Replied b args sent body whole ok_args p s e =
    let n = args.tag.max_body_size in
    record {
      accepted = ok_args;
      size_pos = p;
      sent = sent;
      sends = s;
      bounded = λ h. subst (Bounded n sent) (sym e) (cut_to-Bounded n sent p h);
      wrapped = λ h. e ∙ cut_to-wraps n sent h ∙ sym whole;
    }
