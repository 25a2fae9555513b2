-- ===== src/Backend/Replies/All.antt =====
-- The answers of all backends.
use caddy_esi.Prelude.{◌≡◌, refl, Option, none}
use caddy_esi.Prelude.Result.{ok}
use caddy_esi.Prelude.Text.{Bytes}
use caddy_esi.Http.{Header}
use caddy_esi.EsiTag.Args.{ResourceArgs, validate, validate_with_key}
use caddy_esi.Backend.{Answer}
use caddy_esi.Backend.Http.{fetch}
use caddy_esi.Backend.Grpc.{call}
use caddy_esi.Backend.Shell.{execute_request}
use caddy_esi.Backend.Cuts.{validate_with_key-size}
use caddy_esi.Backend.Stored.{Stored, store-Stored}
use caddy_esi.Backend.Keyed.{StoreReply, value}
use caddy_esi.Backend.Replies.{
  Backend, Returns, by_http, by_redis, by_mem_cache, by_grpc, by_shell, Accepts, Sends, unlimited,
  Replied, cut-Replied,
}
use caddy_esi.Backend.Replies.Services.{
  fetch_checked-Replied, call_checked-Replied, execute_checked-Replied,
}

store-Replied :
    (b : Backend) (get : Bytes → StoreReply) (args : ResourceArgs) (body : Bytes)
    → ((sent : Bytes) → unlimited b sent ≡ sent)
    → (validate_with_key args ≡ none → Accepts b args)
    → ((sent : Bytes) → get args.tag.key ≡ value sent → Sends b args sent)
    → Stored get args body
    → Replied b args body
store-Replied b get args body whole v s r =
    cut-Replied b args r.kept body (whole r.kept) (v r.valid) (validate_with_key-size args r.valid)
      (s r.kept r.found) r.body_eq

answer-Replied :
    (b : Backend) (args : ResourceArgs) (a : Answer) (h : Option Header) (body : Bytes)
    → Returns b args a
    → a ≡ ok (h, body)
    → Replied b args body
unfolding fetch call execute_request
answer-Replied b args a h body (by_http canonical c _) e =
    fetch_checked-Replied canonical c args h body (validate args) refl e
answer-Replied b args a h body (by_redis get r _ s) e =
    store-Replied b get args body (λ _. refl) (λ v. v) (λ _ g. g)
      (store-Stored r.is_cancellable get args a h body s e)
answer-Replied b args a h body (by_mem_cache get mc _ s) e =
    store-Replied b get args body (λ _. refl) (λ v. v) (λ _ g. g)
      (store-Stored mc.is_cancellable get args a h body s e)
answer-Replied b args a h body (by_grpc c _) e =
    call_checked-Replied c args h body (validate args) (validate_with_key args) refl refl e
answer-Replied b args a h body (by_shell p _) e =
    execute_checked-Replied p args h body (validate args) refl e

-- When a backend of any of the five kinds answers, on whatever schedule where it can be cancelled, then the
-- arguments of the request passed its checks and allow a body that is not empty; the service did answer the
-- request made of these arguments; and the body is the beginning of what the service sent, whole if it
-- fits, and at most MaxBodySize bytes, if MaxBodySize is below 2^63. From there on the limit is negative as an
-- int: over HTTP the body is then always empty, and the others do not limit it.
pub do_request-Replied :
    (b : Backend) (args : ResourceArgs) (h : Option Header) (body : Bytes)
    → Returns b args (ok (h, body))
    → Replied b args body
do_request-Replied b args h body r = answer-Replied b args _ h body r refl
