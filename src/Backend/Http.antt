-- ===== src/Backend/Http.antt =====
-- esitag/backend/http.go. http.NewRequest and http.Client are parameters; `canonical` is
-- textproto.CanonicalMIMEHeaderKey, which `Header.Set` applies.
use caddy_esi.Prelude.{
  ◌&&◌, length, ℕ, Bool, false, not, List, [], ◌∷◌, Option, none, some, ◌==◌, if◌then◌else◌,
}
use caddy_esi.Prelude.Int.{ℤ, pos, ltb_ℤ}
use caddy_esi.Prelude.Result.{ok, err}
use caddy_esi.Prelude.Text.{Bytes}
use caddy_esi.Http.{Header, header_put}
use caddy_esi.EsiTag.Args.{ResourceArgs, ExternalReq, Missing, validate, prepare_forward_headers}
use caddy_esi.EsiTag.Args.Returned.{prepare_return_headers}
use caddy_esi.Backend.{
  BackendError, args_invalid, request_invalid, context_done, client_failed, read_failed,
  code_not_supported, Answer, to_int, limit_reader,
}

-- `client.Do`: an error, with the context done or not, or a response. `breaks` says whether an error
-- other than io.EOF stands behind the bytes of its body.
pub record HttpResponse : Type 0 where
  pub status : ℕ
  pub header : Header
  pub body : Bytes
  pub breaks : Bool

pub data Done : Type 0 where
  failed_over failed_open : Done
  responded : HttpResponse → Done

-- A client: whether a URL makes a request, whether its transport can cancel requests, and what it returns for
-- a URL, a header and a timeout.
pub record HttpClient : Type 0 where
  pub accepts : Bytes → Bool
  pub can_cancel : Bool
  pub send : Bytes → Header → ℤ → Done

abbrev pub status_ok : ℕ
status_ok = 200

-- The answer, and whether the request is cancelled at the transport.
pub record Fetched : Type 0 where
  pub answer : Answer
  pub cancels : Bool

abbrev pub fails_with : BackendError → Fetched
fails_with e = record { answer = err e; cancels = false }

module _ (canonical : Bytes → Bytes) where
  -- `for … i = i + 2 { req.Header.Set(hdr[i], hdr[i+1]) }`; the list is even.
  abbrev pub set_pairs : List Bytes → Header → Header
  set_pairs [] h = h
  set_pairs (k ∷ []) h = h
  set_pairs (k ∷ v ∷ more) h = set_pairs more (header_put h (canonical k) (v ∷ []))

  module _ (client : HttpClient) where
    -- A reader that the limit stops does not meet the error.
    abbrev pub breaks_within : ℤ → HttpResponse → Bool
    breaks_within mbs r = r.breaks && ltb_ℤ (pos (length r.body)) mbs

    abbrev pub with_body : ResourceArgs → HttpResponse → Fetched
    with_body args r =
        if breaks_within (to_int args.tag.max_body_size) r then fails_with read_failed else record {
          answer = ok (
            prepare_return_headers canonical args.tag r.header,
            limit_reader (to_int args.tag.max_body_size) r.body,
          );
          cancels = false;
        }

    abbrev pub handle_done : ResourceArgs → Done → Fetched
    handle_done args failed_over = record { answer = err context_done; cancels = client.can_cancel }
    handle_done args failed_open = fails_with client_failed
    handle_done args (responded r) =
        if r.status == status_ok then with_body args r else fails_with (code_not_supported r.status)

    -- The request of the client is there, as `Validate` has found.
    abbrev pub fetch_valid : ResourceArgs → Option ExternalReq → Fetched
    fetch_valid args none = fails_with request_invalid
    fetch_valid args (some r) =
        if not (client.accepts args.url)
        then fails_with request_invalid
        else handle_done args (
            client.send args.url (set_pairs (prepare_forward_headers args.tag r) [])
              args.tag.timeout)

    abbrev pub fetch_checked : ResourceArgs → Option Missing → Fetched
    fetch_checked args (some e) = fails_with (args_invalid e)
    fetch_checked args none = fetch_valid args args.external_req

    -- `fetchHTTP.DoRequest`.
    unfoldable pub fetch : ResourceArgs → Fetched
    fetch args = fetch_checked args (validate args)
