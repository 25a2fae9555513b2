-- ===== src/Backend/Grpc.antt =====
-- esitag/backend/grpc.go. The connection, credentials.NewClientTLSFromFile and the readers are parameters.
use caddy_esi.Prelude.{ℕ, Bool, List, [], ◌∷◌, ◌++◌, Option, none, some, if◌then◌else◌}
use caddy_esi.Prelude.Int.{ℤ}
use caddy_esi.Prelude.Result.{Result, ok, err, ◌>>=◌, or_fail, wrap}
use caddy_esi.Prelude.Text.{Bytes, codes, equal}
use caddy_esi.Http.{header_get}
use caddy_esi.EsiTag.Args.{
  ResourceArgs, ExternalReq, Missing, validate, validate_with_key, is_post_allowed,
  prepare_forward_headers,
}
use caddy_esi.EsiTag.Registry.NoSql.{Urls, parse_no_sql_url, Connection, UrlError}
use caddy_esi.Backend.{
  BackendError, args_invalid, request_invalid, read_failed, client_failed, Answer, to_int, cut_to,
}

-- The parts of the request of the client that are copied as they are.
pub record Incoming : Type 0 where
  pub url_text : Bytes
  pub proto : Bytes
  pub proto_major : ℕ
  pub proto_minor : ℕ
  pub content_length : ℤ
  pub transfer_encoding : List Bytes
  pub close : Bool
  pub host : Bytes
  pub remote_addr : Bytes
  pub request_uri : Bytes

-- `esigrpc.ResourceArgs`, with `esigrpc.ResourceArgs_ExternalReq`.
pub record Message : Type 0 where
  pub method : Bytes
  pub incoming : Incoming
  pub header : List Bytes
  pub body : Bytes
  pub url : Bytes
  pub max_body_size : ℕ
  pub key : Bytes
  pub return_headers : List Bytes
  pub return_headers_all : Bool

-- `read_all` is what ioutil.ReadAll returns for the body of the request, and `get_header_body` is the call of
-- the service; `none` is an error.
pub record GrpcClient : Type 0 where
  pub incoming : Incoming
  pub read_all : Option Bytes
  pub get_header_body : Message → Option Bytes

module _ (c : GrpcClient) where
  abbrev pub body_of : ResourceArgs → ExternalReq → Result BackendError Bytes
  body_of args r = if is_post_allowed args.tag r then or_fail read_failed c.read_all else ok []

  abbrev pub message_for : ResourceArgs → ExternalReq → Bytes → Message
  message_for args r body = record {
    method = r.method;
    incoming = c.incoming;
    header = prepare_forward_headers args.tag r;
    body = body;
    url = args.url;
    max_body_size = args.tag.max_body_size;
    key = args.tag.key;
    return_headers = args.tag.return_headers;
    return_headers_all = args.tag.return_headers_all;
  }

  abbrev pub call_with : ResourceArgs → ExternalReq → Bytes → Answer
  call_with args r body =
      or_fail client_failed (c.get_header_body (message_for args r body))
      >>= (λ b. ok (none, cut_to (to_int args.tag.max_body_size) b))

  -- The request is there, as `Validate` has found.
  abbrev pub call_valid : ResourceArgs → Option ExternalReq → Answer
  call_valid args none = err request_invalid
  call_valid args (some r) = body_of args r >>= (λ body. call_with args r body)

  abbrev pub call_checked : ResourceArgs → Option Missing → Option Missing → Answer
  call_checked args (some e) m = err (args_invalid e)
  call_checked args none (some e) = err (args_invalid e)
  call_checked args none none = call_valid args args.external_req

  -- `grpcClient.DoRequest`.
  unfoldable pub call : ResourceArgs → Answer
  call args = call_checked args (validate args) (validate_with_key args)

pub data GrpcError : Type 0 where
  url_not_valid timeout_not_valid credentials_failed dial_failed : GrpcError

-- The options of grpc.Dial.
pub data DialOption : Type 0 where
  with_timeout : ℤ → DialOption
  with_block with_insecure : DialOption
  with_transport_credentials : (ca_file server_name : Bytes) → DialOption

pub record GrpcLibrary : Type 0 where
  pub urls : Urls
  pub parse_duration : Bytes → Option ℤ
  pub can_load : (ca_file server_name : Bytes) → Bool
  pub dial : Bytes → List DialOption → Bool

module _ (p : GrpcLibrary) where
  abbrev timeout_options : Bytes → Result GrpcError (List DialOption)
  timeout_options [] = ok []
  timeout_options (c ∷ text) =
      or_fail timeout_not_valid (p.parse_duration (c ∷ text))
      >>= (λ d. ok (with_timeout d ∷ with_block ∷ []))

  -- A file without a name stands for no file.
  abbrev credentials_for : Bytes → Bytes → Result GrpcError (List DialOption)
  credentials_for [] server_name = ok (with_transport_credentials [] server_name ∷ [])
  credentials_for (c ∷ ca_file) server_name =
      if p.can_load (c ∷ ca_file) server_name
      then ok (with_transport_credentials (c ∷ ca_file) server_name ∷ [])
      else err credentials_failed

  abbrev security_options : Connection → Result GrpcError (List DialOption)
  security_options conn =
      if equal (header_get conn.params (codes "tls")) (codes "1")
      then credentials_for (header_get conn.params (codes "ca_file"))
          (header_get conn.params (codes "server_host_override"))
      else ok (with_insecure ∷ [])

  abbrev dialled_to : Bytes → List DialOption → Result GrpcError (Bytes × List DialOption)
  dialled_to addr options = if p.dial addr options then ok (addr, options) else err dial_failed

  abbrev bad_url : UrlError → GrpcError
  bad_url e = url_not_valid

  -- `NewGRPCClient`: the address and the options of the connection.
  unfoldable pub new_grpc_client : Bytes → Result GrpcError (Bytes × List DialOption)
  new_grpc_client url = do
    conn ← wrap bad_url (parse_no_sql_url p.urls url)
    timeout ← timeout_options (header_get conn.params (codes "timeout"))
    security ← security_options conn
    dialled_to conn.address (timeout ++ security)
