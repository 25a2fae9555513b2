-- ===== src/Middleware/Tests.antt =====
-- A request through the middleware.
use caddy_esi.Prelude.{ℕ, ◌≡◌, refl, false, List, [], ◌∷◌, Option, none, length, ◌+◌}
use caddy_esi.Prelude.Text.{Bytes, codes}
use caddy_esi.Http.{Request}
use caddy_esi.Helper.RealIp.{Net}
use caddy_esi.EsiTag.DataTags.{DataTag}
use caddy_esi.EsiTag.Entity.{Entity, Parsers, zero_config}
use caddy_esi.EsiTag.Query.{Moment, content}
use caddy_esi.EsiTag.Fanout.{
  Task, Group, returned, start, answers, sends, Reach, here, next, tag_for,
}
use caddy_esi.EsiTag.Tests.Ascii.{ascii}
use caddy_esi.EsiTag.Tests.Sorting.{insertion_sort}
use caddy_esi.Response.Buffered as Buffered
use caddy_esi.Response.Memory.{Client, client, client-Observed, silent, strokes}
use caddy_esi.Config.{Reference, PathConfig, new_path_config, with_defaults}
use caddy_esi.Middleware.{Next, Reply, send, send_code, serve_buffered, act, act_all}
use caddy_esi.Middleware.Heads.{filled}

abbrev pub detect : Bytes → Bytes
detect p = codes "text/html"

abbrev pub page : Bytes
page = codes "a<esi:include src='http://x'/>b"

abbrev pub handler : Next
handler = record { actions = send_code 200 ∷ send page ∷ []; code = 200; failed = false }

abbrev no_size : Option ℕ
no_size = none

abbrev pub parsers : Parsers
parsers = record {
  unicode = ascii;
  files = record { clean = λ s. s; read_file = λ s. none };
  parse_bool = λ s. none;
  parse_duration = λ s. none;
  parse_bytes = λ s. no_size;
  canonical_header_key = λ s. s;
}

abbrev pub handlers : List (Bytes × Reference)
handlers = (codes "http", 1) ∷ []

abbrev pub config : PathConfig
config = record new_path_config { scope = codes "/"; cmd_header_name = codes "X-Cmd" }

abbrev pub entity : Entity Reference
entity = record {
  raw_tag = codes "include src='http://x'";
  data_tag = record { bytes = []; start = 1; end = 30 };
  on_error = [];
  config = zero_config;
  resources = record { index = 0; url = codes "http://x"; handler = 1 } ∷ [];
  conditioned = false;
}

abbrev pub replied : ℕ → Moment
replied i = record { asked_at = 0; reply = λ a. content (codes "HELLO"); failed_at = 1 }

abbrev task : Task Reference
task = record {
  entity = with_defaults config entity;
  asked =
      record {
        index = 0;
        url = codes "http://x";
        breaker = record { cb_failures = 0; cb_last_failure_time = 0 };
      }
      ∷ [];
  moments = replied;
  duration = [];
  error_text = [];
  room = [];
}

abbrev pub unchanged : Bytes → Bytes
unchanged s = s

abbrev last : Group Reference
last = record {
  goroutines = (task, returned) ∷ [];
  received = tag_for unchanged task ∷ [];
  is_done = false;
}

abbrev run : Reach unchanged (start (task ∷ [])) last
run = next (next here (answers [] [] task [] false)) (sends [] [] task [] false)

abbrev pub arrived : List (Entity Reference) → List DataTag
arrived es = last.received

abbrev after : PathConfig × Reply Client
after =
    serve_buffered client strokes detect insertion_sort parsers handlers (7 ∷ []) arrived config 5
      handler silent

written : (filled client client-Observed strokes detect insertion_sort handler silent).buf ≡ page
unfolding act_all act Buffered.write
written = refl

abbrev pub net : Net
net = record {
  split_host_port = λ a. none;
  parse_ip = λ a. none;
  runes = λ s. s;
  encode = λ c. c ∷ [];
  is_kept = λ c. false;
}

abbrev pub hash : Bytes → ℕ → ℕ
hash s n = length s + n

abbrev pub request : Request
request = record {
  method = codes "GET";
  header = (codes "X-Cmd", codes "purge" ∷ []) ∷ [];
  cookies = [];
  form_value = λ k. [];
  tls = false;
  host = codes "shop";
  proto = [];
  remote_addr = [];
  url = record {
    scheme = [];
    host = codes "shop";
    path = codes "/cart";
    raw_path = [];
    raw_query = [];
    fragment = [];
    request_uri = [];
    text = [];
  };
}
