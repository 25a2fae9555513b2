-- ===== src/Backend/Tests.antt =====
-- Backends at concrete requests.
use caddy_esi.Prelude.{
  ◌≡◌, ◌^◌, refl, true, false, [], ◌∷◌, none, some, if◌then◌else◌, ◌==◌, length,
}
use caddy_esi.Prelude.Int.{pos}
use caddy_esi.Prelude.Result.{ok, err}
use caddy_esi.Prelude.Text.{Bytes, codes, equal}
use caddy_esi.Http.{header_values, header_put}
use caddy_esi.EsiTag.Entity.{zero_config}
use caddy_esi.EsiTag.Args.{ResourceArgs, ExternalReq, forward_all}
use caddy_esi.EsiTag.Args.Returned.{prepare_return_headers}
use caddy_esi.EsiTag.Registry.NoSql.{
  Urls, other_failure, parse_no_sql_url, host_and_port, set_defaults,
}
use caddy_esi.Backend.{context_done, key_not_found, url_too_short, process_error, to_int}
use caddy_esi.Backend.Keyed.{StoreReply, absent, value, do_request}
use caddy_esi.Backend.Http.{HttpClient, failed_over, responded, fetch, set_pairs}
use caddy_esi.Backend.Redis.{
  EsiRedis, RedisLibrary, Pinged, ping_nil, pong, new_redis, not_pong, dial, open_with, auth,
  select,
}
use caddy_esi.Backend.Shell.{Processes, ran, execute_request, shell_command, index_white}
use caddy_esi.Backend.Race.{
  race, offering, selecting, returned, Race, Turns, asks, gives_up, runs_out, none_yet, then_turn,
}
use caddy_esi.Backend.Race.Ends.{Ends, do_request_cancel-Ends}
use caddy_esi.Backend.Replies.{Replied, http, by_http}
use caddy_esi.Backend.Replies.All.{do_request-Replied}

abbrev unchanged : Bytes → Bytes
unchanged s = s

abbrev request : ExternalReq
request = record {
  method = codes "GET";
  has_body = false;
  header = (codes "Cookie", codes "a" ∷ codes "b" ∷ []) ∷ [];
}

abbrev args : ResourceArgs
args = record {
  external_req = some request;
  url = codes "http://x";
  tag = record zero_config {
    key = codes "k";
    timeout = pos 7;
    max_body_size = 3;
    forward_headers_all = true;
  };
}

abbrev client : HttpClient
client = record {
  accepts = λ u. true;
  can_cancel = true;
  send = λ u h t. responded (record {
    status = if length h == 1 then 200 else 500;
    header = [];
    body = codes "HELLO";
    breaks = false;
  });
}

do_request-Replied_example : Replied (http unchanged client) args (codes "HEL")
unfolding fetch forward_all header_put prepare_return_headers to_int equal
do_request-Replied_example =
    do_request-Replied (http unchanged client) args none (codes "HEL")
      (by_http unchanged client args)

-- `Header.Set` keeps the last value of a header that is passed on.
set_pairs_last :
    set_pairs unchanged (codes "Cookie" ∷ codes "a" ∷ codes "Cookie" ∷ codes "b" ∷ []) []
    ≡ (codes "Cookie", codes "b" ∷ []) ∷ []
unfolding header_put equal
set_pairs_last = refl

fetch_cancelled :
    fetch unchanged (record client { send = λ u h t. failed_over }) args
    ≡ record { answer = err context_done; cancels = true }
unfolding fetch forward_all header_put equal
fetch_cancelled = refl

abbrev store : Bytes → StoreReply
store key = if equal key (codes "k") then value (codes "HELLO") else absent

get_cut : do_request store args ≡ ok (none, codes "HEL")
unfolding to_int equal
get_cut = refl

get_missing : do_request (λ k. absent) args ≡ err key_not_found
get_missing = refl

-- From 2^63 on the limit of a body is negative, and not applied.
get_unlimited :
    do_request store (record args { tag = record args.tag { max_body_size = 2 ^ 63 } })
    ≡ ok (none, codes "HELLO")
unfolding to_int equal
get_unlimited = refl

-- The context is done before the answer is taken; the goroutine keeps its answer.
abbrev left : Race
left = record {
  worker = offering (do_request store args);
  waiter = returned (err context_done);
  is_done = true;
}

abandon : Turns store args (race false) left
unfolding to_int equal
abandon =
    then_turn
      (then_turn (then_turn none_yet (asks selecting false))
        (runs_out (offering (do_request store args)) selecting))
      (gives_up (offering (do_request store args)))

do_request_cancel-Ends_example : Ends store args (err context_done) left
do_request_cancel-Ends_example =
    do_request_cancel-Ends store args false left (err context_done) refl abandon refl

abbrev processes : Processes
processes = record {
  marshal = λ a. some (codes "{}");
  run = λ name arg t j. if equal arg (codes "-f") then ran name [] else ran [] arg;
}

command_with_argument :
    shell_command (codes "sh://php cart.php -v") ≡ (codes "php", codes "cart.php -v")
unfolding shell_command index_white
command_with_argument = refl

-- White space at the beginning is no end of the name.
command_with_space : shell_command (codes "sh:// php") ≡ (codes " php", [])
unfolding shell_command index_white
command_with_space = refl

execute_cut :
    execute_request processes (record args { url = codes "sh://echo -f" }) ≡ ok (none, codes "ech")
unfolding execute_request shell_command index_white to_int equal
execute_cut = refl

execute_fails :
    execute_request processes (record args { url = codes "sh://echo -g" })
    ≡ err (process_error (codes "-g"))
unfolding execute_request shell_command index_white equal
execute_fails = refl

execute_short : execute_request processes (record args { url = codes "sh://" }) ≡ err url_too_short
unfolding execute_request
execute_short = refl

abbrev urls : Urls
urls = record {
  parse_url = λ u. some (record {
    scheme = codes "redis";
    host = codes "db1";
    password = some (codes "pw");
    raw_query = [];
  });
  split_host_port = λ h. other_failure;
  join_host_port = λ h p. h;
  parse_query = λ q. some ((codes "cancellable", codes "1" ∷ []) ∷ []);
}

abbrev redis_at : Pinged → RedisLibrary
redis_at p = record {
  urls = urls;
  atoi = λ s. some (pos (length s));
  parse_duration = λ s. some (pos 240);
  ping = λ r. p;
}

abbrev connected : EsiRedis
connected = record {
  is_cancellable = true;
  url = codes "redis://pw@db1";
  address = codes "db1";
  password = codes "pw";
  db = codes "0";
  max_active = pos 2;
  max_idle = pos 3;
  idle_timeout = pos 240;
}

redis_connects : new_redis (redis_at (pong (codes "PONG"))) (codes "redis://pw@db1") ≡ ok connected
unfolding new_redis parse_no_sql_url host_and_port set_defaults header_values header_put equal
redis_connects = refl

redis_silent : new_redis (redis_at ping_nil) (codes "redis://pw@db1") ≡ err not_pong
unfolding new_redis parse_no_sql_url host_and_port set_defaults header_values header_put equal
redis_silent = refl

redis_dials :
    dial (λ a. true) (λ before c. true) connected
    ≡ open_with (select (codes "0") ∷ auth (codes "pw") ∷ [])
unfolding dial
redis_dials = refl
