-- ===== src/Backend/Keyed.antt =====
-- esitag/backend/redis.go and memcache.go: what their handlers have in common, a request of the value of a key.
-- The two files have the same text but for the client; the function of a client is a parameter.
use caddy_esi.Prelude.{Option, none, some}
use caddy_esi.Prelude.Result.{ok, err}
use caddy_esi.Prelude.Text.{Bytes}
use caddy_esi.EsiTag.Args.{ResourceArgs, Missing, validate_with_key}
use caddy_esi.Backend.{args_invalid, key_not_found, get_failed, Answer, to_int, cut_to}

-- What the client of a store returns: redis.ErrNil or memcache.ErrCacheMiss, another error, or a value.
pub data StoreReply : Type 0 where
  absent get_error : StoreReply
  value : Bytes → StoreReply

-- Behind the call of the client.
abbrev pub from_store : ResourceArgs → StoreReply → Answer
from_store args absent = err key_not_found
from_store args get_error = err get_failed
from_store args (value v) = ok (none, cut_to (to_int args.tag.max_body_size) v)

abbrev pub if_valid : Option Missing → Answer → Answer
if_valid (some e) a = err (args_invalid e)
if_valid none a = a

-- `doRequest`.
abbrev pub do_request : (Bytes → StoreReply) → ResourceArgs → Answer
do_request get args = if_valid (validate_with_key args) (from_store args (get args.tag.key))
