-- ===== src/EsiTag/Tests/Connections.antt =====
-- The URL redis:// with a parameter.
use caddy_esi.Prelude.{◌≡◌, refl, [], ◌∷◌, ◌++◌, none, some}
use caddy_esi.Prelude.Result.{ok}
use caddy_esi.Prelude.Text.{codes, equal}
use caddy_esi.Http.{Header, header_get, header_values, header_put}
use caddy_esi.EsiTag.Registry.NoSql.{
  Urls, other_failure, Connection, parse_no_sql_url, host_and_port, set_defaults,
  default_pool_connection_parameters,
}
use caddy_esi.EsiTag.Registry.NoSql.Defaults.{Connects, parse_no_sql_url-Connects}

abbrev given : Header
given = (codes "db", codes "3" ∷ []) ∷ (codes "lazy", [] ∷ []) ∷ []

abbrev urls : Urls
urls = record {
  parse_url = λ s. some (record {
    scheme = codes "redis";
    host = [];
    password = none;
    raw_query = codes "db=3&lazy=";
  });
  split_host_port = λ h. other_failure;
  join_host_port = λ h p. h ++ codes ":" ++ p;
  parse_query = λ q. some given;
}

abbrev connection : Connection
connection = record {
  address = codes "localhost:6379";
  password = [];
  params =
      header_put (set_defaults default_pool_connection_parameters given) (codes "scheme")
        (codes "redis" ∷ []);
}

connected : parse_no_sql_url urls (codes "redis://?db=3&lazy=") ≡ ok connection
unfolding parse_no_sql_url host_and_port equal
connected = refl

lazy_default : header_get connection.params (codes "lazy") ≡ codes "0"
unfolding set_defaults header_put header_values equal
lazy_default = refl

db_given : header_get connection.params (codes "db") ≡ codes "3"
unfolding set_defaults header_put header_values equal
db_given = refl

parse_no_sql_url-Connects_example : Connects urls (codes "redis://?db=3&lazy=") connection
parse_no_sql_url-Connects_example =
    parse_no_sql_url-Connects urls (codes "redis://?db=3&lazy=") connection connected
