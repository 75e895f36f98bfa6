-- ===== src/Probes/Kinds/Databases.antt =====
-- internal/helper/helper.go and, in pkg/probe, the probes for MySQL, MongoDB and the file system, and
-- the Exec of those for Redis, SMTP and AMQP. The client libraries answer with an error, if any, at each call.
pub mod Query
use mittnite.Prelude.{
  String, ◌<>◌, Bool, true, false, not, ◌&&◌, Option, none, some, List, [], ◌∷◌, ◌++◌, Result, ok,
  err, ◌==◌, string_eq, if◌then◌else◌,
}
use mittnite.Config.{Credentials, Host, MySql, MongoDb}
use mittnite.Config.Text.{parse_bool}
use mittnite.Probes.{Exec, alive, path_error, fails}
use mittnite.Probes.Kinds.{
  resolve_env, set_default_string_if_empty, host_port, resolve_host, resolve_credentials, AmqpProbe,
}

-- The connection that the DSN of the driver describes.
pub record MySqlProbe : Type 0 where
  pub user : String
  pub passwd : String
  pub net : String
  pub addr : String
  pub db_name : String
  pub allow_native_passwords : Bool

true_only : Option Bool → Bool
true_only none = false
true_only (some b) = b

-- A URL; the query is what url.Values held when it was encoded.
pub record MongoUrl : Type 0 where
  pub scheme : String
  pub user : Option (String × String)
  pub host : String
  pub path : String
  pub query : List (String × String)

-- There is no URL where the given one could not be parsed.
pub record MongoDbProbe : Type 0 where
  pub url : Option MongoUrl

-- AddValueToURLValuesIfNotEmpty
pub add_value_to_url_values_if_not_empty :
    String → String → List (String × String) → List (String × String)
add_value_to_url_values_if_not_empty key value q = if value == "" then q else q ++ (key, value) ∷ []

module _ (getenv : String → String) where
  -- NewMySQLProbe
  pub new_my_sql_probe : MySql → MySql × MySqlProbe
  unfolding resolve_env set_default_string_if_empty resolve_host resolve_credentials true_only
  new_my_sql_probe c =
      let c' : MySql = record {
        credentials = resolve_credentials getenv c.credentials;
        host = resolve_host getenv c.host "3306";
        allow_native_password =
            set_default_string_if_empty (resolve_env getenv c.allow_native_password) "false";
        database = resolve_env getenv c.database;
      } in
      (
        c',
        record {
          user = c'.user;
          passwd = c'.password;
          net = "tcp";
          addr = host_port c'.host;
          db_name = c'.database;
          allow_native_passwords = true_only (parse_bool c'.allow_native_password);
        },
      )

  resolve_mongo_db : MongoDb → MongoDb
  unfolding resolve_env set_default_string_if_empty resolve_host resolve_credentials
  resolve_mongo_db c = record c {
    credentials = resolve_credentials getenv c.credentials;
    host = resolve_host getenv c.host "27017";
    database = resolve_env getenv c.database;
    replica_set_name = resolve_env getenv c.replica_set_name;
    authentication_database = resolve_env getenv c.authentication_database;
    authentication_mechanism = resolve_env getenv c.authentication_mechanism;
    gssapi_service_name = resolve_env getenv c.gssapi_service_name;
  }

  mongo_query : MongoDb → List (String × String)
  unfolding add_value_to_url_values_if_not_empty
  mongo_query c = add_value_to_url_values_if_not_empty "authMechanism" c.authentication_mechanism (
      add_value_to_url_values_if_not_empty "gssapiServiceName" c.gssapi_service_name
        (add_value_to_url_values_if_not_empty "replicaSet" c.replica_set_name []))

  -- The user is set after the query was encoded; authSource only goes to the values, which are not
  -- encoded again.
  mongo_user : MongoDb → Option (String × String)
  mongo_user c =
      if not (c.user == "") && not (c.password == "") then some (c.user, c.password) else none

  mongo_url : MongoDb → MongoUrl
  unfolding mongo_query mongo_user
  mongo_url c = record {
    scheme = "mongodb";
    user = mongo_user c;
    host = host_port c.host;
    path = c.database;
    query = mongo_query c;
  }

  given_url : MongoDb → Result String MongoUrl → MongoDb × MongoDbProbe × Option String
  given_url c (ok u) = (c, record { url = some u }, none)
  given_url c (err e) = (c, record { url = none }, some e)

  -- NewMongoDBProbe; `parse_url` is url.Parse.
  pub new_mongo_db_probe :
      (String → Result String MongoUrl) → MongoDb → MongoDb × MongoDbProbe × Option String
  unfolding given_url resolve_mongo_db mongo_url resolve_env
  new_mongo_db_probe parse_url c =
      let c' = record c { url = resolve_env getenv c.url } in
      if c'.url == ""
      then (resolve_mongo_db c', record { url = some (mongo_url (resolve_mongo_db c')) }, none)
      else given_url c' (parse_url c'.url)

-- Exec of a probe that makes calls of a client library in a row.
exec_calls : List (Option String) → Exec
exec_calls [] = alive
exec_calls (none ∷ calls) = exec_calls calls
exec_calls (some e ∷ calls) = fails e

-- mySQLProbe.Exec: Open and Query
pub exec_my_sql : Option String → Option String → Exec
unfolding exec_calls
exec_my_sql open_fails query_fails = exec_calls (open_fails ∷ query_fails ∷ [])

-- mongoDBProbe.Exec: NewClient, Connect and Ping
pub exec_mongo_db : Option String → Option String → Option String → Exec
unfolding exec_calls
exec_mongo_db client_fails connect_fails ping_fails =
    exec_calls (client_fails ∷ connect_fails ∷ ping_fails ∷ [])

read_dir_result : Option String → Exec
read_dir_result none = alive
read_dir_result (some e) = path_error

-- filesystemProbe.Exec: an error of os.ReadDir is an *os.PathError.
pub exec_filesystem : (String → Option String) → String → Exec
unfolding read_dir_result
exec_filesystem read_dir path = read_dir_result (read_dir path)

-- redisProbe.Exec: Ping
pub exec_redis : Option String → Exec
unfolding exec_calls
exec_redis ping_fails = exec_calls (ping_fails ∷ [])

-- smtpProbe.Exec: Dial, Noop and Quit
pub exec_smtp : Option String → Option String → Option String → Exec
unfolding exec_calls
exec_smtp dial_fails noop_fails quit_fails = exec_calls (dial_fails ∷ noop_fails ∷ quit_fails ∷ [])

pub record AmqpUrl : Type 0 where
  pub host : String
  pub path : String
  pub user : Option (String × String)

-- The URL that amqpProbe.Exec dials.
amqp_url : AmqpProbe → AmqpUrl
amqp_url a = record {
  host = a.hostname <> ":" <> a.port;
  path = a.virtual_host;
  user = if not (a.user == "") && not (a.password == "") then some (a.user, a.password) else none;
}

-- amqpProbe.Exec; `describe` is the message around an error of Dial.
pub exec_amqp : (AmqpUrl → Option String) → (AmqpUrl → String → String) → AmqpProbe → Exec
unfolding exec_calls amqp_url
exec_amqp dial describe a =
    let u = amqp_url a in elim (dial u) [ none ↦ alive | some e ↦ fails (describe u e) ]
