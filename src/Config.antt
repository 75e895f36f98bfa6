-- ===== src/Config.antt =====
-- internal/config/types.go: the configuration that the HCL files describe.
pub mod Text
pub mod Load
use mittnite.Prelude.{String, Bool, false, Option, none, some, List, ℤ, pos, negsuc, ltb_ℤ}
use mittnite.Prelude.{if◌then◌else◌}

pub record Credentials : Type 0 where
  pub user : String
  pub password : String

pub record Host : Type 0 where
  pub hostname : String
  pub port : String

pub record MySql : Type 0 where
  pub credentials : Credentials
  pub open credentials use *
  pub host : Host
  pub open host use *
  pub allow_native_password : String
  pub database : String

pub record Amqp : Type 0 where
  pub credentials : Credentials
  pub open credentials use *
  pub host : Host
  pub open host use *
  pub virtual_host : String

pub record MongoDb : Type 0 where
  pub credentials : Credentials
  pub open credentials use *
  pub host : Host
  pub open host use *
  pub database : String
  pub replica_set_name : String
  pub authentication_database : String
  pub authentication_mechanism : String
  pub gssapi_service_name : String
  pub url : String

pub record Redis : Type 0 where
  pub host : Host
  pub open host use *
  pub password : String

pub record Smtp : Type 0 where
  pub host : Host
  pub open host use *

pub record HttpGet : Type 0 where
  pub scheme : String
  pub host : Host
  pub open host use *
  pub path : String
  pub timeout : String

pub record Probe : Type 0 where
  pub name : String
  pub wait : Bool
  pub filesystem : String
  pub my_sql : Option MySql
  pub redis : Option Redis
  pub mongo_db : Option MongoDb
  pub amqp : Option Amqp
  pub http : Option HttpGet
  pub smtp : Option Smtp

pub record WatchCommand : Type 0 where
  pub command : String
  pub args : List String
  pub env : List String

pub record Watch : Type 0 where
  pub filename : String
  pub signal : ℤ
  pub restart : Bool
  pub pre_command : Option WatchCommand
  pub post_command : Option WatchCommand

pub record Listener : Type 0 where
  pub address : String
  pub listen_protocol : String
  pub forward : String
  pub forward_protocol : String
  pub protocol : String

-- A `*bool` is an `Option Bool`: `none` is the unset option.
pub record BaseJobConfig : Type 0 where
  pub name : String
  pub command : String
  pub args : List String
  pub env : List String
  pub can_fail : Bool
  pub controllable : Bool
  pub working_directory : String
  pub stdout : String
  pub stderr : String
  pub enable_timestamps : Option Bool
  pub timestamp_format : String
  pub custom_timestamp_format : String
  pub enable_name_prefix : Option Bool

abbrev pub is_set_true : Option Bool → Bool
is_set_true none = false
is_set_true (some b) = b

unfoldable pub timestamps_enabled : BaseJobConfig → Bool
timestamps_enabled c = is_set_true c.enable_timestamps

unfoldable pub name_prefix_enabled : BaseJobConfig → Bool
name_prefix_enabled c = is_set_true c.enable_name_prefix

pub record Laziness : Type 0 where
  pub spin_up_timeout : String
  pub cool_down_timeout : String

pub record JobConfig : Type 0 where
  pub base : BaseJobConfig
  pub open base use *
  pub watches : List Watch
  pub max_attempts_deprecated : Option ℤ
  pub max_attempts : Option ℤ
  pub one_time : Bool
  pub laziness : Option Laziness
  pub listeners : List Listener

normalise_attempts : Option ℤ → ℤ
normalise_attempts none = pos 3
normalise_attempts (some n) = if ltb_ℤ n (pos 0) then negsuc 0 else n

unfoldable pub get_max_attempts : JobConfig → ℤ
unfolding normalise_attempts
get_max_attempts jc = normalise_attempts jc.max_attempts

pub record BootJobConfig : Type 0 where
  pub base : BaseJobConfig
  pub open base use *
  pub timeout : String

-- The parameters are handed to the template engine as they are; `P` is their type.
pub record File (P : Type 0) : Type 0 where
  pub target : String
  pub template : String
  pub parameters : List (String × P)
  pub overwrite : Option Bool

pub record Ignition (P : Type 0) : Type 0 where
  pub probes : List Probe
  pub files : List (File P)
  pub jobs : List JobConfig
  pub boot_jobs : List BootJobConfig
