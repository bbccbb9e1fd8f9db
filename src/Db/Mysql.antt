-- ===== src/Db/Mysql.antt =====
-- libs/modern_cppdb/include/backend/mysql_backend.hpp: how a connection is set up, for a client
-- library of version 5.5.7 or newer. The client library is not part of the repository: what its calls
-- answer is an argument.
pub mod Printed
mod Tests
use Prim.Native.String.{String}
use new_rojcpp.Prelude.{
  ℕ, zero, suc, if◌then◌else◌, ◌-◌, ◌^◌, List, [], ◌∷◌, ◌++◌, Option, none, some, Bool, true, false,
}
use new_rojcpp.Prelude.Int.{ℤ, pos, negsuc}
use new_rojcpp.Prelude.Text.{codes}
use new_rojcpp.Db.ConnectionString.{
  ParseError, Result, ok, thrown, ConnectionInfo, has, get, get_number, parse_connection_string,
}

-- The options of the client library that the source names.
pub data MysqlOption : Type 0 where
  default_auth init_command compress connect_timeout guess_connection named_pipe protocol
        read_timeout reconnect plugin_dir set_client_ip ssl_verify_server_cert
        use_embedded_connection use_remote_connection write_timeout read_default_file
        read_default_group report_data_truncation secure_auth set_charset_dir set_charset_name
        shared_memory_base_name :
      MysqlOption

-- What is passed for an option: a text, an `unsigned`, a `my_bool` or nothing.
pub data Argument : Type 0 where
  text : List ℕ → Argument
  unsigned : ℕ → Argument
  my_bool : ℕ → Argument
  null : Argument

-- `mysql_real_connect`'s arguments; an empty text is passed as a null pointer.
pub record Target : Type 0 where
  pub host : Option (List ℕ)
  pub user : Option (List ℕ)
  pub password : Option (List ℕ)
  pub database : Option (List ℕ)
  pub port : ℤ
  pub unix_socket : Option (List ℕ)

-- The client library: whether `mysql_init` gives a handle, `mysql_options` refuses an option and
-- `mysql_real_connect` connects, and how an `unsigned` becomes a `my_bool`.
pub record Client : Type 0 where
  pub creates : Bool
  pub refuses : MysqlOption → Argument → Bool
  pub connects : Target → Bool
  pub to_my_bool : ℕ → ℕ

-- What the constructor throws.
pub data ConnectError : Type 0 where
  not_created option_refused not_connected : ConnectError
  bad_property : ParseError → ConnectError

abbrev pub Setting : Type 0
Setting = MysqlOption × Argument

-- The options that are set so far, or what is thrown.
pub data Setup {ℓ} (A : Type ℓ) : Type ℓ where
  done : A → Setup A
  failed : ConnectError → Setup A

infixl 5 ◌>>=◌
abbrev pub ◌>>=◌ {ℓ κ} : {A : Type ℓ} {B : Type κ} → Setup A → (A → Setup B) → Setup B
done a >>= f = f a
failed e >>= f = failed e

abbrev pub or_null : List ℕ → Option (List ℕ)
or_null [] = none
or_null (c ∷ cs) = some (c ∷ cs)

-- `unsigned x = ci.get(...)`
abbrev to_unsigned : ℤ → ℕ
to_unsigned (pos n) = n
to_unsigned (negsuc n) = 2 ^ 32 - 1 - n

-- What a number that is not 0 makes the source pass.
pub data Passes : Type 0 where
  as_null as_unsigned as_my_bool : Passes

abbrev argument : Client → Passes → ℕ → Argument
argument c as_null n = null
argument c as_unsigned n = unsigned n
argument c as_my_bool n = my_bool (c.to_my_bool n)

-- One connection that is set up.
module _ (c : Client) (info : ConnectionInfo) where
  mysql_set_option : MysqlOption → Argument → List Setting → Setup (List Setting)
  mysql_set_option option arg settings =
      if c.refuses option arg then failed option_refused else done (settings ++ (option, arg) ∷ [])

  -- The blocks that set an option to a text that is not empty.
  text_option : String → MysqlOption → List Setting → Setup (List Setting)
  unfolding mysql_set_option
  text_option name option settings = elim (or_null (get info (codes name) [])) [
    | none ↦ done settings
    | some value ↦ mysql_set_option option (text value) settings
  ]

  set_number : Passes → MysqlOption → ℕ → List Setting → Setup (List Setting)
  unfolding mysql_set_option
  set_number passes option zero settings = done settings
  set_number passes option (suc n) settings =
      mysql_set_option option (argument c passes (suc n)) settings

  -- The blocks that set an option to a number that is there and is not 0.
  number_option : String → ℤ → Passes → MysqlOption → List Setting → Setup (List Setting)
  unfolding set_number
  number_option name default_value passes option settings = elim (has info (codes name)) [
    | false ↦ done settings
    | true ↦ elim (get_number info (codes name) default_value) [
      | thrown e ↦ failed (bad_property e)
      | ok n ↦ set_number passes option (to_unsigned n) settings
    ]
  ]

  get_port : Setup ℤ
  get_port = elim (get_number info (codes "port") (pos 3306)) [
    | thrown e ↦ failed (bad_property e)
    | ok n ↦ done n
  ]

  target : ℤ → Target
  target port = record {
    host = or_null (get info (codes "host") []);
    user = or_null (get info (codes "user") []);
    password = or_null (get info (codes "password") []);
    database = or_null (get info (codes "database") []);
    port = port;
    unix_socket = or_null (get info (codes "unix_socket") []);
  }

  -- The options in the order of the source.
  set_options : List Setting → Setup (List Setting)
  unfolding text_option number_option
  set_options settings =
      text_option "default_auth" default_auth settings
      >>= text_option "init_command" init_command
      >>= number_option "opt_compress" (pos 1) as_null compress
      >>= number_option "opt_connect_timeout" (pos 0) as_unsigned connect_timeout
      >>= number_option "opt_guess_connection" (pos 1) as_null guess_connection
      >>= number_option "opt_local_infile" (pos 0) as_unsigned connect_timeout
      >>= number_option "opt_named_pipe" (pos 1) as_null named_pipe
      >>= number_option "opt_protocol" (pos 0) as_unsigned protocol
      >>= number_option "opt_read_timeout" (pos 0) as_unsigned read_timeout
      >>= number_option "opt_reconnect" (pos 1) as_my_bool reconnect
      >>= text_option "plugin_dir" plugin_dir
      >>= text_option "set_client_ip" set_client_ip
      >>= number_option "opt_ssl_verify_server_cert" (pos 1) as_my_bool ssl_verify_server_cert
      >>= number_option "opt_use_embedded_connection" (pos 1) as_null use_embedded_connection
      >>= number_option "opt_use_remote_connection" (pos 1) as_null use_remote_connection
      >>= number_option "opt_write_timeout" (pos 0) as_unsigned write_timeout
      >>= text_option "read_default_file" read_default_file
      >>= text_option "read_default_group" read_default_group
      >>= number_option "report_data_truncation" (pos 1) as_my_bool report_data_truncation
      >>= number_option "secure_auth" (pos 1) as_my_bool secure_auth
      >>= text_option "set_charset_dir" set_charset_dir
      >>= text_option "set_charset_name" set_charset_name
      >>= text_option "shared_memory_base_name" shared_memory_base_name

  real_connect : ℤ → List Setting → Setup (List Setting × Target)
  unfolding target
  real_connect port settings =
      if c.connects (target port) then done (settings, target port) else failed not_connected

  -- The constructor of `connection`: the options that were set, and what it connected to.
  unfoldable pub connect : Setup (List Setting × Target)
  unfolding get_port set_options real_connect
  connect = elim (c.creates) [
    | false ↦ failed not_created
    | true ↦ get_port >>= λ port. set_options [] >>= real_connect port
  ]

-- The constructor that takes a connection string.
unfoldable pub connect_string : Client → ℕ → List ℕ → Option (Setup (List Setting × Target))
unfolding connect
connect_string c fuel str = elim (parse_connection_string fuel str) [
  | none ↦ none
  | some (thrown e) ↦ some (failed (bad_property e))
  | some (ok info) ↦ some (connect c info)
]
