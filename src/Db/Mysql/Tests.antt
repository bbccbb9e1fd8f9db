-- ===== src/Db/Mysql/Tests.antt =====
-- Runs and instances of the theorems on the set-up of a connection.
use new_rojcpp.Prelude.{◌≡◌, refl, [], ◌∷◌, true, false, bytes_beq}
use new_rojcpp.Prelude.Decimal.{digits_value}
use new_rojcpp.Prelude.Dict.{lookup}
use new_rojcpp.Prelude.Text.{codes}
use new_rojcpp.Db.ConnectionString.{has, get, get_number, read_int}
use new_rojcpp.Db.Mysql.{Client, done, connect, connect_timeout, unsigned}
use new_rojcpp.Db.Mysql.Printed.{account_target}

-- A client library that takes everything.
abbrev willing : Client
willing = record {
  creates = true;
  refuses = λ option arg. false;
  connects = λ t. true;
  to_my_bool = λ n. n;
}

-- The number of opt_local_infile is set as the connect timeout.
local_infile :
    connect willing record {
      connection_string = [];
      driver = codes "mysql";
      properties = (codes "opt_local_infile", codes "1") ∷ [];
    }
    ≡ done ((connect_timeout, unsigned 1) ∷ [], account_target [] [] [] [])
unfolding connect has get get_number read_int digits_value lookup bytes_beq
local_infile = refl
