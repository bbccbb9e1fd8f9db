-- ===== src/Db/Mysql/Printed.antt =====
-- From a connection string to the call that connects.
use new_rojcpp.Prelude.{
  ℕ, ◌≡◌, ◌<◌, refl, List, [], ◌∷◌, some, none, true, arith, length, bytes_beq,
}
use new_rojcpp.Prelude.Cut.{Lacks}
use new_rojcpp.Prelude.Dict.{IsMap, lookup, bytes_eq}
use new_rojcpp.Prelude.Int.{pos}
use new_rojcpp.Prelude.Text.{codes}
use new_rojcpp.Db.ConnectionString.{trim, skip_blank, Properties, has, get, get_number}
use new_rojcpp.Db.ConnectionString.RoundTrip.{
  AreNamed, print_connection, parse_connection_string-print,
}
use new_rojcpp.Db.Mysql.{Client, Target, done, or_null, connect, connect_string}

-- The four texts of an account.
abbrev pub account : List ℕ → List ℕ → List ℕ → List ℕ → Properties
account host user password database =
    (codes "host", host)
    ∷ (codes "user", user)
    ∷ (codes "password", password)
    ∷ (codes "database", database)
    ∷ []

abbrev pub account_target : List ℕ → List ℕ → List ℕ → List ℕ → Target
account_target host user password database = record {
  host = or_null host;
  user = or_null user;
  password = or_null password;
  database = or_null database;
  port = pos 3306;
  unix_socket = none;
}

connect-account :
    (c : Client) (cs driver host user password database : List ℕ)
    → c.creates ≡ true
    → c.connects (account_target host user password database) ≡ true
    → connect c record {
      connection_string = cs;
      driver = driver;
      properties = account host user password database;
    }
      ≡ done ([], account_target host user password database)
unfolding connect has get get_number lookup bytes_beq
connect-account c cs driver host user password database h k = rw (h, k) refl

account-AreNamed :
    (host user password database : List ℕ) → AreNamed (account host user password database)
unfolding trim skip_blank
account-AreNamed host user password database = ground arith

account-IsMap : (host user password database : List ℕ) → IsMap (account host user password database)
unfolding lookup bytes_beq
account-IsMap host user password database = (refl, (refl, (refl, (refl, tt))))

-- A connection string with a driver without ':' and the four texts of an account in quotes, read on
-- fuel above its length, makes the client library connect with exactly these texts, whatever bytes
-- they are made of, an empty one as a null pointer, on port 3306 and with no option set, if the
-- library gives a handle and connects.
pub connect_string-print :
    (c : Client) (fuel : ℕ) (driver host user password database : List ℕ)
    → Lacks 58 driver
    → length (print_connection driver (account host user password database)) < fuel
    → c.creates ≡ true
    → c.connects (account_target host user password database) ≡ true
    → connect_string c fuel (print_connection driver (account host user password database))
      ≡ some (done ([], account_target host user password database))
unfolding connect_string
connect_string-print c fuel driver host user password database hd f h k =
    let m = account host user password database in
    rw (
      connect_string,
      parse_connection_string-print fuel driver m hd (account-AreNamed host user password database)
          (account-IsMap host user password database) f,
      connect-account c (print_connection driver m) driver host user password database h k,
    )
