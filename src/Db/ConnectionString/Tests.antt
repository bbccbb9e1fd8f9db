-- ===== src/Db/ConnectionString/Tests.antt =====
-- Runs and instances of the theorems on the connection strings.
use new_rojcpp.Prelude.{◌≡◌, refl, [], ◌∷◌, ◌++◌, none, some, arith, bytes_beq}
use new_rojcpp.Prelude.Cut.{cut}
use new_rojcpp.Prelude.Decimal.{digits_value}
use new_rojcpp.Prelude.Dict.{lookup, insert}
use new_rojcpp.Prelude.Int.{negsuc}
use new_rojcpp.Prelude.Text.{codes}
use new_rojcpp.Db.ConnectionString.{
  Result, Properties, ConnectionInfo, ok, duplicate_key, thrown, skip_blank, trim, quoted, unquoted,
  read_value, skip_separator, read_properties, parse_connection_string, read_int,
}
use new_rojcpp.Db.ConnectionString.Quoting.{escape}
use new_rojcpp.Db.ConnectionString.Termination.{
  parse_connection_string_returns, parse_connection_string_spins,
}
use new_rojcpp.Db.ConnectionString.RoundTrip.{
  AreNamed, print_connection, parse_connection_string-print,
}

-- The example of the source's comment, with its blanks and its doubled quote.
reads :
    parse_connection_string 80
      (codes "mysql:username= root;password = 'asdf''5764dg';database=test")
    ≡ some (
        ok record {
          connection_string = codes "mysql:username= root;password = 'asdf''5764dg';database=test";
          driver = codes "mysql";
          properties =
              (codes "username", codes "root")
              ∷ (codes "password", codes "asdf'5764dg")
              ∷ (codes "database", codes "test")
              ∷ [];
        })
unfolding parse_connection_string read_properties skip_separator read_value unquoted quoted trim
    skip_blank cut lookup insert bytes_beq
reads = refl

refuses_second : parse_connection_string 20 (codes "d:a=1;a=2") ≡ some (thrown duplicate_key)
unfolding parse_connection_string read_properties skip_separator read_value unquoted quoted trim
    skip_blank cut lookup insert bytes_beq
refuses_second = refl

reads_number : read_int (codes " -12") ≡ some (negsuc 11)
unfolding read_int digits_value
reads_number = refl

refuses_number : read_int (codes "12 ") ≡ none
unfolding read_int digits_value
refuses_number = refl

abbrev two : Properties
two = (codes "user", codes "root") ∷ (codes "password", codes "a'b;c=d") ∷ []

two-AreNamed : AreNamed two
unfolding trim skip_blank
two-AreNamed = ground arith

parse_connection_string-print_example :
    parse_connection_string 60 (print_connection (codes "mysql") two)
    ≡ some (
        ok record {
          connection_string = print_connection (codes "mysql") two;
          driver = codes "mysql";
          properties = two;
        })
unfolding lookup bytes_beq escape
parse_connection_string-print_example =
    parse_connection_string-print 60 (codes "mysql") two (ground arith) two-AreNamed
      (refl, (refl, tt)) (omega arith)

parse_connection_string_returns_example :
    (r : Result ConnectionInfo) × (parse_connection_string 10 (codes "d:a=1;b") ≡ some r)
parse_connection_string_returns_example =
    parse_connection_string_returns 10 (codes "d:a=1;b") (ground arith) (omega arith)

parse_connection_string_spins_example :
    parse_connection_string 1000 (codes "d:a='" ++ (escape (codes "x") ++ codes "',b=2")) ≡ none
parse_connection_string_spins_example =
    parse_connection_string_spins 1000 44 (codes "d") (codes "a") (codes "x") (codes "b=2")
      (ground arith) (ground arith) refl (ground arith) (ground arith)
