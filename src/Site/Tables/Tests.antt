-- ===== src/Site/Tables/Tests.antt =====
-- Runs of the queries of the application.
use new_rojcpp.Prelude.{◌≡◌, refl, [], ◌∷◌}
use new_rojcpp.Prelude.Text.{codes}
use new_rojcpp.Db.Query.{
  run, push_all, push, bind, assign, set_param, new_query, get_query, each_seq, with_rest,
  index_seq, get_mark_size,
}
use new_rojcpp.Site.Tables.{
  Database, raised, other_error, no_row, exec_row, find_by_name_and_passwd,
}

-- A database that finds a user for one text only.
abbrev nobody : Database
nobody text = no_row

-- The password takes the place of the mark as it is.
injection :
    find_by_name_and_passwd nobody (codes "root") (codes "' or '1'='1")
    ≡ raised
        (codes
            "select id,nickname,email from users where username = 'root' and password = '' or '1'='1';"
          ∷ [])
        other_error
unfolding find_by_name_and_passwd exec_row run push_all push bind assign set_param new_query
    get_query each_seq with_rest index_seq get_mark_size
injection = refl
