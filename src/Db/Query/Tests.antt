-- ===== src/Db/Query/Tests.antt =====
-- Runs and instances of the theorems on the queries.
use new_rojcpp.Prelude.{◌≡◌, refl, [], ◌∷◌}
use new_rojcpp.Prelude.Text.{codes}
use new_rojcpp.Db.Query.{
  ok, ◌>>=◌, index_seq, get_mark_size, new_query, set_param, assign, bind, push, put_fenc, fence,
  each_seq, with_rest, get_query, push_all, run,
}
use new_rojcpp.Db.Query.Run.{outcome, run-outcome}

-- A parameter is not quoted: it can end the text it stands in.
takes_any :
    run (codes "select ? where n='?'") (codes "id" ∷ codes "x' or '1'='1" ∷ [])
    ≡ ok (codes "select id where n='x' or '1'='1'")
unfolding run push_all push bind assign set_param new_query get_query each_seq with_rest index_seq
    get_mark_size
takes_any = refl

-- A parameter behind a fence is lost: the place after it is quoted instead.
fence_loses :
    (push (codes "t") (fence 96 (new_query (codes "? ?"))) >>= push (codes "u") >>= get_query)
    ≡ ok (codes "`` u")
unfolding push bind assign set_param put_fenc fence new_query get_query each_seq with_rest index_seq
    get_mark_size
fence_loses = refl

run-outcome_example :
    run (codes "a=? and b=?") (codes "1" ∷ []) ≡ outcome (codes "a=? and b=?") (codes "1" ∷ [])
run-outcome_example = run-outcome (codes "a=? and b=?") (codes "1" ∷ [])
