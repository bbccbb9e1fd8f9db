-- ===== src/Judge/Handler/Json.antt =====
-- MessageResultJudge::dump_to_json.
use new_rojcpp.Prelude.{ℕ, ◌+◌, ◌-◌, ◌^◌, List, [], ◌∷◌, ◌++◌, ltb, if◌then◌else◌}
use new_rojcpp.Prelude.Decimal.{decimal}
use new_rojcpp.Prelude.Text.{codes}
use new_rojcpp.Judge.ResultMessage.{JudgeResult}

-- `std::to_string` of a pattern of so many values: '-' is 45.
unfoldable pub to_string : ℕ → ℕ → List ℕ
to_string values n = if ltb (n + n) values then decimal n else 45 ∷ decimal (values - n)

abbrev int_string : ℕ → List ℕ
int_string n = to_string (2 ^ 32) n

unfoldable pub dump_one : JudgeResult → List ℕ
dump_one e =
    codes "{\"cpu_time\":"
    ++ (int_string e.cpu_time
        ++ (codes ",\"real_time\":"
            ++ (int_string e.real_time
                ++ (codes ",\"memory\":"
                    ++ (to_string (2 ^ 64) e.memory
                        ++ (codes ",\"signal\":"
                            ++ (int_string e.signal
                                ++ (codes ",\"exit_code\":"
                                    ++ (int_string e.exit_code
                                        ++ (codes ",\"error\":"
                                            ++ (int_string e.error
                                                ++ (codes ",\"result\":"
                                                    ++ (int_string e.result
                                                        ++ codes "}")))))))))))))

-- The loop, with a comma behind every result but the last.
unfoldable pub dump_all : List JudgeResult → List ℕ
dump_all [] = []
dump_all (e ∷ []) = dump_one e
dump_all (e ∷ f ∷ es) = dump_one e ++ 44 ∷ dump_all (f ∷ es)

unfoldable pub dump_to_json : List JudgeResult → List ℕ
dump_to_json results = codes "[" ++ (dump_all results ++ codes "]")
