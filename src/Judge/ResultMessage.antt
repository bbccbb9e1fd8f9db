-- ===== src/Judge/ResultMessage.antt =====
-- libs/judgercpp/judge_server/src/Result.hpp: what the judge server answers.
pub mod RoundTrip
mod Tests
use new_rojcpp.Prelude.{
  ℕ, zero, suc, ◌+◌, ◌*◌, ◌/◌, ◌%◌, ◌^◌, List, [], ◌∷◌, ◌++◌, Option, none, some, ltb,
  if◌then◌else◌, length,
}
use new_rojcpp.Judge.Wire.{
  word_mod, push_back, append_message, Reader, pure, ◌>>=◌, read_int, read_text,
}

-- The result of one test point (libs/judgercpp/judger.h): `int`s as 32-bit patterns, and `memory`,
-- a `long`, as a pattern of 64 bits.
pub record JudgeResult : Type 0 where
  pub cpu_time : ℕ
  pub real_time : ℕ
  pub memory : ℕ
  pub signal : ℕ
  pub exit_code : ℕ
  pub error : ℕ
  pub result : ℕ

-- MessageResultJudge
pub record MessageResult : Type 0 where
  pub code : ℕ
  pub key : List ℕ
  pub msg : List ℕ
  pub results : List JudgeResult

-- The body of the loop of `dumps`: `memory` goes as its low and its high half.
dump_result : JudgeResult → List ℕ → List ℕ
dump_result e ret = push_back e.result (
    push_back e.error (
      push_back e.exit_code (
        push_back e.signal (
          push_back (e.memory / word_mod)
            (push_back (e.memory % word_mod) (push_back e.real_time (push_back e.cpu_time ret)))))))

dump_results : List JudgeResult → List ℕ → List ℕ
dump_results [] ret = ret
dump_results (e ∷ es) ret = dump_results es (dump_result e ret)

unfoldable pub dumps : MessageResult → List ℕ
unfolding dump_results dump_result
dumps m = dump_results m.results (
    push_back (length m.results % word_mod)
      (append_message m.msg (append_message m.key (push_back m.code []))))

read_result : Reader JudgeResult
read_result = do
  cpu_time ← read_int
  real_time ← read_int
  low ← read_int
  high ← read_int
  signal ← read_int
  exit_code ← read_int
  error ← read_int
  result ← read_int
  pure (record {
    cpu_time = cpu_time;
    real_time = real_time;
    memory = high * word_mod + low;
    signal = signal;
    exit_code = exit_code;
    error = error;
    result = result;
  })

-- The loop of `loads`, with the rounds left; each round appends to the results there are.
read_results : ℕ → List JudgeResult → Reader (List JudgeResult)
read_results zero results = pure results
read_results (suc n) results = do r ← read_result; read_results n (results ++ r ∷ [])

-- A size that is negative as an `int` makes no round.
abbrev rounds : ℕ → ℕ
rounds size = if ltb size (2 ^ 31) then size else 0

-- `loads` into an object that may hold results already: they stay.
pub read_message : MessageResult → Reader MessageResult
read_message old = do
  code ← read_int
  key ← read_text
  msg ← read_text
  size ← read_int
  results ← read_results (rounds size) old.results
  pure (record { code = code; key = key; msg = msg; results = results })

pub loads : MessageResult → List ℕ → Option MessageResult
loads old str = elim (read_message old str 0) [ none ↦ none | some (m, _) ↦ some m ]
