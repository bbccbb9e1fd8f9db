-- ===== src/Judge/ResultMessage/RoundTrip.antt =====
-- Result.hpp: `dumps`, and `loads` on what it wrote.
use new_rojcpp.Prelude.{
  ℕ, ◌+◌, ◌*◌, ◌/◌, ◌%◌, ◌^◌, ◌<◌, ◌≡◌, ap, ◌∙◌, sym, List, [], ◌∷◌, ◌++◌, some, arith, length,
  append_assoc, append-nil,
}
use new_rojcpp.Judge.Wire.{word_mod}
use new_rojcpp.Judge.Wire.Reading.{
  Reads, pure-Reads, >>=-Reads, read_int-Reads, read_text-Reads, text_bytes, word_bytes, written,
}
use new_rojcpp.Judge.ResultMessage.{
  JudgeResult, MessageResult, dump_result, dump_results, dumps, read_result, read_results,
  read_message, loads, rounds,
}

-- Every field is a pattern of 32 bits, `memory` of 64.
pub record IsPattern (e : JudgeResult) : Type 0 where
  pub cpu_fits : e.cpu_time < word_mod
  pub real_fits : e.real_time < word_mod
  pub memory_fits : e.memory < word_mod * word_mod
  pub signal_fits : e.signal < word_mod
  pub exit_fits : e.exit_code < word_mod
  pub error_fits : e.error < word_mod
  pub result_fits : e.result < word_mod

abbrev pub ArePatterns : List JudgeResult → Type 0
ArePatterns [] = Unit {0}
ArePatterns (e ∷ es) = IsPattern e × ArePatterns es

-- Texts shorter than 2 ^ 32 and fewer than 2 ^ 31 results.
pub record IsAnswer (m : MessageResult) : Type 0 where
  pub code_fits : m.code < word_mod
  pub key_fits : length m.key < word_mod
  pub msg_fits : length m.msg < word_mod
  pub count_fits : length m.results < 2 ^ 31
  pub patterns : ArePatterns m.results

result_bytes : JudgeResult → List ℕ
result_bytes e =
    word_bytes e.cpu_time
    ++ (word_bytes e.real_time
        ++ (word_bytes (e.memory % word_mod)
            ++ (word_bytes (e.memory / word_mod)
                ++ (word_bytes e.signal
                    ++ (word_bytes e.exit_code
                        ++ (word_bytes e.error ++ (word_bytes e.result ++ [])))))))

results_bytes : List JudgeResult → List ℕ
results_bytes [] = []
results_bytes (e ∷ es) = result_bytes e ++ results_bytes es

dump_result_bytes : (e : JudgeResult) (ret : List ℕ) → dump_result e ret ≡ ret ++ result_bytes e
unfolding dump_result result_bytes
dump_result_bytes e ret = simp written

dump_results_bytes :
    (es : List JudgeResult) (ret : List ℕ) → dump_results es ret ≡ ret ++ results_bytes es
unfolding dump_results results_bytes
dump_results_bytes [] ret = sym (append-nil ret)
dump_results_bytes (e ∷ es) ret =
    dump_results_bytes es (dump_result e ret)
    ∙ ap (λ t. t ++ results_bytes es) (dump_result_bytes e ret)
    ∙ append_assoc ret (result_bytes e) (results_bytes es)

message_bytes : MessageResult → List ℕ
message_bytes m =
    word_bytes m.code
    ++ (text_bytes m.key
        ++ (text_bytes m.msg
            ++ (word_bytes (length m.results % word_mod) ++ (results_bytes m.results ++ []))))

dumps_bytes : (m : MessageResult) → dumps m ≡ message_bytes m
unfolding dumps message_bytes
dumps_bytes m = simp (dump_results_bytes, written)

read_result-Reads : (e : JudgeResult) → IsPattern e → Reads read_result e (result_bytes e)
unfolding read_result result_bytes
read_result-Reads e p = >>=-Reads _ (read_int-Reads e.cpu_time p.cpu_fits) (
    >>=-Reads _ (read_int-Reads e.real_time p.real_fits) (
      >>=-Reads _ (read_int-Reads (e.memory % word_mod) (omega arith)) (
        >>=-Reads _ (read_int-Reads (e.memory / word_mod) (omega arith)) (
          >>=-Reads _ (read_int-Reads e.signal p.signal_fits) (
            >>=-Reads _ (read_int-Reads e.exit_code p.exit_fits) (
              >>=-Reads _ (read_int-Reads e.error p.error_fits) (
                >>=-Reads _ (read_int-Reads e.result p.result_fits) (rw whole (pure-Reads e)))))))))
  where
    whole : e.memory / word_mod * word_mod + e.memory % word_mod ≡ e.memory
    whole = omega arith

read_results-Reads :
    (es old : List JudgeResult)
    → ArePatterns es
    → Reads (read_results (length es) old) (old ++ es) (results_bytes es)
unfolding read_results results_bytes
read_results-Reads [] old p = rw append-nil (pure-Reads old)
read_results-Reads (e ∷ es) old (p, ps) =
    >>=-Reads _ (read_result-Reads e p)
      (rw (append_assoc old (e ∷ []) es) at (read_results-Reads es (old ++ e ∷ []) ps))

read_message-Reads :
    (old m : MessageResult)
    → IsAnswer m
    → Reads (read_message old) (record m { results = old.results ++ m.results }) (message_bytes m)
unfolding read_message message_bytes
read_message-Reads old m s = >>=-Reads _ (read_int-Reads m.code s.code_fits) (
    >>=-Reads _ (read_text-Reads m.key s.key_fits) (
      >>=-Reads _ (read_text-Reads m.msg s.msg_fits) (
        >>=-Reads _ (read_int-Reads (length m.results % word_mod) (omega arith))
          (>>=-Reads _ all_results (pure-Reads _)))))
  where
    same_rounds : rounds (length m.results % word_mod) ≡ length m.results
    same_rounds = ground arith

    all_results :
        Reads
          (read_results (rounds (length m.results % word_mod)) old.results)
          (old.results ++ m.results)
          (results_bytes m.results)
    all_results = rw same_rounds (read_results-Reads m.results old.results s.patterns)

-- For an answer whose code is a 32-bit pattern, whose results are patterns of their fields' widths,
-- and whose text, with what follows it, is shorter than 2 ^ 31: `loads` gives back the code, the key,
-- the message and the results that `dumps` wrote, whatever follows in the text; results that the
-- object held before stay in front of them.
pub loads-dumps_result :
    (old m : MessageResult) (rest : List ℕ)
    → IsAnswer m
    → length (dumps m ++ rest) < 2 ^ 31
    → loads old (dumps m ++ rest) ≡ some (record m { results = old.results ++ m.results })
unfolding loads
loads-dumps_result old m rest s l =
    let (cur, e, _) =
      (read_message-Reads old m s).run (dumps m ++ rest) rest 0 l (rw (dumps_bytes m)) in
    rw (e, loads)
