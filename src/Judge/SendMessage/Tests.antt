-- ===== src/Judge/SendMessage/Tests.antt =====
-- Runs and instances of the theorems on the requests to the judge server.
use new_rojcpp.Prelude.{◌≡◌, refl, [], ◌∷◌}
use new_rojcpp.Judge.Wire.{push_back, push_back_text, append_message}
use new_rojcpp.Judge.SendMessage.{MessageSend, dumps}

abbrev job : MessageSend
job = record {
  key = 49 ∷ [];
  code = 105 ∷ 110 ∷ 116 ∷ [];
  language = 99 ∷ [];
  pid = [];
  time_limit = 1000;
  memory_limit = 128;
}

job_bytes :
    dumps job
    ≡ 0 ∷ 0 ∷ 0 ∷ 1 ∷ 49 ∷ 0 ∷ 0 ∷ 0 ∷ 3 ∷ 105 ∷ 110 ∷ 116 ∷ 0 ∷ 0 ∷ 0 ∷ 1 ∷ 99 ∷ 0 ∷ 0 ∷ 0 ∷ 0 ∷ 0
      ∷ 0 ∷ 3 ∷ 232 ∷ 0 ∷ 0 ∷ 0 ∷ 128 ∷ []
unfolding dumps append_message push_back push_back_text
job_bytes = refl
