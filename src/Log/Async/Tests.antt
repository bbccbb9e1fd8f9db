-- ===== src/Log/Async/Tests.antt =====
-- Runs and instances of the theorems on the logger, with buffers of four bytes.
use new_rojcpp.Prelude.{◌≡◌, refl, [], ◌∷◌, ◌++◌, some, none}
use new_rojcpp.Log.Async.{Logger, initial, append, buffer_append, collect, write_out}
use new_rojcpp.Log.Async.Lines.{
  Reach, IsLogging, begin, appended, collected, written, kept, Reach-IsLogging,
}

-- Three bytes, two more in the second buffer, and the thread's two steps.
abbrev full : Logger
full = record initial { current = some (4 ∷ 5 ∷ []); next = none; buffers = (1 ∷ 2 ∷ 3 ∷ []) ∷ [] }

two_lines : Reach 4 (([] ++ kept 4 (1 ∷ 2 ∷ 3 ∷ [])) ++ kept 4 (4 ∷ 5 ∷ [])) full
unfolding append buffer_append initial
two_lines = appended (4 ∷ 5 ∷ []) (appended (1 ∷ 2 ∷ 3 ∷ []) begin refl) refl

out : (write_out (collect full)).file ≡ 1 ∷ 2 ∷ 3 ∷ 4 ∷ 5 ∷ []
unfolding write_out collect initial
out = refl

all_written : Reach 4 (1 ∷ 2 ∷ 3 ∷ 4 ∷ 5 ∷ []) (write_out (collect full))
unfolding collect initial
all_written = written (collected two_lines refl) refl

Reach-IsLogging_example : IsLogging 4 (1 ∷ 2 ∷ 3 ∷ 4 ∷ 5 ∷ []) (write_out (collect full))
Reach-IsLogging_example = Reach-IsLogging 4 all_written
