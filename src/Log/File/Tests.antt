-- ===== src/Log/File/Tests.antt =====
-- Writes with a roll between them, on times and texts that are written out.
use new_rojcpp.Prelude.{[], ◌∷◌, ◌≡◌, refl, joined}
use new_rojcpp.Log.File.{LogFile, new_log_file, append_in_lock, roll_file, check_period}
use new_rojcpp.Log.File.Rolling.{created, written, Holds, Reach-Holds}

abbrev first : LogFile
first = new_log_file 90000 3 3 1024

abbrev second : LogFile
second = append_in_lock 90001 90001 (1 ∷ 2 ∷ 3 ∷ 4 ∷ []) first

abbrev third : LogFile
third = append_in_lock 90002 90002 (5 ∷ []) second

-- The first text is longer than a file may be, so the second one goes to a new file.
third_files : third.closed ≡ (1 ∷ 2 ∷ 3 ∷ 4 ∷ []) ∷ []
unfolding append_in_lock roll_file check_period
third_files = refl

third_current : third.current ≡ 5 ∷ []
unfolding append_in_lock roll_file check_period
third_current = refl

Reach-Holds_example : Holds (joined ((1 ∷ 2 ∷ 3 ∷ 4 ∷ []) ∷ (5 ∷ []) ∷ [])) third
Reach-Holds_example =
    Reach-Holds
      (written 90002 90002 (5 ∷ []) (written 90001 90001 (1 ∷ 2 ∷ 3 ∷ 4 ∷ []) (created 90000)))
