-- ===== src/Judge/Server/Sockets/Tests.antt =====
-- Runs and instances of the theorems on the sockets of the judge server.
use new_rojcpp.Prelude.{ℕ, ◌≡◌, refl, [], ◌∷◌, true, false}
use new_rojcpp.Prelude.Dict.{lookup, insert, emplace}
use new_rojcpp.Judge.Server.Sockets.{insert_fd, first_unused, get_fd, get_specified_fd, remove_all}
use new_rojcpp.Judge.Server.Sockets.Exclusion.{
  Reach, started, inserted, taken, IsUnshared, Reach-IsUnshared,
}

-- A descriptor that is gone is never given out: the loop of `socketManagerRAII(fd)` does not end.
gone : (fd : ℕ) → get_specified_fd fd [] ≡ (false, [])
unfolding get_specified_fd lookup
gone fd = refl

-- After removeAll a socket that is held can be given out again.
shared_after_clearing :
    get_specified_fd 5 (insert_fd 5 (remove_all ((5, true) ∷ []))) ≡ (true, (5, true) ∷ [])
unfolding get_specified_fd insert_fd lookup insert emplace
shared_after_clearing = refl

one_taken : Reach ((7, false) ∷ (5, true) ∷ []) (5 ∷ [])
unfolding get_fd first_unused insert_fd emplace lookup insert
one_taken = taken 5 refl (inserted 7 (inserted 5 started))

Reach-IsUnshared_example : IsUnshared ((7, false) ∷ (5, true) ∷ []) (5 ∷ [])
Reach-IsUnshared_example = Reach-IsUnshared one_taken
