-- ===== src/Judge/Server/Sockets.antt =====
-- libs/judgercpp/judge_server/src/socketManager.hpp: the sockets of the judge server and which of them
-- are in use. Each call holds the mutex, so it is one step. A descriptor is not negative.
pub mod Exclusion
mod Tests
use new_rojcpp.Prelude.{ℕ, List, [], ◌∷◌, Option, none, some, Bool, true, false, ltb, if◌then◌else◌}
use new_rojcpp.Prelude.Dict.{lookup, insert, erase, emplace, nat_eq}

-- `socket_map`: is the descriptor in use?
abbrev pub SocketMap : Type 0
SocketMap = List (ℕ × Bool)

unfoldable pub insert_fd : ℕ → SocketMap → SocketMap
insert_fd fd m = emplace fd false m

abbrev pub least : ℕ → Option ℕ → Option ℕ
least fd none = some fd
least fd (some other) = if ltb fd other then some fd else some other

-- The first descriptor in the order of the map that is not in use.
unfoldable pub first_unused : SocketMap → Option ℕ
first_unused [] = none
first_unused ((fd, used) ∷ m) = let rest = first_unused m in if used then rest else least fd rest

-- `get`: the descriptor, if there is one.
unfoldable pub get_fd : SocketMap → Option ℕ × SocketMap
get_fd m = elim (first_unused m) [ none ↦ (none, m) | some fd ↦ (some fd, insert fd true m) ]

unfoldable pub get_specified_fd : ℕ → SocketMap → Bool × SocketMap
get_specified_fd fd m = elim (lookup fd m) [
  | none ↦ (false, m)
  | some used ↦ if used then (false, m) else (true, insert fd true m)
]

unfoldable pub remove_fd : ℕ → SocketMap → Bool × SocketMap
remove_fd fd m = elim (lookup fd m) [
  | none ↦ (false, m)
  | some used ↦ if used then (false, m) else (true, erase fd m)
]

unfoldable pub unuse : ℕ → SocketMap → SocketMap
unuse fd m = elim (lookup fd m) [ none ↦ m | some used ↦ insert fd false m ]

abbrev pub remove_all : SocketMap → SocketMap
remove_all m = []
