-- ===== src/Log/File.antt =====
-- libs/logger/logFile.hpp: the log that goes to a new file when the current one is full or the day is
-- over. fwrite takes what it is given, and the name of a file is that of its second; times are seconds
-- since the epoch, and a size is below 2 ^ 63.
pub mod Rolling
mod Tests
use new_rojcpp.Prelude.{
  ℕ, suc, ◌+◌, ◌-◌, ◌*◌, ◌/◌, List, [], ◌∷◌, ◌++◌, Bool, true, false, not, ltb, leb, ◌==◌, length,
  if◌then◌else◌,
}

-- The file that is open is `current`; those before it are closed.
pub record LogFile : Type 0 where
  pub roll_size : ℕ
  pub flush_interval : ℕ
  pub check_every_n : ℕ
  pub write_count : ℕ
  pub start_of_period : ℕ
  pub last_roll : ℕ
  pub last_flush : ℕ
  pub closed : List (List ℕ)
  pub current : List ℕ
  pub written_bytes : ℕ

abbrev pub k_roll_per_seconds : ℕ
k_roll_per_seconds = 60 * 60 * 24

-- `rollFile` at the time `now`
unfoldable pub roll_file : ℕ → LogFile → LogFile
roll_file now f = elim (ltb f.last_roll now) [
  | true ↦ record f {
    last_roll = now;
    last_flush = now;
    start_of_period = now / k_roll_per_seconds * k_roll_per_seconds;
    closed = f.closed ++ f.current ∷ [];
    current = [];
    written_bytes = 0;
  }
  | false ↦ f
]

-- `fileUtil::append`
abbrev pub file_append : List ℕ → LogFile → LogFile
file_append bytes f = record f {
  current = f.current ++ bytes;
  written_bytes = f.written_bytes + length bytes;
}

-- The check after every so many writes: `now` is the time that it reads, and `later` the one that
-- `rollFile` reads.
unfoldable pub check_period : ℕ → ℕ → LogFile → LogFile
unfolding roll_file
check_period now later f =
    elim (now / k_roll_per_seconds * k_roll_per_seconds == f.start_of_period) [
      | false ↦ roll_file later f
      | true ↦ elim (ltb f.flush_interval (now - f.last_flush)) [
        | true ↦ record f { last_flush = now }
        | false ↦ f
      ]
    ]

-- `appendInLock`
unfoldable pub append_in_lock : ℕ → ℕ → List ℕ → LogFile → LogFile
unfolding roll_file check_period
append_in_lock now later bytes f =
    let g = file_append bytes f in
    elim (ltb g.roll_size g.written_bytes) [
      | true ↦ roll_file later g
      | false ↦ elim (leb g.check_every_n (suc g.write_count)) [
        | true ↦ check_period now later (record g { write_count = 0 })
        | false ↦ record g { write_count = suc g.write_count }
      ]
    ]

-- The constructor, whose members are 0 when it opens the first file; it is called after the epoch.
abbrev pub new_log_file : ℕ → ℕ → ℕ → ℕ → LogFile
new_log_file now roll_size flush_interval check_every_n = record {
  roll_size = roll_size;
  flush_interval = flush_interval;
  check_every_n = check_every_n;
  write_count = 0;
  start_of_period = now / k_roll_per_seconds * k_roll_per_seconds;
  last_roll = now;
  last_flush = now;
  closed = [];
  current = [];
  written_bytes = 0;
}
