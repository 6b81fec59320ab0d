-- ===== src/Tests/FileRuns.antt =====
-- The append-only file, with two commands and with a byte that is none.
use ai_kv.Base.{◌<◌, ◌+◌, length, some, ◌≡◌, refl, arith, List, [], ◌∷◌}
use ai_kv.Text.{Bytes}
use ai_kv.Text.Utf8.{from_utf8_lossy}
use ai_kv.Error.{ok}
use ai_kv.Persistence.Aof.{load_all, load_from, read_command}
use ai_kv.Persistence.Aof.Fuel.{load_all_ends}
use ai_kv.Persistence.Aof.Replay.{log_all, load_all-log_all}
use ai_kv.Tests.{elem_x, elem_y, two}

abbrev commands : List (List Bytes)
commands = (elem_x ∷ two ∷ []) ∷ (elem_y ∷ []) ∷ []

load_all-log_all_example : load_all (log_all commands []) ≡ ok (some commands)
unfolding from_utf8_lossy
load_all-log_all_example = load_all-log_all commands (
  (omega arith, (refl, omega arith, (refl, omega arith, tt))),
  ((omega arith, (refl, omega arith, tt)), tt),
)

load_all_ends_example :
    (length (read_command two).1 < length two)
    × ((load_from (5 + (length two + 1)) two).0 ≡ load_all two)
load_all_ends_example = load_all_ends 5 b'2' []
