-- ===== src/TermPrinter.antt =====
-- include/TermPrinter.hpp and src/TermPrinter.cpp: the two queues of messages that the event loop
-- writes to the terminal. `BC_STRING_MAX` is a limit of the platform's headers, and a parameter.
pub mod Flow
pub mod Tests
use lazy_team.Base.{
  ℕ, Bool, not, List, [], ◌∷◌, ◌++◌, ◌||◌, ◌≡◌, refl, ltb, ◌==◌, if◌then◌else◌, length, take, drop,
  Outcome, ok, assert, ◌>>◌,
}
use lazy_team.Text.{Bytes}
use lazy_team.Webserv.{Code, ok_code, error_code}

pub record TermPrinter : Type 0 where
  pub err_msgs : Bytes
  pub out_msgs : Bytes

abbrev pub stdout : ℕ
stdout = 1

abbrev pub stderr : ℕ
stderr = 2

-- The queue of a descriptor: that of STDOUT, or else that of STDERR.
abbrev pub msgs : TermPrinter → ℕ → Bytes
msgs t fd = if fd == stdout then t.out_msgs else t.err_msgs

unfoldable pub has_msg_inside : TermPrinter → ℕ → Bool
has_msg_inside t fd = not (length (msgs t fd) == 0)

abbrev set_msgs : TermPrinter → ℕ → Bytes → TermPrinter
set_msgs t fd msg =
    if fd == stderr then record t { err_msgs = msg } else record t { out_msgs = msg }

-- The chosen queue is cut after `max` bytes.
trim : ℕ → TermPrinter → ℕ → Bytes → TermPrinter × Bytes
trim max t fd msg =
    if ltb max (length msg)
    then (set_msgs t fd (drop max msg), take max msg)
    else (set_msgs t fd [], msg)

unfoldable pub trim_msg : ℕ → TermPrinter → ℕ → Outcome (TermPrinter × Bytes)
unfolding trim
trim_msg max t fd = do
  assert (fd == stderr || fd == stdout)
  ok (trim max t fd (if fd == stderr then t.err_msgs else t.out_msgs))

unfoldable pub put_msg : TermPrinter → Bytes → TermPrinter × Code
put_msg t msg = (record t { out_msgs = t.out_msgs ++ msg }, ok_code)

unfoldable pub put_err : TermPrinter → Bytes → TermPrinter × Code
put_err t err = (record t { err_msgs = t.err_msgs ++ err }, error_code)
