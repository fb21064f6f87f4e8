-- ===== src/ServerManager/Terminal.antt =====
-- `checkStdBuffer` of src/ServerManager.cpp.
pub mod Agrees
use lazy_team.Base.{ℕ, Bool, true, false, List, [], ◌∷◌}
use lazy_team.TermPrinter.{TermPrinter, stdout, stderr, has_msg_inside}
use lazy_team.ServerManager.State.{evfilt_write, ev_enable, ev_disable, ServerManager}
use lazy_team.ServerManager.Tables.{set_event}

-- The switch of STDOUT, by its value and by whether there are messages.
check_out : Bool → Bool → ServerManager → ServerManager
unfolding set_event
check_out true false m = record (set_event stdout evfilt_write (ev_disable ∷ []) m) {
  stdout_on = false;
}
check_out false true m = record (set_event stdout evfilt_write (ev_enable ∷ []) m) {
  stdout_on = true;
}
check_out true true m = m
check_out false false m = m

check_err : Bool → Bool → ServerManager → ServerManager
unfolding set_event
check_err true false m = record (set_event stderr evfilt_write (ev_disable ∷ []) m) {
  stderr_on = false;
}
check_err false true m = record (set_event stderr evfilt_write (ev_enable ∷ []) m) {
  stderr_on = true;
}
check_err true true m = m
check_err false false m = m

unfoldable pub check_std_buffer : TermPrinter → ServerManager → ServerManager
unfolding check_out check_err
check_std_buffer t m =
    let n = check_out m.stdout_on (has_msg_inside t stdout) m in
    check_err n.stderr_on (has_msg_inside t stderr) n
