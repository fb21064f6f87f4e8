-- ===== src/ServerManager/Terminal/Agrees.antt =====
-- The switches of the terminal in src/ServerManager.cpp and the kernel's queue.
use lazy_team.Base.{ℕ, Bool, true, false, List, [], ◌∷◌, ◌++◌, ◌==◌, if◌then◌else◌, ◌≡◌, refl, ◌∙◌}
use lazy_team.TermPrinter.{TermPrinter, stdout, stderr, has_msg_inside}
use lazy_team.ServerManager.State.{
  evfilt_read, evfilt_write, Flag, ev_add, ev_enable, ev_disable, Change, ServerManager,
}
use lazy_team.ServerManager.Tables.{set_event}
use lazy_team.ServerManager.Terminal.{check_out, check_err, check_std_buffer}

-- What flags make of a filter that is switched on or not.
unfoldable pub armed_by : List Flag → Bool → Bool
armed_by [] b = b
armed_by (ev_add ∷ flags) b = armed_by flags true
armed_by (ev_enable ∷ flags) b = armed_by flags true
armed_by (ev_disable ∷ flags) b = armed_by flags false

-- Whether a change is about the write filter of a descriptor.
is_write_of : ℕ → Change → Bool
is_write_of fd c = elim c.filter [ evfilt_write ↦ c.ident == fd | evfilt_read ↦ false ]

-- The write filter of a descriptor behind some changes.
unfoldable pub armed : ℕ → List Change → Bool → Bool
unfolding armed_by is_write_of
armed fd [] b = b
armed fd (c ∷ cs) b = armed fd cs (if is_write_of fd c then armed_by c.flags b else b)

armed-snoc :
    (fd : ℕ) (cs : List Change) (c : Change) (b : Bool)
    → armed fd (cs ++ c ∷ []) b
      ≡ (if is_write_of fd c then armed_by c.flags (armed fd cs b) else armed fd cs b)
unfolding armed
armed-snoc fd [] c b = refl
armed-snoc fd (x ∷ cs) c b = armed-snoc fd cs c _

-- The queue of changes makes of the two filters what the switches say.
abbrev pub Agrees : Bool → Bool → ServerManager → Type 0
Agrees out err m =
    (armed stdout m.event_changes out ≡ m.stdout_on)
    × (armed stderr m.event_changes err ≡ m.stderr_on)

check_out-Agrees :
    (on has out err : Bool) (m : ServerManager)
    → m.stdout_on ≡ on
    → Agrees out err m
    → Agrees out err (check_out on has m)
      × ((check_out on has m).stdout_on ≡ has)
      × ((check_out on has m).stderr_on ≡ m.stderr_on)
unfolding check_out set_event armed_by is_write_of
check_out-Agrees true true out err m e h = (h, e, refl)
check_out-Agrees false false out err m e h = (h, e, refl)
check_out-Agrees true false out err m e h = (
  (armed-snoc stdout m.event_changes _ out, armed-snoc stderr m.event_changes _ err ∙ h.1),
  refl,
  refl,
)
check_out-Agrees false true out err m e h = (
  (armed-snoc stdout m.event_changes _ out, armed-snoc stderr m.event_changes _ err ∙ h.1),
  refl,
  refl,
)

check_err-Agrees :
    (on has out err : Bool) (m : ServerManager)
    → m.stderr_on ≡ on
    → Agrees out err m
    → Agrees out err (check_err on has m)
      × ((check_err on has m).stdout_on ≡ m.stdout_on)
      × ((check_err on has m).stderr_on ≡ has)
unfolding check_err set_event armed_by is_write_of
check_err-Agrees true true out err m e h = (h, refl, e)
check_err-Agrees false false out err m e h = (h, refl, e)
check_err-Agrees true false out err m e h = (
  (armed-snoc stdout m.event_changes _ out ∙ h.0, armed-snoc stderr m.event_changes _ err),
  refl,
  refl,
)
check_err-Agrees false true out err m e h = (
  (armed-snoc stdout m.event_changes _ out ∙ h.0, armed-snoc stderr m.event_changes _ err),
  refl,
  refl,
)

-- If the changes that wait make of the write filters of STDOUT and STDERR what the two switches say, they
-- still do so behind `checkStdBuffer`, and then each filter is switched on exactly when its queue has a message.
pub check_std_buffer-Agrees :
    (t : TermPrinter) (out err : Bool) (m : ServerManager)
    → Agrees out err m
    → Agrees out err (check_std_buffer t m)
      × (armed stdout (check_std_buffer t m).event_changes out ≡ has_msg_inside t stdout)
      × (armed stderr (check_std_buffer t m).event_changes err ≡ has_msg_inside t stderr)
unfolding check_std_buffer
check_std_buffer-Agrees t out err m h =
    let n = check_out m.stdout_on (has_msg_inside t stdout) m in
    let a = check_out-Agrees m.stdout_on (has_msg_inside t stdout) out err m refl h in
    let b = check_err-Agrees n.stderr_on (has_msg_inside t stderr) out err n refl a.0 in
    (b.0, b.0.0 ∙ b.1 ∙ a.1, b.0.1 ∙ b.2)
