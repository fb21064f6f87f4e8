-- ===== src/TermPrinter/Flow.antt =====
-- What the queues of src/TermPrinter.cpp promise: no byte is lost, doubled or reordered.
use lazy_team.Base.{
  ℕ, ◌-◌, ◌≡◌, ◌⊎◌, ◌==◌, if◌then◌else◌, take, drop, ok, arith, take_all, drop_all,
}
use lazy_team.Text.{Bytes}
use lazy_team.TermPrinter.{TermPrinter, trim_msg, trim, msgs, stdout, stderr}

trim-parts :
    (max : ℕ) (t : TermPrinter) (fd : ℕ) (msg : Bytes)
    → (fd ≡ stdout) ⊎ (fd ≡ stderr)
    → ((trim max t fd msg).1 ≡ take max msg) × (msgs (trim max t fd msg).0 fd ≡ drop max msg)
unfolding trim
trim-parts max t fd msg h = ground (arith, take_all max msg, drop_all max msg)

-- For either terminal descriptor, `getMsg` hands out the first `max` bytes of that descriptor's queue
-- and leaves the others in the queue; the other descriptor's queue stays.
pub trim_msg-take :
    (max : ℕ) (t : TermPrinter) (fd : ℕ)
    → (fd ≡ stdout) ⊎ (fd ≡ stderr)
    → (u : TermPrinter) × (trim_msg max t fd ≡ ok (u, take max (msgs t fd)))
      × (msgs u fd ≡ drop max (msgs t fd))
      × (msgs u (3 - fd) ≡ msgs t (3 - fd))
unfolding trim_msg
trim_msg-take max t fd h =
    let msg = if fd == stderr then t.err_msgs else t.out_msgs in
    (
      (trim max t fd msg).0,
      ground (arith, trim-parts max t fd msg h),
      ground (arith, trim-parts max t fd msg h),
      (unfold trim in ground arith),
    )
