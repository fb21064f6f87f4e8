-- ===== src/TermPrinter/Tests.antt =====
-- An instance of the theorem on src/TermPrinter.cpp.
use lazy_team.Base.{◌≡◌, inl, refl, take, drop, ok}
use lazy_team.Text.{codes}
use lazy_team.TermPrinter.{TermPrinter, trim_msg, msgs}
use lazy_team.TermPrinter.Flow.{trim_msg-take}

abbrev two_queues : TermPrinter
two_queues = record { err_msgs = codes "no"; out_msgs = codes "hello" }

trim_msg-take_example :
    (u : TermPrinter) × (trim_msg 3 two_queues 1 ≡ ok (u, take 3 (msgs two_queues 1)))
    × (msgs u 1 ≡ drop 3 (msgs two_queues 1))
    × (msgs u 2 ≡ msgs two_queues 2)
trim_msg-take_example = trim_msg-take 3 two_queues 1 (inl refl)
