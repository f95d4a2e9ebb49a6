-- ===== src/Lock/Samples.antt =====
-- The lock theorems on two processes.
use aira_graphdb.Base.{◌≤◌}
use aira_graphdb.Io.{World}
use aira_graphdb.Storage.Samples.{bare}
use aira_graphdb.Lock.{acquire_write_lock}
use aira_graphdb.Lock.Exclusion.{Holders, Step, Reach, at_most_one_holder}

abbrev first_world : World
first_world = (acquire_write_lock bare).1

abbrev held : Holders
held = record { world = first_world; count = 1 }

held_reached : Reach held
unfolding acquire_write_lock
held_reached = Reach.next (Reach.start bare) Step.acquires

-- A second process asks for the lock.
abbrev asked : Holders
asked = record { world = (acquire_write_lock first_world).1; count = 1 }

asked_reached : Reach asked
unfolding acquire_write_lock
asked_reached = Reach.next held_reached Step.acquires

at_most_one_holder_example : asked.count ≤ 1
at_most_one_holder_example = at_most_one_holder asked_reached
