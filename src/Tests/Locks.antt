-- ===== src/Tests/Locks.antt =====
-- The theorems on the locks of the descriptor states, at concrete inputs.
use mt_hvac.Base.{◌<◌, ◌≡◌, false, arith, pos, int_key, nat_key, ◌=?◌}
use mt_hvac.Fd.Init
use mt_hvac.Fd.Init.{
  Locks, AreInitialized, init_again, inside-AreInitialized, once_more, at, filling,
}
use mt_hvac.Fd.Locks.{shards, shard, writes, inside, Threads, Reach, two_writers}

apart : (shard (pos 5) =? shard (pos 6)) ≡ false
unfolding shard
apart = ground arith

two_writers_example :
    (s : Threads) × Reach s × (s 0 ≡ inside writes (pos 5)) × (s 1 ≡ inside writes (pos 6))
two_writers_example = two_writers 5 6 apart

five_below : 5 < shards
five_below = omega arith

-- Two threads that have both found the flag clear.
abbrev twice : Locks
twice = (init_again 5 five_below).0

inside-AreInitialized_example : AreInitialized shards twice.inits
inside-AreInitialized_example =
    inside-AreInitialized 0 (init_again 5 five_below).1 (init_again 5 five_below).2

init_again_example :
    (s : Locks) × Init.Reach s
    × (s.place 0 ≡ Init.inside)
    × (0 < s.inits 5)
    × Init.Step s (record s { inits = once_more s.inits 5; place = at s.place 1 (filling 6) })
init_again_example = init_again 5 five_below
