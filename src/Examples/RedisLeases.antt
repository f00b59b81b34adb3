-- ===== src/Examples/RedisLeases.antt =====
-- Locks, leases and epochs on the server of Examples/Redis.
use flux_forge.Base.{
  ◌*◌, String, true, false, [], ◌≡◌, ◌≢◌, refl, ◌==◌, nat_eq, string_eq, arith, ==_iff,
}
use flux_forge.Base.Dict.{lookup, insert, delete}
use flux_forge.Task.{second}
use flux_forge.Leader.Janitor.{Holds}
use flux_forge.Leader.Fencing.{IsMonotone}
use flux_forge.Redis.{call}
use flux_forge.Redis.Leases.{
  acquire_lock, renew_lock, release_lock, is_lease_owner, redis_coordinator, redis_epochs,
}
use flux_forge.Redis.Leases.Exclusion.{acquiring, renewing, Steps, start, later, lease_exclusive}
use flux_forge.Redis.Leases.Coordination.{
  redis_coordinator-Holds, redis_epochs-IsMonotone, held_text, durable_counter,
}
use flux_forge.Examples.Redis.{
  Memory, empty_memory, server, server-TextLaws, server-CounterLaws, counter,
}

abbrev lock : String
lock = "fluxforge:lock:leader"

abbrev led : Memory
led = record empty_memory { texts = insert lock "n1" [] }

differ : ◌≢◌ {A = String} "n2" "n1"
differ h =
    let fact : (◌==◌ {A = String} "n2" "n1") ≡ false = refl in
    cc (fact, (==_iff {A = String} "n2" "n1").1 h)

-- Another node asks for the lock, and the first one renews it.
abbrev after_two : Memory
after_two =
    (renew_lock server lock "n1" (30 * second)
      (acquire_lock server lock "n2" (30 * second)
        (acquire_lock server lock "n1" (30 * second) empty_memory).0).0).0

two_steps :
    Steps server lock "n1" (acquire_lock server lock "n1" (30 * second) empty_memory).0 after_two
two_steps =
    later (later start (acquiring lock "n2" (30 * second)))
      (renewing lock "n1" (30 * second) (omega arith))

lease_exclusive_example :
    ((acquire_lock server lock "n1" (30 * second) after_two).1 ≡ false)
    × ((acquire_lock server lock "n2" (30 * second) after_two).1 ≡ false)
    × ((renew_lock server lock "n2" (30 * second) after_two).1 ≡ false)
    × ((is_lease_owner server lock "n2" after_two).0 ≡ false)
unfolding acquire_lock call insert lookup
lease_exclusive_example =
    lease_exclusive server server-TextLaws lock "n1" "n2" (30 * second) (30 * second) empty_memory
      after_two refl two_steps differ

redis_coordinator-Holds_example :
    Holds (redis_coordinator server) (held_text server server-TextLaws)
redis_coordinator-Holds_example = redis_coordinator-Holds server server-TextLaws

redis_epochs-IsMonotone_example :
    IsMonotone (redis_epochs server) (durable_counter server counter server-CounterLaws)
redis_epochs-IsMonotone_example = redis_epochs-IsMonotone server counter server-CounterLaws

-- A lock that was released is free for the next node.
released_free :
    (acquire_lock server lock "n2" (30 * second) (release_lock server lock "n1" led).0).1 ≡ true
unfolding acquire_lock release_lock call insert lookup delete
released_free = refl
