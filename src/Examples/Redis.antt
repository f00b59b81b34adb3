-- ===== src/Examples/Redis.antt =====
-- Redis, on a server that never fails and keeps what it is told; nothing expires.
use flux_forge.Base.{
  ℕ, ◌+◌, String, Bool, true, false, Option, none, some, [], refl, nat_eq, string_eq, if◌then◌else◌,
  arith, ==_iff,
}
use flux_forge.Base.Dict.{Dict, lookup, insert, delete, lookup-insert, lookup-delete}
use flux_forge.Base.Distinct.{is_some}
use flux_forge.Redis.{RedisServer, TextLaws, CounterLaws, HashLaws, VersionedHash}

pub record Memory : Type 0 where
  pub texts : Dict String String
  pub numbers : Dict String ℕ
  pub hashes : Dict String VersionedHash
  pub scripts_known : Bool

abbrev pub empty_memory : Memory
empty_memory = record { texts = []; numbers = []; hashes = []; scripts_known = true }

abbrev number : Option ℕ → ℕ
number none = 0
number (some n) = n

abbrev pub counter : Memory → String → ℕ
counter s k = number (lookup k s.numbers)

abbrev set_text : String → String → Memory → Memory
set_text k v s = record s { texts = insert k v s.texts }

abbrev pub server : RedisServer Memory
server = record {
  get = λ k s. lookup k s.texts;
  get_int64 = λ k s. lookup k s.numbers;
  set = λ k v ttl s. set_text k v s;
  set_nx = λ k v ttl s. if is_some (lookup k s.texts) then (s, false) else (set_text k v s, true);
  del = λ k s. (record s { texts = delete k s.texts }, if is_some (lookup k s.texts) then 1 else 0);
  pexpire = λ k ms s. (s, if is_some (lookup k s.texts) then 1 else 0);
  incr = λ k s. (record s { numbers = insert k (counter s k + 1) s.numbers }, counter s k + 1);
  scan = λ pattern s. [];
  hash = λ k s. lookup k s.hashes;
  hmset = λ k h s. record s { hashes = insert k h s.hashes };
  expire = λ k sec s. s;
  script_known = λ script s. s.scripts_known;
  script_load = λ script s. record s { scripts_known = true };
  refuses = λ s. none;
  loses = λ s. none;
}

pub server-TextLaws : TextLaws server
server-TextLaws = record {
  get-set = λ k j v ttl s. lookup-insert k j v s.texts;
  set_nx_lem = λ k v ttl s. refl;
  get-del = λ k j s. lookup-delete k j s.texts;
  get-pexpire = λ k j ms s positive. refl;
}

pub server-HashLaws : HashLaws server
server-HashLaws = record {
  hash-hmset = λ k j h s. lookup-insert k j h s.hashes;
  hash-expire = λ k j sec s positive. refl;
  hash-script_load = λ script j s. refl;
}

pub server-CounterLaws : CounterLaws server counter
server-CounterLaws = record {
  counts = λ k s. refl;
  counter-incr = λ k s. ground (arith, lookup-insert k k (counter s k + 1) s.numbers, ==_iff k k);
  reads = λ k s n h. ground arith;
  misses = λ k s h. ground arith;
}
