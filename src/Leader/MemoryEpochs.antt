-- ===== src/Leader/MemoryEpochs.antt =====
-- control_plane/store/memory.go as the durable store of epochs that the electors use.
use flux_forge.Base.{ℕ, ◌+◌, some, string_eq, arith}
use flux_forge.Base.Dict.{lookup-insert_self}
use flux_forge.Store.Memory.{MemoryStore, increment_durable_epoch, get_durable_epoch}
use flux_forge.Leader.{EpochStore, election_resource}
use flux_forge.Leader.Fencing.{IsMonotone}

abbrev pub memory_epochs : EpochStore MemoryStore
memory_epochs = record {
  increment_durable_epoch =
      λ resource s. let (s', epoch) = increment_durable_epoch resource s in (s', some epoch);
  get_durable_epoch = λ resource s. some (get_durable_epoch resource s);
}

-- The durable epoch of elections.
abbrev pub durable : MemoryStore → ℕ
durable s = get_durable_epoch election_resource s

-- The in-memory store implements the durable epochs: an increment returns the old epoch plus one and stores it, and a read returns what is stored.
pub memory_epochs-IsMonotone : IsMonotone memory_epochs durable
unfolding increment_durable_epoch get_durable_epoch
memory_epochs-IsMonotone = record {
  raised =
      λ d d' n h. ground (arith, h, lookup-insert_self election_resource (durable d + 1) d.epochs);
  refused = λ d d' h. ground arith;
  read = λ d n h. ground arith;
}
