-- ===== src/Leader/Fencing.antt =====
-- The epochs with which nodes are elected, over every interleaving of their ticks.
use flux_forge.Base.{
  ℕ, suc, ◌≤◌, ◌<◌, String, true, Option, none, some, List, [], ◌∷◌, ◌≡◌, ◌∙◌, ap, string_eq, arith,
  All, get_elem?, set, lt→ltb,
}
use flux_forge.Leader.{
  LockMetadata, Coordinator, EpochStore, Loop, Callback, elected, election_resource, tick,
  follower_tick, acquire, acquire_with,
}
use flux_forge.Leader.Janitor.{is_fenced}

-- What the durable store promises: the epoch goes up by one, and an error never takes it back.
pub record IsMonotone {D : Type 0} (epochs : EpochStore D) (durable : D → ℕ) : Type 0 where
  pub raised :
      (d d' : D) (n : ℕ)
      → epochs.increment_durable_epoch election_resource d ≡ (d', some n)
      → (n ≡ suc (durable d)) × (durable d' ≡ n)
  pub refused :
      (d d' : D)
      → epochs.increment_durable_epoch election_resource d ≡ (d', none)
      → durable d ≤ durable d'
  pub read : (d : D) (n : ℕ) → epochs.get_durable_epoch election_resource d ≡ some n → n ≡ durable d

-- The nodes with their coordinator and store, and the epochs of the elections, latest first.
pub record Cluster (C D : Type 0) : Type 0 where
  pub loops : List Loop
  pub coordination : C
  pub durable_store : D
  pub elections : List ℕ

unfoldable pub IsDescending : List ℕ → Type 0
IsDescending [] = Unit
IsDescending (e ∷ es) = All (λ f. f < e) es × IsDescending es

abbrev pub note : Callback → List ℕ → List ℕ
note (elected e) es = e ∷ es
note _ es = es

-- The timer of the i-th node fires.
pub record Round : Type 0 where
  pub node : ℕ
  pub now : ℕ
  pub req_id : String

module _ {C D : Type 0} (coordinator : Coordinator C) (epochs : EpochStore D)
    (marshal : LockMetadata → String) where
  advance : Round → Cluster C D → Option Loop → Cluster C D
  advance e w none = w
  advance e w (some s) =
      let (s', c', d', callback) =
        tick coordinator epochs marshal e.now e.req_id s w.coordination w.durable_store in
      record {
        loops = set w.loops e.node s';
        coordination = c';
        durable_store = d';
        elections = note callback w.elections;
      }

  unfoldable pub rounds : List Round → Cluster C D → Cluster C D
  unfolding advance
  rounds [] w = w
  rounds (e ∷ es) w = rounds es (advance e w (get_elem? w.loops e.node))

  module _ (durable : D → ℕ) (monotone : IsMonotone epochs durable) where
    -- The callback of a tick is no election, or one with the new durable epoch.
    IsSound : D → Loop × C × D × Callback → Type 0
    IsSound d (_, _, d', callback) =
        (durable d ≤ durable d') × All (λ e. (durable d < e) × (e ≡ durable d')) (note callback [])

    IsFenced : Cluster C D → Type 0
    IsFenced w = All (λ e. e ≤ durable w.durable_store) w.elections × IsDescending w.elections

    -- An attempt of a follower that raises the durable epoch, elected or not, makes every lock whose epoch was not above the durable one before, the current leader's own lock among them, one that the janitor takes for fenced. The durable store keeps its promises.
    pub follower_outdates :
        (now : ℕ) (req_id : String) (s : Loop) (c : C) (d d' : D) (n m : ℕ) (meta : LockMetadata)
        → epochs.increment_durable_epoch election_resource d ≡ (d', some n)
        → epochs.get_durable_epoch election_resource
            (follower_tick coordinator epochs marshal now req_id s c d).2
          ≡ some m
        → meta.epoch ≤ durable d
        → is_fenced m meta ≡ true
    unfolding follower_tick acquire acquire_with is_fenced
    follower_outdates now req_id s c d d' n m meta g r old =
        let (next, raised) = monotone.raised d d' n g in
        let seen = monotone.read _ m r in
        let kept : durable (follower_tick coordinator epochs marshal now req_id s c d).2 ≡ n =
          rw (g, acquire_with) (ap (λ x. durable x.0) g ∙ raised) in
        lt→ltb meta.epoch m (omega (arith, next, seen, kept))
