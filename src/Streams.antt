-- ===== src/Streams.antt =====
-- The streams of the Redis server with their consumer groups, as a parameter: what
-- common/src/buttercup/common/queues.py calls, with the documented behaviour of each command. For
-- the proofs a store has, for each stream and group, the entries that no consumer of the group was
-- given, and those that one was given and did not acknowledge, each list in the order of the ids. No
-- entry is ever deleted by the program. The idle times of entries are part of the store.
use buttercup.Prelude.{ℕ, ◌≡◌, ◌≢◌, String, not, Option, some, List, [], ◌∷◌, ◌++◌, filter, str_eq}
use buttercup.Prelude.All.{All}
use mathlib.Core.List.{Mem}
use buttercup.Redis.{Redis}

-- An id, and what stands under the field "item".
pub record Entry (Bytes : Type 0) : Type 0 where
  pub message_id : String
  pub item : Bytes

pub record Streams (Store Bytes : Type 0) : Type 0 where
  pub waiting : (queue group : String) → Store → List (Entry Bytes)
  pub pending : (queue group : String) → Store → List (Entry Bytes)
  pub xlen : (queue : String) → Store → ℕ
  pub xadd : (queue : String) → Bytes → Store → String × Store
  -- For the one stream that is asked for, its name is left out.
  pub xreadgroup :
      (group reader queue last_id : String) (block : Option ℕ)
      → Store
      → Option (List (List (Entry Bytes))) × Store
  pub xautoclaim :
      (queue group reader : String) (min_idle_time : ℕ)
      → Store
      → Option (List (Entry Bytes)) × Store
  pub xack : (queue group item_id : String) → Store → Store
  -- How often the entries that were found have been delivered.
  pub xpending_range : (queue group item_id : String) → Store → Option (List ℕ)
  pub xclaim : (queue group reader : String) (min_idle_time : ℕ) (item_id : String) → Store → Store
  pub waiting-xadd :
      (q g : String) (b : Bytes) (s : Store)
      → let (i, s') = xadd q b s in
        waiting q g s' ≡ waiting q g s ++ (record { message_id = i; item = b } ∷ [])
  pub pending-xadd :
      (q g : String) (b : Bytes) (s : Store) → pending q g (xadd q b s).1 ≡ pending q g s
  -- A read of new entries with COUNT 1.
  pub xreadgroup-empty :
      (g c q last_id : String) (block : Option ℕ) (s : Store)
      → last_id ≡ ">"
      → waiting q g s ≡ []
      → let (found, s') = xreadgroup g c q last_id block s in
        (found ≡ some []) × (waiting q g s' ≡ waiting q g s) × (pending q g s' ≡ pending q g s)
  pub xreadgroup-first :
      (g c q last_id : String) (block : Option ℕ) (s : Store) (e : Entry Bytes)
      (rest : List (Entry Bytes))
      → last_id ≡ ">"
      → waiting q g s ≡ e ∷ rest
      → let (found, s') = xreadgroup g c q last_id block s in
        (found ≡ some ((e ∷ []) ∷ []))
        × (waiting q g s' ≡ rest)
        × (pending q g s' ≡ pending q g s ++ (e ∷ []))
  -- A read of the entries that this consumer was given already.
  pub xreadgroup-history :
      (g c q last_id : String) (block : Option ℕ) (s : Store)
      → last_id ≢ ">"
      → let (found, s') = xreadgroup g c q last_id block s in
        ((own : List (Entry Bytes)) × (found ≡ some (own ∷ []))
          × All (λ e. Mem e (pending q g s)) own)
        × (waiting q g s' ≡ waiting q g s)
        × (pending q g s' ≡ pending q g s)
  pub xautoclaim-pending :
      (q g c : String) (min_idle_time : ℕ) (s : Store)
      → let (found, s') = xautoclaim q g c min_idle_time s in
        ((claimed : List (Entry Bytes)) × (found ≡ some claimed)
          × All (λ e. Mem e (pending q g s)) claimed)
        × (waiting q g s' ≡ waiting q g s)
        × (pending q g s' ≡ pending q g s)
  pub waiting-xack : (q g i : String) (s : Store) → waiting q g (xack q g i s) ≡ waiting q g s
  pub pending-xack :
      (q g i : String) (s : Store)
      → pending q g (xack q g i s) ≡ filter (λ e. not (str_eq e.message_id i)) (pending q g s)
  pub waiting-xclaim :
      (q g c : String) (min_idle_time : ℕ) (i : String) (s : Store)
      → waiting q g (xclaim q g c min_idle_time i s) ≡ waiting q g s
  pub pending-xclaim :
      (q g c : String) (min_idle_time : ℕ) (i : String) (s : Store)
      → pending q g (xclaim q g c min_idle_time i s) ≡ pending q g s

-- On one server the commands on streams leave the sets and hashes alone, and SADD the streams.
pub record Apart (r : Redis) (x : Streams r.Store r.Bytes) : Type 0 where
  pub sismember-xack :
      (q g i k m : String) (s : r.Store) → r.sismember k m (x.xack q g i s) ≡ r.sismember k m s
  pub pending-sadd :
      (q g k m : String) (s : r.Store) → x.pending q g (r.sadd k m s).1 ≡ x.pending q g s
  pub hget-xadd :
      (q : String) (b : r.Bytes) (k f : String) (s : r.Store)
      → r.hget k f (x.xadd q b s).1 ≡ r.hget k f s
  pub hget-xreadgroup :
      (g c q last_id : String) (block : Option ℕ) (k f : String) (s : r.Store)
      → r.hget k f (x.xreadgroup g c q last_id block s).1 ≡ r.hget k f s
  pub hget-xautoclaim :
      (q g c : String) (min_idle_time : ℕ) (k f : String) (s : r.Store)
      → r.hget k f (x.xautoclaim q g c min_idle_time s).1 ≡ r.hget k f s
  pub hget-xack : (q g i k f : String) (s : r.Store) → r.hget k f (x.xack q g i s) ≡ r.hget k f s
  pub waiting-sadd :
      (q g k m : String) (s : r.Store) → x.waiting q g (r.sadd k m s).1 ≡ x.waiting q g s
  pub sismember-xreadgroup :
      (g c q last_id : String) (block : Option ℕ) (k m : String) (s : r.Store)
      → r.sismember k m (x.xreadgroup g c q last_id block s).1 ≡ r.sismember k m s
  pub sismember-xautoclaim :
      (q g c : String) (min_idle_time : ℕ) (k m : String) (s : r.Store)
      → r.sismember k m (x.xautoclaim q g c min_idle_time s).1 ≡ r.sismember k m s
  pub smembers-xreadgroup :
      (g c q last_id : String) (block : Option ℕ) (k : String) (s : r.Store)
      → r.smembers k (x.xreadgroup g c q last_id block s).1 ≡ r.smembers k s
  pub smembers-xautoclaim :
      (q g c : String) (min_idle_time : ℕ) (k : String) (s : r.Store)
      → r.smembers k (x.xautoclaim q g c min_idle_time s).1 ≡ r.smembers k s
  pub hkeys-xreadgroup :
      (g c q last_id : String) (block : Option ℕ) (k : String) (s : r.Store)
      → r.hkeys k (x.xreadgroup g c q last_id block s).1 ≡ r.hkeys k s
  pub hkeys-xautoclaim :
      (q g c : String) (min_idle_time : ℕ) (k : String) (s : r.Store)
      → r.hkeys k (x.xautoclaim q g c min_idle_time s).1 ≡ r.hkeys k s
