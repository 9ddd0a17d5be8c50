-- ===== src/Redis.antt =====
-- The Redis server, and bson's `dumps` with its inverse, as parameters: what
-- common/src/buttercup/common/sets.py, task_registry.py and maps.py call, with the documented
-- behaviour of each command. A key names one kind of value: the keys of sets, of hashes and of plain
-- values are apart in the program.
use buttercup.Prelude.{
  ℕ, ◌≡◌, String, Bool, not, ◌&&◌, ◌||◌, Option, none, some, List, any, str_eq, if◌then◌else◌,
}

-- What a key is made of.
pub data Field : Type 0 where
  text : String → Field
  number : ℕ → Field
  texts : List String → Field

-- `dumps(…, json_options=CANONICAL_JSON_OPTIONS)` and `json.loads`
pub record Json : Type 0 where
  pub dumps : List Field → String
  pub loads : String → Option (List Field)
  pub loads-dumps : (fields : List Field) → loads (dumps fields) ≡ some fields

-- A set and a member, twice: whether they are the same.
abbrev pub same_pair : String → String → String → String → Bool
same_pair k m k' m' = str_eq k k' && str_eq m m'

abbrev pub is_some {ℓ} : {A : Type ℓ} → Option A → Bool
is_some none = Bool.false
is_some (some _) = Bool.true

-- SADD, SREM and SMOVE return how many members they added, removed or moved.
pub record Redis : Type 1 where
  pub Store : Type 0
  pub Bytes : Type 0
  pub sismember : (key member : String) → Store → Bool
  pub smembers : (key : String) → Store → List String
  pub sadd : (key member : String) → Store → ℕ × Store
  pub srem : (key member : String) → Store → ℕ × Store
  pub smove : (source destination member : String) → Store → ℕ × Store
  pub hget : (key field : String) → Store → Option Bytes
  pub hkeys : (key : String) → Store → List String
  pub hset : (key field : String) → Bytes → Store → Store
  pub hdel : (key field : String) → Store → Store
  pub get : (key : String) → Store → Option Bytes
  pub set : (key : String) → Bytes → Store → Store
  pub smembers-any :
      (k m : String) (s : Store) → any (λ x. str_eq x m) (smembers k s) ≡ sismember k m s
  pub sadd-count : (k m : String) (s : Store) → (sadd k m s).0 ≡ (if sismember k m s then 0 else 1)
  pub sismember-sadd :
      (k m k' m' : String) (s : Store)
      → sismember k' m' (sadd k m s).1 ≡ (same_pair k m k' m' || sismember k' m' s)
  pub srem-count : (k m : String) (s : Store) → (srem k m s).0 ≡ (if sismember k m s then 1 else 0)
  pub sismember-srem :
      (k m k' m' : String) (s : Store)
      → sismember k' m' (srem k m s).1 ≡ (not (same_pair k m k' m') && sismember k' m' s)
  pub smove-count :
      (a b m : String) (s : Store) → (smove a b m s).0 ≡ (if sismember a m s then 1 else 0)
  pub sismember-smove :
      (a b m k' m' : String) (s : Store)
      → sismember k' m' (smove a b m s).1 ≡ (
          if sismember a m s
          then same_pair b m k' m' || (not (same_pair a m k' m') && sismember k' m' s)
          else sismember k' m' s)
  pub hkeys-any :
      (k f : String) (s : Store) → any (λ x. str_eq x f) (hkeys k s) ≡ is_some (hget k f s)
  pub hget-hset :
      (k f : String) (v : Bytes) (k' f' : String) (s : Store)
      → hget k' f' (hset k f v s) ≡ (if same_pair k f k' f' then some v else hget k' f' s)
  pub hget-hdel :
      (k f k' f' : String) (s : Store)
      → hget k' f' (hdel k f s) ≡ (if same_pair k f k' f' then none else hget k' f' s)
  pub sismember-hset :
      (k f : String) (v : Bytes) (k' m' : String) (s : Store)
      → sismember k' m' (hset k f v s) ≡ sismember k' m' s
  pub sismember-hdel :
      (k f k' m' : String) (s : Store) → sismember k' m' (hdel k f s) ≡ sismember k' m' s
  pub hget-sadd : (k m k' f' : String) (s : Store) → hget k' f' (sadd k m s).1 ≡ hget k' f' s
  pub hkeys-sadd : (k m k' : String) (s : Store) → hkeys k' (sadd k m s).1 ≡ hkeys k' s
  pub hget-srem : (k m k' f' : String) (s : Store) → hget k' f' (srem k m s).1 ≡ hget k' f' s
  pub get-set :
      (k : String) (v : Bytes) (k' : String) (s : Store)
      → get k' (set k v s) ≡ (if str_eq k k' then some v else get k' s)
  pub get-sadd : (k m k' : String) (s : Store) → get k' (sadd k m s).1 ≡ get k' s
  pub sismember-set :
      (k : String) (v : Bytes) (k' m' : String) (s : Store)
      → sismember k' m' (set k v s) ≡ sismember k' m' s
  pub hget-set :
      (k : String) (v : Bytes) (k' f' : String) (s : Store) → hget k' f' (set k v s) ≡ hget k' f' s

-- `SerializeToString` and `ParseFromString` of a protobuf message.
pub record Codec (Bytes A : Type 0) : Type 0 where
  pub serialize : A → Bytes
  pub parse : Bytes → A
  pub parse-serialize : (a : A) → parse (serialize a) ≡ a
