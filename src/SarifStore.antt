-- ===== src/SarifStore.antt =====
-- `SARIFStore` of common/src/buttercup/common/sarif_store.py, and what
-- orchestrator/src/buttercup/orchestrator/task_server/backend.py stores there. The lists of the Redis
-- server, its keys, and pydantic's JSON of a report are parameters; the contents of a report are of a
-- type `Value`.
pub mod Reports
use buttercup.Prelude.{ℕ, ◌≡◌, String, List, [], ◌∷◌, ◌++◌, map, str_eq, length, ltb, if◌then◌else◌}
use Prim.Native.String.{◌++◌ as text_append}
use buttercup.Redis.{Codec}

pub record SarifBroadcastDetail (Value : Type 0) : Type 0 where
  pub metadata : Value
  pub sarif : Value
  pub sarif_id : String
  pub task_id : String

pub record SarifBroadcast (Value : Type 0) : Type 0 where
  pub broadcasts : List (SarifBroadcastDetail Value)
  pub message_id : String
  pub message_time : ℕ

-- RPUSH, LRANGE from 0 to -1, DEL and KEYS. A key without a list reads as an empty one, and DEL tells
-- how many keys it removed.
pub record RedisLists (Store : Type 0) : Type 0 where
  pub rpush : (key value : String) → Store → Store
  pub lrange : (key : String) → Store → List String
  pub delete : (key : String) → Store → ℕ × Store
  pub keys : (pattern : String) → Store → List String
  pub lrange-rpush :
      (k v k' : String) (s : Store)
      → lrange k' (rpush k v s) ≡ (if str_eq k k' then lrange k' s ++ (v ∷ []) else lrange k' s)
  pub lrange-delete :
      (k k' : String) (s : Store)
      → lrange k' (delete k s).1 ≡ (if str_eq k k' then [] else lrange k' s)
  pub delete-count :
      (k : String) (s : Store) → (delete k s).0 ≡ (if ltb 0 (length (lrange k s)) then 1 else 0)

module _ {Store Value : Type 0} (l : RedisLists Store)
    (json : Codec String (SarifBroadcastDetail Value)) (lower : String → String) where
  unfoldable pub get_key : String → String
  get_key task_id = text_append "sarif:" (lower task_id)

  unfoldable pub store : SarifBroadcastDetail Value → Store → Store
  unfolding get_key
  store d s = l.rpush (get_key d.task_id) (json.serialize d) s

  abbrev pub reports_of : List String → Store → List (SarifBroadcastDetail Value)
  reports_of [] s = []
  reports_of (key ∷ keys) s = map json.parse (l.lrange key s) ++ reports_of keys s

  unfoldable pub get_all : Store → List (SarifBroadcastDetail Value)
  get_all s = reports_of (l.keys "sarif:*" s) s

  unfoldable pub get_by_task_id : String → Store → List (SarifBroadcastDetail Value)
  unfolding get_key
  get_by_task_id task_id s = map json.parse (l.lrange (get_key task_id) s)

  unfoldable pub delete_by_task_id : String → Store → ℕ × Store
  unfolding get_key
  delete_by_task_id task_id s = l.delete (get_key task_id) s

  abbrev pub store_all : List (SarifBroadcastDetail Value) → Store → Store
  store_all [] s = s
  store_all (d ∷ ds) s = store_all ds (store d s)

  unfoldable pub store_sarif_broadcast : SarifBroadcast Value → Store → Store
  store_sarif_broadcast b s = store_all b.broadcasts s
