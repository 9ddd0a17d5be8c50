-- ===== src/Tests/MemoryRedis.antt =====
-- A Redis server that keeps its sets and hashes, and the entries of one stream, in lists, with the laws
-- of sets and hashes; and an encoding of keys.
pub mod Keys
use buttercup.Prelude.{
  ℕ, ◌≡◌, refl, sym, ap, ◌∙◌, String, Bool, true, false, not, ◌&&◌, ◌||◌, Option, none, some, List,
  [], ◌∷◌, any, arith, eq_iff, str_eq, if◌then◌else◌,
}
use buttercup.Streams.{Entry}
use buttercup.Redis.{Redis, Codec, same_pair, is_some}

-- The members of all sets, each with the key of its set.
abbrev Members : Type 0
Members = List (String × String)

abbrev has : String → String → Members → Bool
has k m [] = false
has k m ((a, b) ∷ xs) = same_pair a b k m || has k m xs

abbrev without : String → String → Members → Members
without k m [] = []
without k m ((a, b) ∷ xs) =
    let rest = without k m xs in if same_pair a b k m then rest else (a, b) ∷ rest

abbrev members : String → Members → List String
members k [] = []
members k ((a, b) ∷ xs) = let rest = members k xs in if str_eq a k then b ∷ rest else rest

pub has-without :
    (k m k' m' : String) (xs : Members)
    → has k' m' (without k m xs) ≡ (not (same_pair k m k' m') && has k' m' xs)
has-without k m k' m' [] = ground arith
has-without k m k' m' ((a, b) ∷ xs) = ground (
  arith,
  has-without k m k' m' xs,
  eq_iff a k,
  eq_iff b m,
  eq_iff a k',
  eq_iff b m',
  eq_iff k k',
  eq_iff m m',
)

pub members-has : (k m : String) (xs : Members) → any (λ x. str_eq x m) (members k xs) ≡ has k m xs
members-has k m [] = refl
members-has k m ((a, b) ∷ xs) = ground (arith, members-has k m xs)

-- The fields of all hashes.
abbrev Fields : Type 0 → Type 0
Fields B = List ((String × String) × B)

module _ {B : Type 0} where
  abbrev look : String → String → Fields B → Option B
  look k f [] = none
  look k f (((a, b), v) ∷ xs) = if same_pair a b k f then some v else look k f xs

  abbrev erase : String → String → Fields B → Fields B
  erase k f [] = []
  erase k f (((a, b), v) ∷ xs) =
      let rest = erase k f xs in if same_pair a b k f then rest else ((a, b), v) ∷ rest

  abbrev names : String → Fields B → List String
  names k [] = []
  names k (((a, b), v) ∷ xs) = let rest = names k xs in if str_eq a k then b ∷ rest else rest

  pub look-erase :
      (k f k' f' : String) (xs : Fields B)
      → look k' f' (erase k f xs) ≡ (if same_pair k f k' f' then none else look k' f' xs)
  look-erase k f k' f' [] = ground arith
  look-erase k f k' f' (((a, b), v) ∷ xs) = ground (
    arith,
    look-erase k f k' f' xs,
    eq_iff a k,
    eq_iff b f,
    eq_iff a k',
    eq_iff b f',
    eq_iff k k',
    eq_iff f f',
  )

  pub names-look :
      (k f : String) (xs : Fields B) → any (λ x. str_eq x f) (names k xs) ≡ is_some (look k f xs)
  names-look k f [] = refl
  names-look k f (((a, b), v) ∷ xs) = ground (arith, names-look k f xs)

pub get-set_self :
    {B : Type 0} (k : String) (v : B) (k' : String) (xs : Fields B)
    → look k' "" (((k, ""), v) ∷ erase k "" xs) ≡ (if str_eq k k' then some v else look k' "" xs)
get-set_self k v k' xs = ground (arith, look-erase k "" k' "" xs)

pub record Memory (B : Type 0) : Type 0 where
  pub sets : Members
  pub hashes : Fields B
  pub values : Fields B
  pub waiting : List (Entry B)
  pub pending : List (Entry B)
  pub next_id : ℕ

abbrev pub empty : {B : Type 0} → Memory B
empty = record { sets = []; hashes = []; values = []; waiting = []; pending = []; next_id = 0 }

module _ {B : Type 0} where
  abbrev add : String → String → Memory B → ℕ × Memory B
  add k m s = (
    if has k m s.sets then 0 else 1,
    record s { sets = if has k m s.sets then s.sets else (k, m) ∷ s.sets },
  )

  abbrev move : String → String → String → Memory B → ℕ × Memory B
  move a b m s = (
    if has a m s.sets then 1 else 0,
    record s {
      sets = if has a m s.sets then (b, m) ∷ without b m (without a m s.sets) else s.sets;
    },
  )

abbrev pub memory_redis : Type 0 → Redis
memory_redis B = record {
  Store = Memory B;
  Bytes = B;
  sismember = λ k m s. has k m s.sets;
  smembers = λ k s. members k s.sets;
  sadd = add;
  srem = λ k m s. (if has k m s.sets then 1 else 0, record s { sets = without k m s.sets });
  smove = move;
  hget = λ k f s. look k f s.hashes;
  hkeys = λ k s. names k s.hashes;
  hset = λ k f v s. record s { hashes = ((k, f), v) ∷ erase k f s.hashes };
  hdel = λ k f s. record s { hashes = erase k f s.hashes };
  get = λ k s. look k "" s.values;
  set = λ k v s. record s { values = ((k, ""), v) ∷ erase k "" s.values };
  smembers-any = λ k m s. members-has k m s.sets;
  sadd-count = λ k m s. refl;
  sismember-sadd = λ k m k' m' s. ground (arith, eq_iff k k', eq_iff m m');
  srem-count = λ k m s. refl;
  sismember-srem = λ k m k' m' s. has-without k m k' m' s.sets;
  smove-count = λ a b m s. refl;
  sismember-smove = λ a b m k' m' s.
      ground (arith, has-without a m k' m' s.sets, has-without b m k' m' (without a m s.sets));
  hkeys-any = λ k f s. names-look k f s.hashes;
  hget-hset = λ k f v k' f' s. ground (arith, look-erase k f k' f' s.hashes);
  hget-hdel = λ k f k' f' s. look-erase k f k' f' s.hashes;
  sismember-hset = λ k f v k' m' s. refl;
  sismember-hdel = λ k f k' m' s. refl;
  hget-sadd = λ k m k' f' s. refl;
  hkeys-sadd = λ k m k' s. refl;
  hget-srem = λ k m k' f' s. refl;
  get-set = λ k v k' s. get-set_self k v k' s.values;
  get-sadd = λ k m k' s. refl;
  sismember-set = λ k v k' m' s. refl;
  hget-set = λ k v k' f' s. refl;
}

-- Messages stored as they are.
abbrev pub plain_codec : {A : Type 0} → Codec A A
plain_codec = record { serialize = λ a. a; parse = λ a. a; parse-serialize = λ a. refl }
