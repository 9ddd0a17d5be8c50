-- ===== src/Tests/MemoryStreams.antt =====
-- The small Redis server has one stream and one group, whatever their names.
use buttercup.Prelude.{
  ℕ, zero, suc, ◌≡◌, refl, ap, ◌∙◌, String, true, false, not, Option, some, List, [], ◌∷◌, ◌++◌,
  filter, take, arith, eq_iff, str_eq, ◌≢◌, Bool-cases, inl, inr,
}
use buttercup.Prelude.All.{All}
use mathlib.Core.List.{Mem, mem-cons_self}
use buttercup.Streams.{Streams, Entry, Apart}
use buttercup.Tests.MemoryRedis.{Memory, memory_redis}

-- An id for each number.
abbrev pub numeral : ℕ → String
numeral zero = "0"
numeral (suc n) = String.◌∷◌ "1" (numeral n)

module _ {B : Type 0} where
  abbrev add : B → Memory B → String × Memory B
  add b s = (
    numeral s.next_id,
    record s {
      waiting = s.waiting ++ (record { message_id = numeral s.next_id; item = b } ∷ []);
      next_id = suc s.next_id;
    },
  )

  abbrev read_new : List (Entry B) → Memory B → Option (List (List (Entry B))) × Memory B
  read_new [] s = (some [], s)
  read_new (e ∷ es) s =
      (some ((e ∷ []) ∷ []), record s { waiting = es; pending = s.pending ++ (e ∷ []) })

  abbrev read : String → Memory B → Option (List (List (Entry B))) × Memory B
  read last_id s = elim (str_eq last_id ">") [
    | true ↦ read_new s.waiting s
    | false ↦ (some (take 1 s.pending ∷ []), s)
  ]

  pub read-new :
      (last_id : String) (s : Memory B) → last_id ≡ ">" → read last_id s ≡ read_new s.waiting s
  read-new last_id s h = ground (arith, eq_iff last_id ">")

  pub read-history :
      (last_id : String) (s : Memory B)
      → last_id ≢ ">"
      → read last_id s ≡ (some (take 1 s.pending ∷ []), s)
  read-history last_id s h = ground (arith, eq_iff last_id ">")

  pub first-All : (es : List (Entry B)) → All (λ e. Mem e es) (take 1 es)
  first-All [] = tt
  first-All (e ∷ es) = (mem-cons_self, tt)

pub read_new-hashes :
    {B : Type 0} (k f : String) (es : List (Entry B)) (s : Memory B)
    → (memory_redis B).hget k f (read_new es s).1 ≡ (memory_redis B).hget k f s
read_new-hashes k f [] s = refl
read_new-hashes k f (e ∷ es) s = refl

pub read_new-sismember :
    {B : Type 0} (k m : String) (es : List (Entry B)) (s : Memory B)
    → (memory_redis B).sismember k m (read_new es s).1 ≡ (memory_redis B).sismember k m s
read_new-sismember k m [] s = refl
read_new-sismember k m (e ∷ es) s = refl

pub read_new-smembers :
    {B : Type 0} (k : String) (es : List (Entry B)) (s : Memory B)
    → (memory_redis B).smembers k (read_new es s).1 ≡ (memory_redis B).smembers k s
read_new-smembers k [] s = refl
read_new-smembers k (e ∷ es) s = refl

pub read_new-hkeys :
    {B : Type 0} (k : String) (es : List (Entry B)) (s : Memory B)
    → (memory_redis B).hkeys k (read_new es s).1 ≡ (memory_redis B).hkeys k s
read_new-hkeys k [] s = refl
read_new-hkeys k (e ∷ es) s = refl

abbrev pub memory_streams : (B : Type 0) → Streams (Memory B) B
memory_streams B = record {
  waiting = λ q g s. s.waiting;
  pending = λ q g s. s.pending;
  xlen = λ q s. s.next_id;
  xadd = λ q b s. add b s;
  xreadgroup = λ g c q last_id block s. read last_id s;
  xautoclaim = λ q g c idle s. (some (take 1 s.pending), s);
  xack = λ q g i s. record s { pending = filter (λ e. not (str_eq e.message_id i)) s.pending };
  xpending_range = λ q g i s. some (1 ∷ []);
  xclaim = λ q g c idle i s. s;
  waiting-xadd = λ q g b s. refl;
  pending-xadd = λ q g b s. refl;
  xreadgroup-empty = λ g c q last_id block s h w.
      let e = read-new last_id s h ∙ ap (λ l. read_new l s) w in
      (ap (λ o. o.0) e, ap (λ o. o.1.waiting) e, ap (λ o. o.1.pending) e);
  xreadgroup-first = λ g c q last_id block s e rest h w.
      let same = read-new last_id s h ∙ ap (λ l. read_new l s) w in
      (ap (λ o. o.0) same, ap (λ o. o.1.waiting) same, ap (λ o. o.1.pending) same);
  xreadgroup-history = λ g c q last_id block s h.
      let e = read-history last_id s h in
      (
        (take 1 s.pending, ap (λ o. o.0) e, first-All s.pending),
        ap (λ o. o.1.waiting) e,
        ap (λ o. o.1.pending) e,
      );
  xautoclaim-pending = λ q g c idle s. ((take 1 s.pending, refl, first-All s.pending), refl, refl);
  waiting-xack = λ q g i s. refl;
  pending-xack = λ q g i s. refl;
  waiting-xclaim = λ q g c idle i s. refl;
  pending-xclaim = λ q g c idle i s. refl;
}

abbrev pub memory_apart : (B : Type 0) → Apart (memory_redis B) (memory_streams B)
memory_apart B = record {
  sismember-xack = λ q g i k m s. refl;
  pending-sadd = λ q g k m s. refl;
  hget-xadd = λ q b k f s. refl;
  hget-xreadgroup = λ g c q last_id block k f s. elim (Bool-cases (str_eq last_id ">")) [
    | inl new ↦ rw (new, read) (read_new-hashes k f s.waiting s)
    | inr old ↦ rw (old, read) refl
  ];
  hget-xautoclaim = λ q g c idle k f s. refl;
  hget-xack = λ q g i k f s. refl;
  waiting-sadd = λ q g k m s. refl;
  sismember-xreadgroup = λ g c q last_id block k m s. elim (Bool-cases (str_eq last_id ">")) [
    | inl new ↦ rw (new, read) (read_new-sismember k m s.waiting s)
    | inr old ↦ rw (old, read) refl
  ];
  sismember-xautoclaim = λ q g c idle k m s. refl;
  smembers-xreadgroup = λ g c q last_id block k s. elim (Bool-cases (str_eq last_id ">")) [
    | inl new ↦ rw (new, read) (read_new-smembers k s.waiting s)
    | inr old ↦ rw (old, read) refl
  ];
  smembers-xautoclaim = λ q g c idle k s. refl;
  hkeys-xreadgroup = λ g c q last_id block k s. elim (Bool-cases (str_eq last_id ">")) [
    | inl new ↦ rw (new, read) (read_new-hkeys k s.waiting s)
    | inr old ↦ rw (old, read) refl
  ];
  hkeys-xautoclaim = λ q g c idle k s. refl;
}
