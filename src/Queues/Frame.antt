-- ===== src/Queues/Frame.antt =====
-- The hashes of the server while queues are used, of common/src/buttercup/common/queues.py.
use buttercup.Prelude.{
  ℕ, zero, suc, ◌≡◌, refl, ap, ◌∙◌, String, Option, none, some, List, [], ◌∷◌, str_eq, Bool-cases,
  Option-cases, subst, inl, inr,
}
use buttercup.Outcome.{Result, ok, raised}
use buttercup.Redis.{Redis, Codec}
use buttercup.Streams.{Streams, Entry, Apart}
use buttercup.Queues.{
  ReliableQueue, RqItem, Popped, push, ack_item, stream_item, answer_of, pop_within, pop,
}
use buttercup.Queues.Pop.{Told, pop-Kept}

module _ (r : Redis) (x : Streams r.Store r.Bytes) (apart : Apart r x) where
  -- The same hashes.
  pub record SameHashes (s s' : r.Store) : Type 0 where
    pub same : (k f : String) → r.hget k f s' ≡ r.hget k f s

  pub same_refl : (s : r.Store) → SameHashes s s
  same_refl s = record { same = λ k f. refl }

  pub same_trans : (s s' s'' : r.Store) → SameHashes s s' → SameHashes s' s'' → SameHashes s s''
  same_trans s s' s'' a b = record { same = λ k f. b.same k f ∙ a.same k f }

  -- The same hashes and sets.
  pub record SameData (s s' : r.Store) : Type 0 where
    pub same_hashes : SameHashes s s'
    pub same_keys : (k : String) → r.hkeys k s' ≡ r.hkeys k s
    pub same_members : (k : String) → r.smembers k s' ≡ r.smembers k s
    pub same_sets : (k m : String) → r.sismember k m s' ≡ r.sismember k m s

  data_refl : (s : r.Store) → SameData s s
  data_refl s = record {
    same_hashes = same_refl s;
    same_keys = λ k. refl;
    same_members = λ k. refl;
    same_sets = λ k m. refl;
  }

  data_trans : (s s' s'' : r.Store) → SameData s s' → SameData s' s'' → SameData s s''
  data_trans s s' s'' a b = record {
    same_hashes = same_trans s s' s'' a.same_hashes b.same_hashes;
    same_keys = λ k. b.same_keys k ∙ a.same_keys k;
    same_members = λ k. b.same_members k ∙ a.same_members k;
    same_sets = λ k m. b.same_sets k m ∙ a.same_sets k m;
  }

  xreadgroup-SameData :
      (g c q last_id : String) (block : Option ℕ) (s : r.Store)
      → SameData s (x.xreadgroup g c q last_id block s).1
  xreadgroup-SameData g c q last_id block s = record {
    same_hashes = record { same = λ k f. apart.hget-xreadgroup g c q last_id block k f s };
    same_keys = λ k. apart.hkeys-xreadgroup g c q last_id block k s;
    same_members = λ k. apart.smembers-xreadgroup g c q last_id block k s;
    same_sets = λ k m. apart.sismember-xreadgroup g c q last_id block k m s;
  }

  xautoclaim-SameData :
      (q g c : String) (min_idle_time : ℕ) (s : r.Store)
      → SameData s (x.xautoclaim q g c min_idle_time s).1
  xautoclaim-SameData q g c idle s = record {
    same_hashes = record { same = λ k f. apart.hget-xautoclaim q g c idle k f s };
    same_keys = λ k. apart.hkeys-xautoclaim q g c idle k s;
    same_members = λ k. apart.smembers-xautoclaim q g c idle k s;
    same_sets = λ k m. apart.sismember-xautoclaim q g c idle k m s;
  }

  module _ {A : Type 0} (codec : Codec r.Bytes A) where
    pub push-SameHashes :
        (q : ReliableQueue) (a : A) (s : r.Store) → SameHashes s (push x codec q a s)
    unfolding push
    push-SameHashes q a s = record {
      same = λ k f. apart.hget-xadd q.queue_name (codec.serialize a) k f s;
    }

    -- An acknowledgement on a queue with a group returns.
    pub ack_item-SameHashes :
        (q : ReliableQueue) (group i : String) (s : r.Store)
        → q.group_name ≡ some group
        → (s' : r.Store) × (ack_item x codec q i s ≡ ok s') × SameHashes s s'
    unfolding ack_item
    ack_item-SameHashes q group i s h = (
      x.xack q.queue_name group i s,
      ap (λ o. elim o [ none ↦ raised | some g ↦ ok (x.xack q.queue_name g i s) ]) h,
      record { same = λ k f. apart.hget-xack q.queue_name group i k f s },
    )

    -- The rest of `stream_item`, of what was read.
    abbrev chosen :
        ReliableQueue
        → (group : String) → Option (List (List (Entry r.Bytes)))
        → r.Store
        → Option (List (Entry r.Bytes)) × r.Store
    chosen q g found s1 = elim found [
      | some (items ∷ _) ↦ (some items, s1)
      | _ ↦
          let (res, s2) = x.xautoclaim q.queue_name g q.reader_name q.task_timeout_ms s1 in
          (elim res [ some (e ∷ es) ↦ some (e ∷ es) | _ ↦ none ], s2)
    ]

    chosen-SameData :
        (q : ReliableQueue) (g : String) (found : Option (List (List (Entry r.Bytes))))
        (s : r.Store)
        → SameData s (chosen q g found s).1
    chosen-SameData q g none s =
        xautoclaim-SameData q.queue_name g q.reader_name q.task_timeout_ms s
    chosen-SameData q g (some []) s =
        xautoclaim-SameData q.queue_name g q.reader_name q.task_timeout_ms s
    chosen-SameData q g (some (items ∷ rest)) s = data_refl s

    stream_item-SameData :
        (q : ReliableQueue) (g : String) (s : r.Store) → SameData s (stream_item x codec q g s).1
    unfolding stream_item
    stream_item-SameData q g s =
        let read = x.xreadgroup g q.reader_name q.queue_name q.last_stream_id q.block_time s in
        data_trans s read.1 (chosen q g read.0 read.1).1
          (xreadgroup-SameData g q.reader_name q.queue_name q.last_stream_id q.block_time s)
          (chosen-SameData q g read.0 read.1)

    -- Of an answer, if there is one.
    abbrev pub Leaves : r.Store → Option (Popped x codec) → Type 0
    Leaves s none = Unit
    Leaves s (some out) = SameData s out.store

    after_Leaves :
        (s s' : r.Store) (o : Option (Popped x codec)) → SameData s s' → Leaves s' o → Leaves s o
    after_Leaves s s' none h l = tt
    after_Leaves s s' (some out) h l = data_trans s s' out.store h l

    answer_of-Leaves :
        (q : ReliableQueue) (again : r.Store → Option (Popped x codec)) (s : r.Store)
        (items : Option (List (Entry r.Bytes))) (s' : r.Store)
        → ((s'' : r.Store) → Leaves s'' (again s''))
        → SameData s s'
        → Leaves s (answer_of x codec q again (items, s'))
    answer_of-Leaves q again s none s' f h = h
    answer_of-Leaves q again s (some (e ∷ es)) s' f h = h
    answer_of-Leaves q again s (some []) s' f h = elim (Bool-cases (str_eq q.last_stream_id ">")) [
      | inl e ↦ rw (e, answer_of) h
      | inr e ↦ rw (e, answer_of) (after_Leaves s s' (again s') h (f s'))
    ]

    pop_within-Leaves :
        (n : ℕ) (q : ReliableQueue) (g : String) (s : r.Store)
        → Leaves s (pop_within x codec n q g s)
    unfolding pop_within
    pop_within-Leaves zero q g s = tt
    pop_within-Leaves (suc n) q g s =
        let found = stream_item x codec q g s in
        answer_of-Leaves q (λ s'. pop_within x codec n (record q { last_stream_id = ">" }) g s') s
          found.0 found.1 (λ s''. pop_within-Leaves n (record q { last_stream_id = ">" }) g s'')
          (stream_item-SameData q g s)

    pub pop-Leaves : (q : ReliableQueue) (s : r.Store) → Leaves s (pop x codec q s)
    unfolding pop
    pop-Leaves q s = elim (Option-cases q.group_name) [
      | inl e ↦ rw (e, pop) (data_refl s)
      | inr (g, e) ↦ rw (e, pop) (pop_within-Leaves 2 q g s)
    ]

    Told-ok :
        (a : Result (Option (RqItem A))) (w p : List (Entry r.Bytes))
        → Told x codec a w p
        → (item : Option (RqItem A)) × (a ≡ ok item)
    Told-ok raised w p h = absurd h
    Told-ok (ok item) w p h = (item, refl)

    -- A call of `pop` on a queue with a group returns an item or none, and leaves the hashes.
    pub pop-SameHashes :
        (q : ReliableQueue) (group : String) (s : r.Store)
        → q.group_name ≡ some group
        → (item : Option (RqItem A)) × (q' : ReliableQueue) × (s' : r.Store) × (pop x codec q s
            ≡ some (record { answer = ok item; queue = q'; store = s' }))
          × (q'.group_name ≡ some group)
          × SameHashes s s'
    pop-SameHashes q group s h =
        let (out, e, kept) = pop-Kept x codec q group s h in
        let leaves : Leaves s (some out) = subst (Leaves s) e (pop-Leaves q s) in
        let (item, is_ok) =
          Told-ok out.answer (x.waiting q.queue_name group s)
            (x.pending q.queue_name group out.store) kept.told in
        (
          item,
          out.queue,
          out.store,
          e ∙ ap (λ a. some (record { answer = a; queue = out.queue; store = out.store })) is_ok,
          kept.same_group ∙ h,
          leaves.same_hashes,
        )
