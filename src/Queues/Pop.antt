-- ===== src/Queues/Pop.antt =====
-- What `pop` does to the entries of a queue, of common/src/buttercup/common/queues.py.
use buttercup.Prelude.{
  ℕ, suc, ◌≡◌, ◌≢◌, refl, sym, ap, ◌∙◌, subst, String, true, false, Option, none, some, List, [],
  ◌∷◌, ◌++◌, arith, eq_iff, str_eq, List-cases, Bool-cases, inl, inr,
}
use buttercup.Prelude.All.{All}
use mathlib.Core.List.{
  Mem, Perm, mem-append_right, mem-cons_self, perm_middle, append-nil, head-eq_of_cons-eq,
}
use mathlib.Core.List.Perm
use buttercup.Outcome.{Result, ok, raised}
use buttercup.Redis.{Codec}
use buttercup.Streams.{Streams, Entry}
use buttercup.Queues.{
  RqItem, ReliableQueue, stream_item, item_of, answer_of, Popped, pop_within, pop,
}

module _ {Store Bytes A : Type 0} (x : Streams Store Bytes) (codec : Codec Bytes A) where
  open x use {waiting, pending, xreadgroup, xautoclaim}

  -- What an answer tells about the entries before and after the call.
  abbrev pub Told :
      Result (Option (RqItem A)) → (before_waiting after_pending : List (Entry Bytes)) → Type 0
  Told raised w p = ⊥
  Told (ok none) w p = w ≡ []
  Told (ok (some item)) w p = (e : Entry Bytes) × (item ≡ item_of x codec e) × Mem e p

  pub record Kept (q : ReliableQueue) (g : String) (s : Store) (out : Popped x codec) : Type 0 where
    pub told : Told out.answer (waiting q.queue_name g s) (pending q.queue_name g out.store)
    pub entries :
        Perm
          (waiting q.queue_name g out.store ++ pending q.queue_name g out.store)
          (waiting q.queue_name g s ++ pending q.queue_name g s)
    pub same_name : out.queue.queue_name ≡ q.queue_name
    pub same_group : out.queue.group_name ≡ q.group_name
    pub in_order :
        (e : Entry Bytes) (rest : List (Entry Bytes))
        → q.last_stream_id ≡ ">"
        → waiting q.queue_name g s ≡ e ∷ rest
        → out.answer ≡ ok (some (item_of x codec e))

  abbrev Finished : (fuel : ℕ) → ReliableQueue → String → Store → Type 0
  Finished fuel q g s =
      (out : Popped x codec) × (pop_within x codec fuel q g s ≡ some out) × Kept q g s out

  nil_ne_cons : {e : Entry Bytes} {es : List (Entry Bytes)} → [] ≢ e ∷ es
  nil_ne_cons h = cc

  first_known :
      (P : Entry Bytes → Type 0) {e : Entry Bytes} {es xs : List (Entry Bytes)}
      → xs ≡ e ∷ es
      → All P xs
      → P e
  first_known P h known = (subst (All P) h known).0

  abbrev again : ℕ → ReliableQueue → String → Store → Option (Popped x codec)
  again n q g s = pop_within x codec n (record q { last_stream_id = ">" }) g s

  true_ne_false : true ≢ false
  true_ne_false h = cc

  read_again :
      (q : ReliableQueue) (f : Store → Option (Popped x codec)) (s : Store)
      → q.last_stream_id ≢ ">"
      → answer_of x codec q f (some [], s) ≡ f s
  read_again q f s h = ground (arith, eq_iff q.last_stream_id ">")

  delivered_perm :
      (e : Entry Bytes) (rest p : List (Entry Bytes))
      → Perm (rest ++ (p ++ (e ∷ []))) (e ∷ (rest ++ p))
  delivered_perm e rest p = Perm.trans (Perm.append_left rest (perm_middle p [])) (
      subst (λ l. Perm (rest ++ (e ∷ l)) (e ∷ (rest ++ p))) (sym (append-nil p))
        (perm_middle rest p))

  -- Where the lists of the server end as they were.
  same_perm : {w w' p p' : List (Entry Bytes)} → w' ≡ w → p' ≡ p → Perm (w' ++ p') (w ++ p)
  same_perm {w = w} {p = p} hw hp = rw (hw, hp) (Perm.refl (w ++ p))

  -- A read of new entries, where there is one.
  new_first :
      (n : ℕ) (q : ReliableQueue) (g : String) (s : Store) (e : Entry Bytes)
      (rest : List (Entry Bytes))
      → q.last_stream_id ≡ ">"
      → waiting q.queue_name g s ≡ e ∷ rest
      → Finished (suc n) q g s
  unfolding pop_within stream_item
  new_first n q g s e rest h w =
      let read = xreadgroup g q.reader_name q.queue_name q.last_stream_id q.block_time s in
      let (found, w', p') =
        x.xreadgroup-first g q.reader_name q.queue_name q.last_stream_id q.block_time s e rest h
          w in
      let item : stream_item x codec q g s ≡ (some (e ∷ []), read.1) =
        rw (found, stream_item) refl in
      (
        record { answer = ok (some (item_of x codec e)); queue = q; store = read.1 },
        ap (answer_of x codec q (again n q g)) item,
        record {
          told = (
            e,
            refl,
            subst (Mem e) (sym p') (mem-append_right (pending q.queue_name g s) mem-cons_self),
          );
          entries = rw (w', p', w) (delivered_perm e rest (pending q.queue_name g s));
          same_name = refl;
          same_group = refl;
          in_order = λ e' rest' _ w2.
              ap (λ o. ok (some (item_of x codec o))) (head-eq_of_cons-eq (sym w ∙ w2));
        },
      )

  -- A read of new entries, where there is none: an entry of another consumer may be claimed.
  new_none :
      (n : ℕ) (q : ReliableQueue) (g : String) (s : Store)
      → q.last_stream_id ≡ ">"
      → waiting q.queue_name g s ≡ []
      → Finished (suc n) q g s
  unfolding pop_within stream_item
  new_none n q g s h w =
      let read = xreadgroup g q.reader_name q.queue_name q.last_stream_id q.block_time s in
      let (found, w', p') =
        x.xreadgroup-empty g q.reader_name q.queue_name q.last_stream_id q.block_time s h w in
      let claim = xautoclaim q.queue_name g q.reader_name q.task_timeout_ms read.1 in
      let ((claimed, got, known), w'', p'') =
        x.xautoclaim-pending q.queue_name g q.reader_name q.task_timeout_ms read.1 in
      let kept = same_perm (w'' ∙ w') (p'' ∙ p') in
      elim (List-cases claimed) [
        | inl nothing ↦
            let item : stream_item x codec q g s ≡ (none, claim.1) =
              rw (found, got, nothing, stream_item) refl in
            (
              record { answer = ok none; queue = q; store = claim.1 },
              ap (answer_of x codec q (again n q g)) item,
              record {
                told = w;
                entries = kept;
                same_name = refl;
                same_group = refl;
                in_order = λ e' rest' _ w2. absurd (nil_ne_cons (sym w ∙ w2));
              },
            )
        | inr (e, es, some_e) ↦
            let item : stream_item x codec q g s ≡ (some (e ∷ es), claim.1) =
              rw (found, got, some_e, stream_item) refl in
            (
              record { answer = ok (some (item_of x codec e)); queue = q; store = claim.1 },
              ap (answer_of x codec q (again n q g)) item,
              record {
                told = (
                  e,
                  refl,
                  subst (Mem e) (sym p'')
                      (first_known (λ o. Mem o (pending q.queue_name g read.1)) some_e known),
                );
                entries = kept;
                same_name = refl;
                same_group = refl;
                in_order = λ e' rest' _ w2. absurd (nil_ne_cons (sym w ∙ w2));
              },
            )
      ]

  new_Finished :
      (n : ℕ) (q : ReliableQueue) (g : String) (s : Store)
      → q.last_stream_id ≡ ">"
      → Finished (suc n) q g s
  new_Finished n q g s h = elim (List-cases (waiting q.queue_name g s)) [
    | inl w ↦ new_none n q g s h w
    | inr (e, rest, w) ↦ new_first n q g s e rest h w
  ]

  -- A read of what this consumer was given before: the first of it, or else new entries.
  history_Finished :
      (n : ℕ) (q : ReliableQueue) (g : String) (s : Store)
      → q.last_stream_id ≢ ">"
      → Finished (suc (suc n)) q g s
  unfolding pop_within stream_item
  history_Finished n q g s h =
      let read = xreadgroup g q.reader_name q.queue_name q.last_stream_id q.block_time s in
      let ((own, found, known), w', p') =
        x.xreadgroup-history g q.reader_name q.queue_name q.last_stream_id q.block_time s h in
      elim (List-cases own) [
        | inl nothing ↦
            let item : stream_item x codec q g s ≡ (some [], read.1) =
              rw (found, nothing, stream_item) refl in
            let (out, same, kept) =
              new_Finished n (record q { last_stream_id = ">" }) g read.1 refl in
            (
              out,
              ap (answer_of x codec q (again (suc n) q g)) item
                  ∙ read_again q (again (suc n) q g) read.1 h
                  ∙ same,
              record {
                told =
                    subst (λ w. Told out.answer w (pending q.queue_name g out.store)) w' kept.told;
                entries = Perm.trans kept.entries (same_perm w' p');
                same_name = kept.same_name;
                same_group = kept.same_group;
                in_order = λ e rest new _. absurd (h new);
              },
            )
        | inr (e, es, some_e) ↦
            let item : stream_item x codec q g s ≡ (some (e ∷ es), read.1) =
              rw (found, some_e, stream_item) refl in
            (
              record { answer = ok (some (item_of x codec e)); queue = q; store = read.1 },
              ap (answer_of x codec q (again (suc n) q g)) item,
              record {
                told = (
                  e,
                  refl,
                  subst (Mem e) (sym p')
                      (first_known (λ o. Mem o (pending q.queue_name g s)) some_e known),
                );
                entries = same_perm w' p';
                same_name = refl;
                same_group = refl;
                in_order = λ e' rest new _. absurd (h new);
              },
            )
      ]

  within_Finished : (q : ReliableQueue) (g : String) (s : Store) → Finished 2 q g s
  within_Finished q g s =
      let is_new = eq_iff q.last_stream_id ">" in
      elim (Bool-cases (str_eq q.last_stream_id ">")) [
        | inl new ↦ new_Finished 1 q g s (is_new.0 new)
        | inr old ↦ history_Finished 0 q g s (λ e. true_ne_false (sym (is_new.1 e) ∙ old))
      ]

  pop-within :
      (q : ReliableQueue) (g : String) (s : Store)
      → q.group_name ≡ some g
      → pop x codec q s ≡ pop_within x codec 2 q g s
  unfolding pop
  pop-within q g s h =
      ap
        (λ o. elim o [
          | none ↦ some (record { answer = raised; queue = q; store = s })
          | some g' ↦ pop_within x codec 2 q g' s
        ])
        h

  -- A call of `pop` on a queue with a group returns, after at most one call of itself, and does not
  -- raise. No entry is lost or made: those that nobody was given and those that are pending are
  -- together the same as before. An item that is returned is pending, and is the oldest that nobody
  -- was given, if there is one and the reader wants new ones; and without an item nothing waited.
  pub pop-Kept :
      (q : ReliableQueue) (g : String) (s : Store)
      → q.group_name ≡ some g
      → (out : Popped x codec) × (pop x codec q s ≡ some out) × Kept q g s out
  pop-Kept q g s h =
      let (out, same, kept) = within_Finished q g s in (out, pop-within q g s h ∙ same, kept)
