-- ===== src/Cache/DiskCache/Prefix.antt =====
-- `RemoveKeysWithPrefix` of the disk cache: the entries that its batch leaves, and the sizes that
-- it counts.
use here_data_sdk_cpp.Common.{
  ℕ, ◌+◌, ◌≡◌, refl, sym, ◌∙◌, arith, Bool, not, ◌&&◌, List, [], ◌∷◌, some, length, ◌==◌,
  if◌then◌else◌, Bool-cases, inl, inr,
}
use here_data_sdk_cpp.Common.Bits.{u64}
use here_data_sdk_cpp.Cache.ProtectedKeyList.{Key, starts_with}
use here_data_sdk_cpp.Cache.InMemoryCache.{has_prefix}
use here_data_sdk_cpp.Cache.InMemoryCache.Prefix.{staying}
use here_data_sdk_cpp.Cache.Lru.Node.{remove}
use here_data_sdk_cpp.Cache.DiskCache.{
  Bytes, Entries, BatchOp, ErrorCode, Outcome, LevelDb, DiskCache, seek, run_of, delete_batch,
  deleted_size, apply_batch, outcome_of, is_successful, remove_keys_with_prefix,
}
use here_data_sdk_cpp.Cache.DiskCache.Entries.{Above, Sorted, after, string_less-ne, Answers}
use here_data_sdk_cpp.Cache.DiskCache.Contiguous.{has_prefix-starts_with, all_with, run_of-seek}

all_with_empty : (l : Entries) → all_with [] l ≡ l
unfolding starts_with
all_with_empty [] = refl
all_with_empty ((k, v) ∷ l) = ground (arith, has_prefix-starts_with [] k, all_with_empty l)

-- The sizes of keys and values: of all entries, and of those that the loop deletes.
unfoldable pub stored_size : Entries → ℕ
stored_size [] = 0
stored_size ((k, v) ∷ l) = length v + length k + stored_size l

abbrev sized : Key → (Key → Bool) → Entries → ℕ
sized p filter [] = 0
sized p filter ((k, v) ∷ l) =
    if has_prefix k p && not (filter k)
    then length v + length k + sized p filter l
    else sized p filter l

deleted_size-all_with :
    (p : Key) (filter : Key → Bool) (l : Entries)
    → deleted_size filter (all_with p l) ≡ u64 (sized p filter l)
unfolding deleted_size
deleted_size-all_with p filter [] = refl
deleted_size-all_with p filter ((k, v) ∷ l) = ground (arith, deleted_size-all_with p filter l)

stored_size-staying :
    (p : Key) (filter : Key → Bool) (l : Entries)
    → stored_size (staying p filter l) + sized p filter l ≡ stored_size l
unfolding stored_size
stored_size-staying p filter [] = refl
stored_size-staying p filter ((k, v) ∷ l) = ground (arith, stored_size-staying p filter l)

-- What the loop meets, in the words of the code.
abbrev met : Key → Entries → Entries
met p l =
    if length p == 0
    then (if length p == 0 then l else seek p l)
    else run_of p (if length p == 0 then l else seek p l)

met-all_with : (p : Key) (l : Entries) → Sorted l → met p l ≡ all_with p l
met-all_with [] l s = sym (all_with_empty l)
met-all_with (x ∷ p) l s = ground (arith, run_of-seek (x ∷ p) l s)

module _ (dec : Discrete Key) where
  -- Deleting keys of which none is the first key keeps the first entry.
  after-delete_batch :
      (filter : Key → Bool) (j : Key) (v : Bytes) (p : Key) (l m : Entries)
      → Above j l
      → after dec (delete_batch filter (all_with p l)) ((j, v) ∷ m)
        ≡ (j, v) ∷ after dec (delete_batch filter (all_with p l)) m
  unfolding after delete_batch
  after-delete_batch filter j v p [] m a = refl
  after-delete_batch filter j v p ((k, w) ∷ l) m a = ground (
    arith,
    after-delete_batch filter j v p l m,
    after-delete_batch filter j v p l (remove dec k m),
    string_less-ne j k,
  )

  -- The batch of the loop leaves the entries that stay.
  after-staying :
      (filter : Key → Bool) (p : Key) (l : Entries)
      → Sorted l
      → after dec (delete_batch filter (all_with p l)) l ≡ staying p filter l
  unfolding after delete_batch
  after-staying filter p [] s = refl
  after-staying filter p ((k, v) ∷ l) s =
      ground (arith, after-staying filter p l, after-delete_batch filter k v p l l)

  delete_batch-met :
      (p : Key) (filter : Key → Bool) (l : Entries)
      → Sorted l
      → (after dec (delete_batch filter (met p l)) l ≡ staying p filter l)
        × (stored_size (staying p filter l) + sized p filter l ≡ stored_size l)
        × (deleted_size filter (met p l) ≡ u64 (sized p filter l))
  delete_batch-met p filter l s =
      rw (met-all_with p l s) (
        after-staying filter p l s,
        stored_size-staying p filter l,
        deleted_size-all_with p filter l,
      )

module _ {D S : Type 0} (db : LevelDb D S) (dec : Discrete Key) where
  -- The database after a call: what the call has returned, and the entries and the size.
  pub data Removed (c' : DiskCache D) (l l' : Entries) : Outcome Unit → ℕ → Type 0 where
    removed :
        (d' : D)
        → c'.database ≡ some d'
        → db.entries d' ≡ l'
        → (n : ℕ) → stored_size l' + n ≡ stored_size l
        → Removed c' l l' (Outcome.success tt) n
    refused :
        (d' : D)
        → c'.database ≡ some d'
        → db.entries d' ≡ l
        → (e : ErrorCode) → Removed c' l l' (Outcome.failure e) 0

  remove_keys_with_prefix_steps :
      (c : DiskCache D) (d : D) (p : Key) (filter : Key → Bool)
      → c.database ≡ some d
      → remove_keys_with_prefix db c p filter ≡ (
          let done = apply_batch db c (delete_batch filter (met p (db.entries d))) in
          (
            done.0,
            (
              done.1,
              if is_successful done.1 then deleted_size filter (met p (db.entries d)) else 0,
            ),
          ))
  unfolding remove_keys_with_prefix
  remove_keys_with_prefix_steps c d p filter opened = rw opened refl

  apply_batch-Removed :
      (c : DiskCache D) (d : D) (batch : List BatchOp) (l' : Entries) (n : ℕ)
      → Answers dec db
      → c.database ≡ some d
      → after dec batch (db.entries d) ≡ l'
      → stored_size l' + n ≡ stored_size (db.entries d)
      → Removed
          (apply_batch db c batch).0
          (db.entries d)
          l'
          (apply_batch db c batch).1
          (if is_successful (apply_batch db c batch).1 then n else 0)
  unfolding apply_batch outcome_of is_successful
  apply_batch-Removed c d batch l' n answers opened is size =
      elim (Bool-cases (db.ok (db.write d batch).1)) [
        | inl good ↦
            rw (apply_batch, opened, outcome_of, good, is_successful)
              (Removed.removed (db.write d batch).0 refl (answers.written d batch ∙ rw good is) n
                size)
        | inr bad ↦
            rw (apply_batch, opened, outcome_of, bad, is_successful)
              (Removed.refused (db.write d batch).0 refl (answers.written d batch ∙ rw bad refl) _)
      ]

  -- The size that is counted where a call succeeds.
  counted :
      (o : Outcome Unit) (n m : ℕ)
      → m ≡ u64 n
      → (if is_successful o then m else 0) ≡ u64 (if is_successful o then n else 0)
  counted o n m is = elim (Bool-cases (is_successful o)) [
    | inl good ↦ rw good is
    | inr bad ↦ rw bad refl
  ]

  -- `RemoveKeysWithPrefix` of an open database, where LevelDB answers as documented, leaves
  -- the entries whose keys have not the prefix or are filtered, in their order, and counts the
  -- sizes of those that are gone, modulo 2 ^ 64; or LevelDB refuses the batch, and the call
  -- returns the error, leaves every entry and counts 0.
  pub remove_keys_with_prefix-Removed :
      (c : DiskCache D) (d : D) (p : Key) (filter : Key → Bool)
      → Answers dec db
      → c.database ≡ some d
      → (n : ℕ) × Removed
          (remove_keys_with_prefix db c p filter).0
          (db.entries d)
          (staying p filter (db.entries d))
          (remove_keys_with_prefix db c p filter).1.0
          n
        × ((remove_keys_with_prefix db c p filter).1.1 ≡ u64 n)
  remove_keys_with_prefix-Removed c d p filter answers opened =
      let l = db.entries d in
      let done = apply_batch db c (delete_batch filter (met p l)) in
      let (leaves, total, sums) = delete_batch-met dec p filter l (answers.sorted d) in
      (
        (if is_successful done.1 then sized p filter l else 0),
        rw (remove_keys_with_prefix_steps c d p filter opened) (
            apply_batch-Removed c d (delete_batch filter (met p l)) (staying p filter l)
              (sized p filter l) answers opened leaves total),
        rw (remove_keys_with_prefix_steps c d p filter opened)
            (counted done.1 (sized p filter l) (deleted_size filter (met p l)) sums),
      )
