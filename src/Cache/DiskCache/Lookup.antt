-- ===== src/Cache/DiskCache/Lookup.antt =====
-- `Get`, `Contains` and `Remove` of an open disk cache on the entries of its database.
use here_data_sdk_cpp.Common.{
  ℕ, ◌+◌, ◌≡◌, refl, ap, ◌∙◌, arith, true, false, [], ◌∷◌, none, some, length, Bool-cases, inl, inr,
}
use here_data_sdk_cpp.Cache.ProtectedKeyList.{Key}
use here_data_sdk_cpp.Cache.Lru.Node.{lookup, remove}
use here_data_sdk_cpp.Cache.DiskCache
use here_data_sdk_cpp.Cache.DiskCache.{
  Bytes, Entries, Outcome, LevelDb, DiskCache, seek, at_key, non_empty, size_at, outcome_of,
  put_value,
}
use here_data_sdk_cpp.Cache.DiskCache.Entries.{
  Sorted, Above-trans, string_less_total, string_less-ne, lookup-Above, put_entry, lookup-put_entry,
  at_key-seek, Answers,
}
use here_data_sdk_cpp.Cache.DiskCache.Prefix.{Removed, stored_size}

module _ (dec : Discrete Key) where
  abbrev pub cost_at : Key → Entries → ℕ
  cost_at k l = elim (lookup dec k l) [ none ↦ 0 | some v ↦ length k + length v ]

  pub stored_size-put_entry :
      (k : Key) (v : Bytes) (l : Entries)
      → Sorted l
      → stored_size (put_entry k v l) + cost_at k l ≡ stored_size l + length k + length v
  unfolding stored_size put_entry
  stored_size-put_entry k v [] s = omega arith
  stored_size-put_entry k v ((j, w) ∷ l) s = ground (
    arith,
    stored_size-put_entry k v l,
    string_less_total j k,
    string_less-ne j k,
    string_less-ne k j,
    lookup-Above dec k l,
    Above-trans k j l,
  )

  stored_size-remove :
      (k : Key) (l : Entries) → stored_size (remove dec k l) + cost_at k l ≡ stored_size l
  unfolding stored_size
  stored_size-remove k [] = refl
  stored_size-remove k ((j, v) ∷ l) = ground (arith, stored_size-remove k l)

module _ {D S : Type 0} (db : LevelDb D S) (dec : Discrete Key) where
  pub get-lookup :
      (c : DiskCache D) (d : D) (k : Key)
      → Answers dec db
      → c.database ≡ some d
      → DiskCache.get db dec c k ≡ non_empty (lookup dec k (db.entries d))
  unfolding DiskCache.get
  get-lookup c d k answers opened =
      rw opened (ap non_empty (at_key-seek dec k (db.entries d) (answers.sorted d)))

  pub contains-lookup :
      (c : DiskCache D) (d : D) (k : Key)
      → Answers dec db
      → c.database ≡ some d
      → DiskCache.contains db dec c k
        ≡ elim (lookup dec k (db.entries d)) [ none ↦ false | some v ↦ true ]
  unfolding DiskCache.contains
  contains-lookup c d k answers opened = rw opened (
      ap (λ r. elim r [ none ↦ false | some v ↦ true ])
        (at_key-seek dec k (db.entries d) (answers.sorted d)))

  -- `Remove` of an open database
  pub remove-Removed :
      (c : DiskCache D) (d : D) (k : Key)
      → Answers dec db
      → c.database ≡ some d
      → Removed db dec
          (DiskCache.remove db dec c k).0
          (db.entries d)
          (remove dec k (db.entries d))
          (DiskCache.remove db dec c k).1.0
          (DiskCache.remove db dec c k).1.1
  unfolding DiskCache.remove outcome_of size_at
  remove-Removed c d k answers opened =
      let found = at_key-seek dec k (db.entries d) (answers.sorted d) in
      elim (Bool-cases (db.ok (db.delete d k).1)) [
        | inl good ↦
            rw (DiskCache.remove, opened, outcome_of, good)
              (Removed.removed (db.delete d k).0 refl (answers.deleted d k ∙ rw good refl) _
                (rw (size_at, found) (stored_size-remove dec k (db.entries d))))
        | inr bad ↦
            rw (DiskCache.remove, opened, outcome_of, bad)
              (Removed.refused (db.delete d k).0 refl (answers.deleted d k ∙ rw bad refl) _)
      ]

  pub get-put_value :
      (c : DiskCache D) (d : D) (k : Key) (v : Bytes)
      → Answers dec db
      → c.database ≡ some d
      → db.ok (db.put d k v).1 ≡ true
      → DiskCache.get db dec (put_value db c k v).0 k ≡ non_empty (some v)
  unfolding put_value
  get-put_value c d k v answers opened good =
      let c' = (put_value db c k v).0 in
      let d' = (db.put d k v).0 in
      let opened' : c'.database ≡ some d' = ground arith in
      let there : lookup dec k (db.entries d') ≡ some v =
        ap (lookup dec k) (answers.stored d k v ∙ rw good refl)
        ∙ lookup-put_entry dec k k v (db.entries d) (answers.sorted d)
        ∙ ground arith in
      get-lookup c' d' k answers opened' ∙ ap non_empty there
