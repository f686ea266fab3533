-- ===== src/Cache/DefaultCache/Restore.antt =====
-- The protected keys from a `Close` of `DefaultCacheImpl` to the next `Open`.
use here_data_sdk_cpp.Common.{
  ℕ, ◌^◌, ◌<◌, ◌≡◌, inl, inr, refl, sym, ap, ◌∙◌, arith, true, false, List, [], ◌∷◌, Option, none,
  some, length, ltb, Bool-cases,
}
use here_data_sdk_cpp.Cache.ProtectedKeyList.{Key, no_keys, deserialize, deserialize_loop}
use here_data_sdk_cpp.Cache.ProtectedKeyList.Protected.{Sorted}
use here_data_sdk_cpp.Cache.ProtectedKeyList.Serial.{texts, total, deserialize-serialize}
use here_data_sdk_cpp.Cache.Lru.Node.{lookup, remove}
use here_data_sdk_cpp.Cache.DiskCache
use here_data_sdk_cpp.Cache.DiskCache.{
  Bytes, Entries, BatchOp, batch_put, batch_delete, Outcome, success, failure, LevelDb, DiskCache,
  apply_batch, non_empty,
}
use here_data_sdk_cpp.Cache.DiskCache.Entries.{
  Answers, after, put_entry, lookup-put_entry, lookup-remove,
}
use here_data_sdk_cpp.Cache.DiskCache.Lookup.{get-lookup}
use here_data_sdk_cpp.Cache.DefaultCache.{DefaultCacheImpl, protected_keys_key}
use here_data_sdk_cpp.Cache.DefaultCache.Put.{maybe_updated_protected_keys}
use here_data_sdk_cpp.Cache.DefaultCache.EvictAll.{apply_batch_lem}
use here_data_sdk_cpp.Cache.DefaultCache.Storage.{
  store_protected_keys, keys_from, read_protected_keys,
}

no_bytes-no_keys :
    (value : List ℕ)
    → ltb 0 (length value) ≡ false
    → (deserialize no_keys (some value)).0.protected_data ≡ []
unfolding deserialize deserialize_loop
no_bytes-no_keys [] h = refl
no_bytes-no_keys (x ∷ value) h = ground arith

module _ {D S : Type 0} (db : LevelDb D S) (dec : Discrete Key) where
  read_lem :
      (c : DiskCache D) (d : D) (batch : List BatchOp) (stored : Option Bytes)
      → Answers dec db
      → c.database ≡ some d
      → db.ok (db.write d batch).1 ≡ true
      → lookup dec protected_keys_key (after dec batch (db.entries d)) ≡ stored
      → read_protected_keys db dec no_keys (apply_batch db c batch).0
        ≡ keys_from no_keys (non_empty stored)
  unfolding read_protected_keys
  read_lem c d batch stored answers opened good is =
      let (opened', _) = apply_batch_lem db dec c d batch opened in
      let gets : DiskCache.get db dec (apply_batch db c batch).0 protected_keys_key
          ≡ non_empty stored =
        get-lookup db dec (apply_batch db c batch).0 (db.write d batch).0 protected_keys_key answers
          opened'
        ∙ ap (λ l. non_empty (lookup dec protected_keys_key l))
            (answers.written d batch ∙ rw good refl)
        ∙ ap non_empty is in
      ap (keys_from no_keys) gets

  -- The list of protected keys that `Close` writes is the list that the next `Open` reads: for
  -- a list that has changed since it was last written, in order, of keys that are not empty
  -- and hold no byte 0 and with their ends have less than 2 ^ 31 bytes, an empty list included; where LevelDB accepts the writes and answers
  -- as documented, and has no entry for the list if the list was never written.
  pub read_protected_keys-store_protected_keys :
      (s : DefaultCacheImpl D) (c : DiskCache D) (d : D)
      → Answers dec db
      → ((d1 : D) (batch : List BatchOp) → db.ok (db.write d1 batch).1 ≡ true)
      → s.mutable_cache ≡ some c
      → c.database ≡ some d
      → s.protected_keys.dirty ≡ true
      → Sorted s.protected_keys.protected_data
      → texts s.protected_keys.protected_data ≡ true
      → total s.protected_keys.protected_data < 2 ^ 31
      → (s.protected_keys.size_written ≡ 0 → lookup dec protected_keys_key (db.entries d) ≡ none)
      → (c' : DiskCache D) × (store_protected_keys db s ≡ some (some c'))
        × ((read_protected_keys db dec no_keys c').protected_data ≡ s.protected_keys.protected_data)
  unfolding store_protected_keys maybe_updated_protected_keys after non_empty keys_from
  read_protected_keys-store_protected_keys s c d answers accepts at_c opened dirty sorted texts_lem
        small fresh =
      let (value, written, reads) = deserialize-serialize s.protected_keys sorted texts_lem small in
      let same : (deserialize no_keys (some value)).0.protected_data
          ≡ s.protected_keys.protected_data =
        ap (λ r. r.0.protected_data) reads in
      elim (Bool-cases (ltb 0 (length value))) [
        | inl some_bytes ↦
            let batch = batch_put protected_keys_key value ∷ [] in
            let there : lookup dec protected_keys_key
                  (put_entry protected_keys_key value (db.entries d))
                ≡ some value =
              lookup-put_entry dec protected_keys_key protected_keys_key value (db.entries d)
                (answers.sorted d)
              ∙ ground arith in
            let full : keys_from no_keys (non_empty (some value))
                ≡ (deserialize no_keys (some value)).0 =
              ground arith in
            (
              (apply_batch db c batch).0,
              ground arith,
              ap (λ k. k.protected_data)
                    (read_lem c d batch (some value) answers opened (accepts d batch) there)
                  ∙ ap (λ k. k.protected_data) full
                  ∙ same,
            )
        | inr no_bytes ↦ elim (Bool-cases (ltb 0 s.protected_keys.size_written)) [
          | inl before ↦
              let batch = batch_delete protected_keys_key ∷ [] in
              let gone : lookup dec protected_keys_key
                    (remove dec protected_keys_key (db.entries d))
                  ≡ none =
                lookup-remove dec protected_keys_key protected_keys_key (db.entries d)
                  (answers.sorted d)
                ∙ ground arith in
              (
                (apply_batch db c batch).0,
                ground arith,
                ap (λ k. k.protected_data)
                      (read_lem c d batch none answers opened (accepts d batch) gone)
                    ∙ sym (no_bytes-no_keys value no_bytes)
                    ∙ same,
              )
          | inr never ↦ (
            (apply_batch db c []).0,
            ground arith,
            ap (λ k. k.protected_data)
                  (read_lem c d [] none answers opened (accepts d []) (fresh (ground arith)))
                ∙ sym (no_bytes-no_keys value no_bytes)
                ∙ same,
          )
        ]
      ]
