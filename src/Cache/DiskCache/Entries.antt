-- ===== src/Cache/DiskCache/Entries.antt =====
-- The entries of a LevelDB database in the bytewise order of their keys: what `Seek` finds, and
-- what a batch makes of them. `Answers` is what LevelDB documents of the calls that the cache
-- makes.
use mathlib.Core.Logic.{ite}
use here_data_sdk_cpp.Common.{
  ◌≡◌, ◌≢◌, refl, arith, true, false, List, [], ◌∷◌, none, some, if◌then◌else◌,
}
use here_data_sdk_cpp.Cache.ProtectedKeyList.{Key, string_less}
use here_data_sdk_cpp.Cache.Lru.Node.{lookup, remove}
use here_data_sdk_cpp.Cache.DiskCache.{Bytes, Entries, BatchOp, LevelDb, seek, at_key}

pub string_less_trans :
    (a b c : Key) → string_less a b ≡ true → string_less b c ≡ true → string_less a c ≡ true
unfolding string_less
string_less_trans [] [] c h h' = cc
string_less_trans [] (y ∷ b) [] h h' = cc
string_less_trans [] (y ∷ b) (z ∷ c) h h' = refl
string_less_trans (x ∷ a) [] c h h' = cc
string_less_trans (x ∷ a) (y ∷ b) [] h h' = cc
string_less_trans (x ∷ a) (y ∷ b) (z ∷ c) h h' = ground (arith, string_less_trans a b c)

pub string_less_irrefl : (a : Key) → string_less a a ≡ false
unfolding string_less
string_less_irrefl [] = refl
string_less_irrefl (x ∷ a) = ground (arith, string_less_irrefl a)

pub string_less_total : (a b : Key) → string_less a b ≡ false → string_less b a ≡ false → a ≡ b
unfolding string_less
string_less_total [] [] h h' = refl
string_less_total [] (y ∷ b) h h' = cc
string_less_total (x ∷ a) [] h h' = cc
string_less_total (x ∷ a) (y ∷ b) h h' = ground (arith, string_less_total a b)

pub string_less-ne : (a b : Key) → string_less a b ≡ true → a ≢ b
string_less-ne a b h e = ground (arith, string_less_irrefl a)

-- Every key is above `k`.
abbrev pub Above : Key → Entries → Type 0
Above k [] = Unit
Above k ((j, v) ∷ l) = (string_less k j ≡ true) × Above k l

abbrev pub Sorted : Entries → Type 0
Sorted [] = Unit
Sorted ((k, v) ∷ l) = Above k l × Sorted l

pub Above-trans : (j k : Key) (l : Entries) → string_less j k ≡ true → Above k l → Above j l
Above-trans j k [] h a = tt
Above-trans j k ((i, v) ∷ l) h a = (string_less_trans j k i h a.0, Above-trans j k l h a.1)

-- The entries under a key put at its place, in place of the one that has the key.
unfoldable pub put_entry : Key → Bytes → Entries → Entries
put_entry k v [] = (k, v) ∷ []
put_entry k v ((j, w) ∷ l) =
    let rest = put_entry k v l in
    if string_less j k
    then (j, w) ∷ rest
    else if string_less k j
    then (k, v) ∷ (j, w) ∷ l
    else (k, v) ∷ l

module _ (dec : Discrete Key) where
  -- What a batch makes of the entries.
  unfoldable pub after : List BatchOp → Entries → Entries
  after [] l = l
  after (BatchOp.batch_put k v ∷ batch) l = after batch (put_entry k v l)
  after (BatchOp.batch_delete k ∷ batch) l = after batch (remove dec k l)

  pub lookup-Above : (k : Key) (l : Entries) → Above k l → lookup dec k l ≡ none
  lookup-Above k [] a = refl
  lookup-Above k ((j, v) ∷ l) a = ground (arith, lookup-Above k l, string_less-ne k j)

  -- In a sorted list, the entry at which a search by the order stops is the entry of the key.
  pub at_key-seek : (k : Key) (l : Entries) → Sorted l → at_key dec k (seek k l) ≡ lookup dec k l
  unfolding seek at_key
  at_key-seek k [] s = refl
  at_key-seek k ((j, v) ∷ l) s = ground (
    arith,
    at_key-seek k l,
    string_less_total j k,
    lookup-Above k l,
    Above-trans k j l,
    string_less-ne j k,
  )

  Above-put_entry :
      (j k : Key) (v : Bytes) (l : Entries)
      → string_less j k ≡ true
      → Above j l
      → Above j (put_entry k v l)
  unfolding put_entry
  Above-put_entry j k v [] h a = (h, tt)
  Above-put_entry j k v ((i, w) ∷ l) h a = ground (arith, Above-put_entry j k v l)

  pub Sorted-put_entry : (k : Key) (v : Bytes) (l : Entries) → Sorted l → Sorted (put_entry k v l)
  unfolding put_entry
  Sorted-put_entry k v [] s = (tt, tt)
  Sorted-put_entry k v ((j, w) ∷ l) s = ground (
    arith,
    Sorted-put_entry k v l,
    Above-put_entry j k v l,
    Above-trans k j l,
    string_less_total j k,
  )

  pub lookup-put_entry :
      (q k : Key) (v : Bytes) (l : Entries)
      → Sorted l
      → lookup dec q (put_entry k v l) ≡ ite (dec q k) (some v) (lookup dec q l)
  unfolding put_entry
  lookup-put_entry q k v [] s = ground arith
  lookup-put_entry q k v ((j, w) ∷ l) s =
      ground (arith, lookup-put_entry q k v l, string_less_total j k, string_less-ne j k)

  Above-remove : (j k : Key) (l : Entries) → Above j l → Above j (remove dec k l)
  Above-remove j k [] a = tt
  Above-remove j k ((i, w) ∷ l) a = ground (arith, Above-remove j k l)

  pub Sorted-remove : (k : Key) (l : Entries) → Sorted l → Sorted (remove dec k l)
  Sorted-remove k [] s = tt
  Sorted-remove k ((j, w) ∷ l) s = ground (arith, Sorted-remove k l, Above-remove j k l)

  pub Sorted-after : (batch : List BatchOp) (l : Entries) → Sorted l → Sorted (after batch l)
  unfolding after
  Sorted-after [] l s = s
  Sorted-after (BatchOp.batch_put k v ∷ batch) l s =
      Sorted-after batch (put_entry k v l) (Sorted-put_entry k v l s)
  Sorted-after (BatchOp.batch_delete k ∷ batch) l s =
      Sorted-after batch (remove dec k l) (Sorted-remove k l s)

  pub lookup-remove :
      (q k : Key) (l : Entries)
      → Sorted l
      → lookup dec q (remove dec k l) ≡ ite (dec q k) none (lookup dec q l)
  lookup-remove q k [] s = ground arith
  lookup-remove q k ((j, w) ∷ l) s = ground (arith, lookup-remove q k l, lookup-Above j l)

-- What LevelDB documents: an iterator reads the entries in the order of their keys; a write that
-- succeeds makes the changes of its batch in turn, and one that fails makes none; a deletion is the
-- write of its record; a compaction changes no entry.
pub record Answers {D S : Type 0} (dec : Discrete Key) (db : LevelDb D S) : Type 0 where
  pub sorted : (d : D) → Sorted (db.entries d)
  pub written :
      (d : D) (batch : List BatchOp)
      → db.entries (db.write d batch).0
        ≡ (if db.ok (db.write d batch).1 then after dec batch (db.entries d) else db.entries d)
  pub deleted :
      (d : D) (k : Key)
      → db.entries (db.delete d k).0
        ≡ (if db.ok (db.delete d k).1 then remove dec k (db.entries d) else db.entries d)
  pub stored :
      (d : D) (k : Key) (v : Bytes)
      → db.entries (db.put d k v).0
        ≡ (if db.ok (db.put d k v).1 then put_entry k v (db.entries d) else db.entries d)
  pub compacted : (d : D) → db.entries (db.compact_range d) ≡ db.entries d
