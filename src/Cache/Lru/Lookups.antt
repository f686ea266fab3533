-- ===== src/Cache/Lru/Lookups.antt =====
-- What the operations on the cache do to the elements that it finds.
use mathlib.Core.Path.{subst}
use here_data_sdk_cpp.Common.{
  ℕ, ◌+◌, ◌-◌, ◌^◌, ◌≤◌, ◌<◌, ◌≡◌, ◌≢◌, inl, inr, refl, sym, arith, Bool, true, false, List, [],
  ◌∷◌, Option, none, some, Option-cases,
}
use here_data_sdk_cpp.Cache.Lru
use here_data_sdk_cpp.Cache.Lru.{Bucket, LruCache}
use here_data_sdk_cpp.Cache.Lru.Node.{lookup, remove}
use here_data_sdk_cpp.Cache.Lru.Promote.{promoted}
use here_data_sdk_cpp.Cache.Lru.Evict.{fitting}
use here_data_sdk_cpp.Cache.Lru.Model.{Op, Elements, keep, keep_at, act, step, Refines, Simulates}
use here_data_sdk_cpp.Cache.Lru.Simulate.{
  absent, present, insert_or_assign-Simulates, erase_at-Refines,
}

module _ {K V : Type 0} (dec : Discrete K) where
  pub remove-lookup : (k : K) (l : List (K × V)) → lookup dec k l ≡ none → remove dec k l ≡ l
  remove-lookup k [] h = refl
  remove-lookup k ((j, v) ∷ l) h = ground (arith, remove-lookup k l)

  pub lookup-remove-none :
      (k q : K) (l : List (K × V)) → lookup dec q l ≡ none → lookup dec q (remove dec k l) ≡ none
  lookup-remove-none k q [] h = refl
  lookup-remove-none k q ((j, v) ∷ l) h = ground (arith, lookup-remove-none k q l)

  module _ (cost : V → ℕ) where
    -- `Erase(key)`, for a key that the cache has or not.
    pub erase-Refines :
        (e : Elements K V) (c : LruCache K V) (k : K)
        → Refines dec cost e c
        → e.room < 2 ^ 64
        → (c' : LruCache K V) × (r : Bool) × (Lru.erase dec cost c k ≡ some (c', r))
          × Refines dec cost (record e { items = remove dec k e.items }) c'
    unfolding Lru.erase
    erase-Refines e c k h small = elim (Option-cases (lookup dec k e.items)) [
      | inl gone ↦ (
        c,
        false,
        rw (Lru.erase, absent dec cost e c k h gone) refl,
        subst (λ l. Refines dec cost (record e { items = l }) c)
            (sym (remove-lookup k e.items gone)) h,
      )
      | inr (w, at_w) ↦
          let (_, at_k, _, _) = present dec cost e c k w h at_w in
          let (c', done, h') = erase_at-Refines dec cost e c k w h small at_w in
          (c', true, rw (Lru.erase, at_k, done) refl, h')
    ]

    pub value_at-Refines :
        (e : Elements K V) (c : LruCache K V) (k : K) (w : V)
        → Refines dec cost e c
        → lookup dec k e.items ≡ some w
        → Lru.value_at dec c k ≡ some w
    unfolding Lru.value_at
    value_at-Refines e c k w h at_w =
        let (b, at_k, _, same) = present dec cost e c k w h at_w in rw (at_k, same) refl

    fitting-lookup :
        (room : ℕ) (q : K) (l : List (K × V))
        → lookup dec q l ≡ none
        → lookup dec q (fitting cost room l) ≡ none
    fitting-lookup room q [] h = refl
    fitting-lookup room q ((j, v) ∷ l) h = ground (arith, fitting-lookup (room - cost v) q l)

    act_lem :
        (e : Elements K V) (k : K) (v : V)
        → ((act dec cost e (Op.insert_or_assign k v)).0.room ≡ e.room)
          × (cost v ≤ e.room
              → lookup dec k (act dec cost e (Op.insert_or_assign k v)).0.items ≡ some v)
          × ((q : K)
              → k ≢ q
              → lookup dec q e.items ≡ none
              → lookup dec q (act dec cost e (Op.insert_or_assign k v)).0.items ≡ none)
          × ((w : V)
              → lookup dec k (act dec cost e (Op.insert_or_assign k v)).0.items ≡ some w
              → w ≡ v)
    unfolding act keep_at keep
    act_lem e k v = (
      ground arith,
      λ h. ground arith,
      λ q apart gone. ground (
        arith,
        fitting-lookup e.room q (promoted dec k v e.items),
        fitting-lookup e.room q ((k, v) ∷ e.items),
        lookup-remove-none k q e.items,
      ),
      λ w there. ground arith,
    )

    -- `InsertOrAssign` of a value that fits puts it in front; no other value comes in.
    pub insert_or_assign-Refines :
        (e : Elements K V) (c : LruCache K V) (k : K) (v : V)
        → Refines dec cost e c
        → e.room + cost v < 2 ^ 64
        → (c' : LruCache K V) × (r : Option K × Bool) × (e' : Elements K V) × (Lru.insert_or_assign
              dec cost c k v
            ≡ some (c', r))
          × Refines dec cost e' c'
          × (e'.room ≡ e.room)
          × (cost v ≤ e.room → lookup dec k e'.items ≡ some v)
          × ((q : K) → k ≢ q → lookup dec q e.items ≡ none → lookup dec q e'.items ≡ none)
          × ((w : V) → lookup dec k e'.items ≡ some w → w ≡ v)
    unfolding Simulates step
    insert_or_assign-Refines e c k v h small =
        let (c', done, h') = insert_or_assign-Simulates dec cost e c k v h small in
        let (room, front, others, mine) = act_lem e k v in
        (
          c',
          (act dec cost e (Op.insert_or_assign k v)).1,
          (act dec cost e (Op.insert_or_assign k v)).0,
          done,
          h',
          room,
          front,
          others,
          mine,
        )
