-- ===== src/Cache/InMemoryCache/Expiries.antt =====
-- The table of the times at which items expire, in the order of the times.
use here_data_sdk_cpp.Common.{
  ℕ, ◌≤◌, ◌<◌, ◌≡◌, ◌≢◌, ◌⊎◌, inl, inr, refl, ap, ◌∙◌, arith, Bool, true, false, List, [], ◌∷◌,
  ◌++◌, length, ltb, ◌==◌, if◌then◌else◌, Bool-cases,
}
use mathlib.Core.Logic.{ite}
use here_data_sdk_cpp.Cache.ProtectedKeyList.{Key}
use here_data_sdk_cpp.Cache.InMemoryCache.{
  ItemTuple, ItemTuples, Expiries, with_entry, vector_at, erase_entry, append_to, push_back,
  on_eviction, on_evictions, expired_keys,
}

-- `t` stands among the times.
unfoldable pub holds : ℕ → List ℕ → Bool
holds t [] = false
holds t (u ∷ times) = if u == t then true else holds t times

module _ {A : Type 0} where
  -- Every time is above `t`.
  abbrev pub Above : ℕ → Expiries A → Type 0
  Above t [] = Unit
  Above t ((u, v) ∷ m) = t < u

  abbrev pub Ordered : Expiries A → Type 0
  Ordered [] = Unit
  Ordered ((u, v) ∷ m) = Above u m × Ordered m

  Above-with_entry : (s t : ℕ) (m : Expiries A) → s < t → Above s m → Above s (with_entry t m)
  unfolding with_entry
  Above-with_entry s t [] lt h = lt
  Above-with_entry s t ((u, v) ∷ m) lt h = ground arith

  pub Ordered-with_entry : (t : ℕ) (m : Expiries A) → Ordered m → Ordered (with_entry t m)
  unfolding with_entry
  Ordered-with_entry t [] h = (tt, tt)
  Ordered-with_entry t ((u, v) ∷ m) h =
      ground (arith, Ordered-with_entry t m, Above-with_entry u t m)

  Above-trans : (s t : ℕ) (m : Expiries A) → s < t → Above t m → Above s m
  Above-trans s t [] lt h = tt
  Above-trans s t ((u, v) ∷ m) lt h = omega (arith, lt, h)

  Above-erase_entry : (s t : ℕ) (m : Expiries A) → Above s m → Ordered m → Above s (erase_entry t m)
  unfolding erase_entry
  Above-erase_entry s t [] h o = tt
  Above-erase_entry s t ((u, v) ∷ m) h o = ground (arith, Above-trans s u m)

  Above-append_to :
      (s t : ℕ) (i : ItemTuple A) (m : Expiries A) → Above s m → Above s (append_to t i m)
  unfolding append_to
  Above-append_to s t i [] h = tt
  Above-append_to s t i ((u, v) ∷ m) h = ground arith

  pub Ordered-erase_entry : (t : ℕ) (m : Expiries A) → Ordered m → Ordered (erase_entry t m)
  unfolding erase_entry
  Ordered-erase_entry t [] h = tt
  Ordered-erase_entry t ((u, v) ∷ m) h =
      ground (arith, Ordered-erase_entry t m, Above-erase_entry u t m)

  pub Ordered-append_to :
      (t : ℕ) (i : ItemTuple A) (m : Expiries A) → Ordered m → Ordered (append_to t i m)
  unfolding append_to
  Ordered-append_to t i [] h = tt
  Ordered-append_to t i ((u, v) ∷ m) h =
      ground (arith, Ordered-append_to t i m, Above-append_to u t i m)

  vector_at-Above : (s t : ℕ) (m : Expiries A) → Above s m → Ordered m → t ≤ s → vector_at t m ≡ []
  unfolding vector_at
  vector_at-Above s t [] h o le = refl
  vector_at-Above s t ((u, v) ∷ m) h o le = ground (arith, vector_at-Above u t m)

  pub vector_at-with_entry :
      (s t : ℕ) (m : Expiries A) → Ordered m → vector_at t (with_entry s m) ≡ vector_at t m
  unfolding vector_at with_entry
  vector_at-with_entry s t [] o = ground arith
  vector_at-with_entry s t ((u, v) ∷ m) o =
      ground (arith, vector_at-with_entry s t m, vector_at-Above u t m)

  pub vector_at-erase_entry :
      (s t : ℕ) (m : Expiries A) → s ≢ t → vector_at t (erase_entry s m) ≡ vector_at t m
  unfolding vector_at erase_entry
  vector_at-erase_entry s t [] apart = refl
  vector_at-erase_entry s t ((u, v) ∷ m) apart = ground (arith, vector_at-erase_entry s t m)

  vector_at-append_to :
      (s t : ℕ) (i : ItemTuple A) (m : Expiries A)
      → vector_at t (append_to s i m) ≡ vector_at t m
        ⊎ vector_at t (append_to s i m) ≡ vector_at t m ++ i ∷ []
  unfolding vector_at append_to
  vector_at-append_to s t i [] = inl refl
  vector_at-append_to s t i ((u, v) ∷ m) = ground (arith, vector_at-append_to s t i m)

  vector_at-append_to_self :
      (t : ℕ) (i : ItemTuple A) (m : Expiries A)
      → vector_at t (append_to t i (with_entry t m)) ≡ vector_at t (with_entry t m) ++ i ∷ []
  unfolding vector_at append_to with_entry
  vector_at-append_to_self t i [] = ground arith
  vector_at-append_to_self t i ((u, v) ∷ m) = ground (arith, vector_at-append_to_self t i m)

  pub Ordered-push_back :
      (t : ℕ) (i : ItemTuple A) (m : Expiries A) → Ordered m → Ordered (push_back t i m)
  unfolding push_back
  Ordered-push_back t i m o = Ordered-append_to t i (with_entry t m) (Ordered-with_entry t m o)

  pub vector_at-erase_entry_self :
      (t : ℕ) (m : Expiries A) → Ordered m → vector_at t (erase_entry t m) ≡ []
  unfolding vector_at erase_entry
  vector_at-erase_entry_self t [] o = refl
  vector_at-erase_entry_self t ((u, v) ∷ m) o =
      ground (arith, vector_at-erase_entry_self t m, vector_at-Above u t m)

  length_zero : (v : ItemTuples A) → (length v == 0) ≡ true → v ≡ []
  length_zero [] h = refl
  length_zero (i ∷ v) h = absurd (ground arith)

  -- The eviction callback leaves every vector as it is.
  pub on_eviction_lem :
      (m : Expiries A) (i : ItemTuple A)
      → Ordered m
      → Ordered (on_eviction m i) × ((t : ℕ) → vector_at t (on_eviction m i) ≡ vector_at t m)
  unfolding on_eviction
  on_eviction_lem m i o = (
    ground (
      arith,
      Ordered-with_entry i.expiry m o,
      Ordered-erase_entry i.expiry (with_entry i.expiry m),
    ),
    λ t. ground (
      arith,
      vector_at-with_entry i.expiry t m o,
      Ordered-with_entry i.expiry m o,
      length_zero (vector_at i.expiry (with_entry i.expiry m)),
      vector_at-erase_entry_self i.expiry (with_entry i.expiry m),
      vector_at-erase_entry i.expiry t (with_entry i.expiry m),
    ),
  )

  pub on_evictions_lem :
      (m : Expiries A) (log : List (Key × ItemTuple A))
      → Ordered m
      → Ordered (on_evictions m log) × ((t : ℕ) → vector_at t (on_evictions m log) ≡ vector_at t m)
  unfolding on_evictions
  on_evictions_lem m [] o = (o, λ t. refl)
  on_evictions_lem m ((k, i) ∷ log) o =
      let (o1, same1) = on_evictions_lem m log o in
      let (o2, same2) = on_eviction_lem (on_evictions m log) i o1 in (o2, λ t. same2 t ∙ same1 t)

  module _ (dec : Discrete Key) where
    -- An item with the key is in the vector.
    unfoldable pub listed : Key → ItemTuples A → Bool
    listed k [] = false
    listed k (i ∷ v) = ite (dec i.key k) true (listed k v)

    pub listed-append :
        (k : Key) (v w : ItemTuples A) → listed k v ≡ true → listed k (v ++ w) ≡ true
    unfolding listed
    listed-append k [] w h = cc
    listed-append k (i ∷ v) w h = ground (arith, listed-append k v w)

    listed-append_self : (i : ItemTuple A) (v : ItemTuples A) → listed i.key (v ++ i ∷ []) ≡ true
    unfolding listed
    listed-append_self i [] = ground arith
    listed-append_self i (j ∷ v) = ground (arith, listed-append_self i v)

    pub listed-push_back :
        (k : Key) (s t : ℕ) (i : ItemTuple A) (m : Expiries A)
        → Ordered m
        → listed k (vector_at t m) ≡ true
        → listed k (vector_at t (push_back s i m)) ≡ true
    unfolding push_back
    listed-push_back k s t i m o h =
        let same = vector_at-with_entry s t m o in
        elim (vector_at-append_to s t i (with_entry s m)) [
          | inl e ↦ ap (listed k) (e ∙ same) ∙ h
          | inr e ↦ ap (listed k) e ∙ listed-append k _ _ (ap (listed k) same ∙ h)
        ]

    pub listed-push_back_self :
        (i : ItemTuple A) (m : Expiries A)
        → listed i.key (vector_at i.expiry (push_back i.expiry i m)) ≡ true
    unfolding push_back
    listed-push_back_self i m =
        ap (listed i.key) (vector_at-append_to_self i.expiry i m)
        ∙ listed-append_self i (vector_at i.expiry (with_entry i.expiry m))

  vector_at_first :
      (u t : ℕ) (v : ItemTuples A) (m : Expiries A)
      → Ordered ((u, v) ∷ m)
      → vector_at t ((u, v) ∷ m) ≢ []
      → u ≤ t
  vector_at_first u t v m o some_at = elim (Bool-cases (ltb t u)) [
    | inl below ↦ absurd (some_at (vector_at-Above t t ((u, v) ∷ m) (ground arith) o (omega arith)))
    | inr not_below ↦ ground arith
  ]

  vector_at_later :
      (u t : ℕ) (v : ItemTuples A) (m : Expiries A)
      → (u == t) ≡ false
      → vector_at t ((u, v) ∷ m) ≡ vector_at t m
  unfolding vector_at
  vector_at_later u t v m other = rw other refl

  pub holds-expired_keys :
      (t now : ℕ) (m : Expiries A)
      → Ordered m
      → t < now
      → vector_at t m ≢ []
      → holds t (expired_keys now m) ≡ true
  unfolding holds expired_keys vector_at
  holds-expired_keys t now [] o lt some_at = absurd (some_at refl)
  holds-expired_keys t now ((u, v) ∷ m) o lt some_at =
      let first = vector_at_first u t v m o some_at in
      elim (Bool-cases (u == t)) [
        | inl same ↦ ground arith
        | inr other ↦
            let rest =
              holds-expired_keys t now m o.1 lt
                (λ e. some_at (vector_at_later u t v m other ∙ e)) in
            ground arith
      ]

  pub holds-expired_keys_later :
      (t now : ℕ) (m : Expiries A) → now ≤ t → holds t (expired_keys now m) ≡ false
  unfolding holds expired_keys
  holds-expired_keys_later t now [] le = refl
  holds-expired_keys_later t now ((u, v) ∷ m) le = ground (arith, holds-expired_keys_later t now m)
