-- ===== src/Cache/ProtectedKeyList/Release.antt =====
-- `Release`: it removes the elements that the keys are prefixes of, and stops at a key that a
-- proper prefix protects.
use here_data_sdk_cpp.Common.{
  ◌≡◌, inl, inr, refl, sym, ap, ◌∙◌, arith, Bool, true, false, List, [], ◌∷◌, ◌++◌, ltb, length,
  if◌then◌else◌, Bool-cases,
}
use here_data_sdk_cpp.Cache.ProtectedKeyList.{
  Key, ProtectedKeyList, starts_with, is_prefix, is_equal_or_prefix, before_bound, from_bound,
  covered, erase_while, release_loop, release, is_protected,
}
use here_data_sdk_cpp.Cache.ProtectedKeyList.Order.{
  below, custom_compare_lem, is_equal_or_prefix_lem, below_trans, below-starts_with_right,
  below_total, below-starts_with, below-extended, is_prefix_iff, starts_with_trans,
  starts_with_linear,
}
use here_data_sdk_cpp.Cache.ProtectedKeyList.Protected.{
  has_prefix, all_above, sorted, Sorted, is_protected_iff,
}
use here_data_sdk_cpp.Cache.ProtectedKeyList.Change.{past, past-all_above}

-- The elements that the key is no prefix of.
unfoldable pub without : Key → List Key → List Key
without key [] = []
without key (e ∷ l) = if starts_with key e then without key l else e ∷ without key l

-- Some element is a prefix of the key, and is not the key.
unfoldable pub blocked : List Key → Key → Bool
blocked [] key = false
blocked (e ∷ l) key = if is_prefix e key then true else blocked l key

-- The elements that `Release` leaves.
unfoldable pub released : List Key → List Key → List Key
released l [] = l
released l (key ∷ keys) =
    let rest = released (without key l) keys in if blocked l key then l else rest

-- No element has the key as its prefix behind one that is above the key and has not.
without-all_above :
    (key e : Key) (l : List Key) → all_above e l ≡ true → below key e ≡ true → without key l ≡ l
unfolding all_above without
without-all_above key e [] a h = refl
without-all_above key e (f ∷ l) a h =
    ground (arith, without-all_above key e l, below_trans key e f, below-starts_with key f)

erase_while-without :
    (key : Key) (l : List Key)
    → sorted l ≡ true
    → past key l ≡ true
    → erase_while (is_equal_or_prefix key) l ≡ without key l
unfolding sorted without erase_while past
erase_while-without key [] s p = refl
erase_while-without key (e ∷ l) s p = ground (
  arith,
  erase_while-without key l,
  without-all_above key e l,
  is_equal_or_prefix_lem key e,
  is_prefix_iff e key,
  below_total key e,
)

released_key :
    (key : Key) (l : List Key)
    → sorted l ≡ true
    → covered (from_bound l key) key ≡ false
    → before_bound l key ++ erase_while (is_equal_or_prefix key) (from_bound l key) ≡ without key l
unfolding sorted from_bound before_bound covered without past
released_key key [] s c = erase_while-without key [] s refl
released_key key (e ∷ l) s c = ground (
  arith,
  released_key key l,
  custom_compare_lem e key,
  below-extended e key,
  past-all_above e key l,
  erase_while-without key (e ∷ l),
)

blocked-all_above :
    (key e : Key) (l : List Key)
    → all_above e l ≡ true
    → below e key ≡ false
    → blocked l key ≡ false
unfolding all_above blocked
blocked-all_above key e [] a n = refl
blocked-all_above key e (f ∷ l) a n =
    ground (arith, blocked-all_above key e l, below-starts_with_right e f key, is_prefix_iff f key)

covered-from_bound :
    (key : Key) (l : List Key) → sorted l ≡ true → covered (from_bound l key) key ≡ blocked l key
unfolding sorted from_bound covered blocked
covered-from_bound key [] s = refl
covered-from_bound key (e ∷ l) s = ground (
  arith,
  covered-from_bound key l,
  blocked-all_above key e l,
  custom_compare_lem e key,
  is_prefix_iff e key,
  below-starts_with e key,
)

all_above-without :
    (d key : Key) (l : List Key) → all_above d l ≡ true → all_above d (without key l) ≡ true
unfolding all_above without
all_above-without d key [] a = refl
all_above-without d key (e ∷ l) a = ground (arith, all_above-without d key l)

without-sorted : (key : Key) (l : List Key) → sorted l ≡ true → sorted (without key l) ≡ true
unfolding sorted without
without-sorted key [] s = refl
without-sorted key (e ∷ l) s = ground (arith, without-sorted key l, all_above-without e key l)

release_loop-released :
    (l : List Key) (dirty result : Bool) (keys : List Key)
    → sorted l ≡ true
    → (release_loop l dirty result keys).0 ≡ released l keys
unfolding release_loop released
release_loop-released l dirty result [] s = refl
release_loop-released l dirty result (key ∷ keys) s =
    elim (Bool-cases (covered (from_bound l key) key)) [
      | inl c ↦ ground (arith, covered-from_bound key l)
      | inr c ↦
          rw (sym (covered-from_bound key l s), c, released_key key l s c)
            (release_loop-released (without key l) _ _ keys (without-sorted key l s))
    ]

released-sorted : (l keys : List Key) → sorted l ≡ true → sorted (released l keys) ≡ true
unfolding released
released-sorted l [] s = s
released-sorted l (key ∷ keys) s =
    ground (arith, released-sorted (without key l) keys, without-sorted key l)

-- On a list in order, `Release` removes the elements that the keys are prefixes of, key by key, up
-- to the first key that has a proper prefix in what is left of the list; and it leaves the list in
-- order.
pub release-released :
    (s : ProtectedKeyList) (keys : List Key)
    → Sorted s.protected_data
    → ((release s keys).0.protected_data ≡ released s.protected_data keys)
      × Sorted (release s keys).0.protected_data
unfolding release Sorted
release-released s keys h =
    let same = release_loop-released s.protected_data s.dirty false keys h in
    (same, rw same (released-sorted s.protected_data keys h))

has_prefix-without :
    (key : Key) (l : List Key) (q : Key)
    → starts_with key q ≡ false
    → has_prefix (without key l) q ≡ has_prefix l q
unfolding without has_prefix
has_prefix-without key [] q n = refl
has_prefix-without key (e ∷ l) q n =
    ground (arith, has_prefix-without key l q, starts_with_trans key e q)

-- A key that extends the released one is protected afterwards when an element that does not extend
-- it is a prefix; there is none when the released key is not protected by a proper prefix.
has_prefix-without_extended :
    (key : Key) (l : List Key) (q : Key)
    → starts_with key q ≡ true
    → blocked l key ≡ false
    → has_prefix (without key l) q ≡ false
unfolding without has_prefix blocked
has_prefix-without_extended key [] q h b = refl
has_prefix-without_extended key (e ∷ l) q h b =
    ground
      (arith, has_prefix-without_extended key l q, is_prefix_iff e key, starts_with_linear key e q)

-- On a list in order, a key that no element is a proper prefix of is released: afterwards exactly
-- the keys that it is a prefix of are not protected, and the others are as before.
pub is_protected-release :
    (s : ProtectedKeyList) (key q : Key)
    → Sorted s.protected_data
    → blocked s.protected_data key ≡ false
    → is_protected (release s (key ∷ [])).0 q
      ≡ (if starts_with key q then false else is_protected s q)
unfolding released
is_protected-release s key q h b =
    let done = release-released s (key ∷ []) h in
    ground (
      arith,
      is_protected_iff (release s (key ∷ [])).0 q done.1,
      done.0,
      is_protected_iff s q h,
      has_prefix-without key s.protected_data q,
      has_prefix-without_extended key s.protected_data q,
    )

release_loop-covered :
    (l : List Key) (dirty result : Bool) (key : Key) (keys : List Key)
    → covered (from_bound l key) key ≡ true
    → release_loop l dirty result (key ∷ keys) ≡ (l, (dirty, false))
unfolding release_loop
release_loop-covered l dirty result key keys c = rw c refl

release_loop-step :
    (l : List Key) (dirty result : Bool) (key : Key) (keys : List Key)
    → sorted l ≡ true
    → covered (from_bound l key) key ≡ false
    → (dirty' : Bool) × (result' : Bool) × (release_loop l dirty result (key ∷ keys)
        ≡ release_loop (without key l) dirty' result' keys)
unfolding release_loop
release_loop-step l dirty result key keys s c =
    let kept = erase_while (is_equal_or_prefix key) (from_bound l key) in
    let erased = ltb (length kept) (length (from_bound l key)) in
    (
      if erased then true else dirty,
      if erased then true else result,
      rw (c, released_key key l s c) refl,
    )

-- On a list in order, `Release` of two keys returns false when the second has a proper prefix in
-- what the first leaves, although the elements that the first is a prefix of have been removed.
pub release_stopped :
    (s : ProtectedKeyList) (key stopped : Key)
    → Sorted s.protected_data
    → blocked s.protected_data key ≡ false
    → blocked (without key s.protected_data) stopped ≡ true
    → ((release s (key ∷ stopped ∷ [])).1 ≡ false)
      × ((release s (key ∷ stopped ∷ [])).0.protected_data ≡ without key s.protected_data)
unfolding release Sorted
release_stopped s key stopped h b b' =
    let l = s.protected_data in
    let (dirty, result, e) =
      release_loop-step l s.dirty false key (stopped ∷ []) h (covered-from_bound key l h ∙ b) in
    let stop =
      e
      ∙ release_loop-covered (without key l) dirty result stopped []
          (covered-from_bound stopped (without key l) (without-sorted key l h) ∙ b') in
    (ap (λ d. d.1.1) stop, ap (λ d. d.0) stop)
