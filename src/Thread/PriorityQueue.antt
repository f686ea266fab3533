-- ===== src/Thread/PriorityQueue.antt =====
-- `PriorityQueueExtended` of olp-cpp-sdk-core/src/thread/PriorityQueueExtended.h. The container is
-- a heap of the standard library: here the list of its elements, the latest pushed first, and its
-- front is the element that no other is above in `Compare`.
pub mod Order
use here_data_sdk_cpp.Common.{
  ℕ, suc, ◌+◌, ◌%◌, ◌^◌, Bool, true, false, not, ◌&&◌, ◌||◌, List, [], ◌∷◌, Option, none, some, ltb,
  if◌then◌else◌,
}

pub record DistinguishableObject (A : Type 0) : Type 0 where
  pub id : ℕ
  pub obj : A

pub record PriorityQueue (A : Type 0) : Type 0 where
  pub container : List (DistinguishableObject A)
  pub next_id : ℕ

module _ {A : Type 0} where
  abbrev pub empty_queue : PriorityQueue A
  empty_queue = record { container = []; next_id = 0 }

  -- `empty()`.
  unfoldable pub has_no_elements : PriorityQueue A → Bool
  has_no_elements q = elim q.container [ [] ↦ true | _ ∷ _ ↦ false ]

  -- `GetNextId`: the id, a `std::uint32_t`, and the counter after it.
  unfoldable pub get_next_id : PriorityQueue A → ℕ × ℕ
  get_next_id q =
      let next_id = if has_no_elements q then 0 else q.next_id in (next_id, (next_id + 1) % 2 ^ 32)

  unfoldable pub push : PriorityQueue A → A → PriorityQueue A
  push q value =
      let ids = get_next_id q in
      record { container = record { id = ids.0; obj = value } ∷ q.container; next_id = ids.1 }

  module _ (compare_objects : A → A → Bool) where
    -- `Compare`.
    unfoldable pub is_below : DistinguishableObject A → DistinguishableObject A → Bool
    is_below lhs rhs =
        compare_objects lhs.obj rhs.obj
        || not (compare_objects rhs.obj lhs.obj) && ltb rhs.id lhs.id

    -- The top of the heap of `x` and the elements of a list, and the heap without it.
    unfoldable pub top :
        DistinguishableObject A → List (DistinguishableObject A) → DistinguishableObject A
    top x [] = x
    top x (y ∷ l) = let m = top y l in if is_below m x then x else m

    unfoldable pub without_top :
        DistinguishableObject A → List (DistinguishableObject A) → List (DistinguishableObject A)
    without_top x [] = []
    without_top x (y ∷ l) =
        let rest = without_top y l in if is_below (top y l) x then y ∷ l else x ∷ rest

    -- `front` of an empty container is undefined in the source.
    unfoldable pub front : PriorityQueue A → Option A
    front q = elim q.container [ [] ↦ none | x ∷ l ↦ some (top x l).obj ]

    unfoldable pub pop : PriorityQueue A → PriorityQueue A
    pop q = elim q.container [ [] ↦ q | x ∷ l ↦ record q { container = without_top x l } ]
