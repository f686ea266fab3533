-- ===== src/Thread/PriorityQueue/Order.antt =====
-- The queue as the list of its elements in the order in which they leave it.
use mathlib.Core.Path.{subst}
use here_data_sdk_cpp.Common.{
  ℕ, suc, ◌+◌, ◌%◌, ◌^◌, ◌≤◌, ◌<◌, ◌≡◌, refl, sym, ap, ◌∙◌, arith, Bool, true, false, List, [], ◌∷◌,
  map, some, ltb, if◌then◌else◌, Bool-cases, inl, inr,
}
use here_data_sdk_cpp.Thread.PriorityQueue.{
  DistinguishableObject, PriorityQueue, empty_queue, has_no_elements, get_next_id, push, is_below,
  top, without_top, front, pop,
}

module _ {A : Type 0} (priority : A → ℕ) where
  abbrev pub by_priority : A → A → Bool
  by_priority a b = ltb (priority a) (priority b)

  -- A list from the highest priority down, with `a` behind the others of its priority.
  abbrev pub insert_last : A → List A → List A
  insert_last a [] = a ∷ []
  insert_last a (b ∷ l) =
      let rest = insert_last a l in if ltb (priority b) (priority a) then a ∷ b ∷ l else b ∷ rest

  unfoldable pub insert_below :
      DistinguishableObject A → List (DistinguishableObject A) → List (DistinguishableObject A)
  insert_below x [] = x ∷ []
  insert_below x (y ∷ l) =
      let rest = insert_below x l in if is_below by_priority y x then x ∷ y ∷ l else y ∷ rest

  unfoldable pub order : List (DistinguishableObject A) → List (DistinguishableObject A)
  order [] = []
  order (x ∷ l) = insert_below x (order l)

  -- The elements in their order.
  unfoldable pub tasks_of : List (DistinguishableObject A) → List A
  unfolding order insert_below
  tasks_of l = map (λ x. x.obj) (order l)

  -- The ids are below `n`.
  abbrev pub Below : ℕ → List (DistinguishableObject A) → Type 0
  Below n [] = Unit
  Below n (x ∷ l) = (x.id < n) × Below n l

  order-top :
      (x : DistinguishableObject A) (l : List (DistinguishableObject A))
      → order (x ∷ l) ≡ top by_priority x l ∷ order (without_top by_priority x l)
  unfolding order insert_below top without_top
  order-top x [] = refl
  order-top x (y ∷ l) =
      let rest = order-top y l in
      elim (Bool-cases (is_below by_priority (top by_priority y l) x)) [
        | inl below ↦ ap (insert_below x) rest ∙ rw below (ap (λ t. x ∷ t) (sym rest))
        | inr above ↦ ap (insert_below x) rest ∙ rw above refl
      ]

  Below-insert_below :
      (n : ℕ) (x : DistinguishableObject A) (l : List (DistinguishableObject A))
      → x.id < n
      → Below n l
      → Below n (insert_below x l)
  unfolding insert_below
  Below-insert_below n x [] lt h = (lt, tt)
  Below-insert_below n x (y ∷ l) lt h = ground (arith, Below-insert_below n x l)

  Below-order : (n : ℕ) (l : List (DistinguishableObject A)) → Below n l → Below n (order l)
  unfolding order
  Below-order n [] h = tt
  Below-order n (x ∷ l) h = Below-insert_below n x (order l) h.0 (Below-order n l h.1)

  Below-without_top :
      (n : ℕ) (x : DistinguishableObject A) (l : List (DistinguishableObject A))
      → Below n (x ∷ l)
      → Below n (without_top by_priority x l)
  unfolding without_top
  Below-without_top n x [] h = tt
  Below-without_top n x (y ∷ l) h = ground (arith, Below-without_top n y l)

  map-insert_below :
      (x : DistinguishableObject A) (l : List (DistinguishableObject A))
      → Below x.id l
      → map (λ y. y.obj) (insert_below x l) ≡ insert_last x.obj (map (λ y. y.obj) l)
  unfolding insert_below is_below
  map-insert_below x [] h = refl
  map-insert_below x (y ∷ l) h = ground (arith, map-insert_below x l)

  Below-suc : (n : ℕ) (l : List (DistinguishableObject A)) → Below n l → Below (suc n) l
  Below-suc n [] h = tt
  Below-suc n (x ∷ l) h = (omega (arith, h.0), Below-suc n l h.1)

  no_cons : {a : A} → {l : List A} → a ∷ l ≡ [] → ⊥
  no_cons e = cc

  pop_of : ℕ → List (DistinguishableObject A) → PriorityQueue A
  pop_of n l = pop by_priority (record { container = l; next_id = n })

  push-tasks_of :
      (l : List (DistinguishableObject A)) (n : ℕ) (a : A)
      → Below n l
      → tasks_of (push (record { container = l; next_id = n }) a).container
        ≡ insert_last a (tasks_of l)
  unfolding push get_next_id has_no_elements tasks_of order insert_below
  push-tasks_of [] n a h = refl
  push-tasks_of (x ∷ l) n a h =
      map-insert_below (record { id = n; obj = a }) (order (x ∷ l)) (Below-order n (x ∷ l) h)

  push-Below :
      (l : List (DistinguishableObject A)) (n : ℕ) (a : A)
      → Below n l
      → suc n < 2 ^ 32
      → let q = push (record { container = l; next_id = n }) a in
        Below q.next_id q.container × (q.next_id ≤ suc n)
  unfolding push get_next_id has_no_elements
  push-Below [] n a h small = ((omega arith, tt), omega arith)
  push-Below (x ∷ l) n a h small =
      let next : (n + 1) % 2 ^ 32 ≡ suc n = omega arith in
      (
        (omega (arith, next), subst (λ m. Below m (x ∷ l)) (sym next) (Below-suc n (x ∷ l) h)),
        omega (arith, next),
      )

  -- The queue holds the tasks in this order, and its ids are below its counter.
  pub record Holds (tasks : List A) (q : PriorityQueue A) : Type 0 where
    pub ordered : tasks_of q.container ≡ tasks
    pub below : Below q.next_id q.container

  pub push-Holds :
      (tasks : List A) (q : PriorityQueue A) (a : A)
      → Holds tasks q
      → suc q.next_id < 2 ^ 32
      → Holds (insert_last a tasks) (push q a) × ((push q a).next_id ≤ suc q.next_id)
  push-Holds tasks q a h small =
      let (below, counter) = push-Below q.container q.next_id a h.below small in
      (
        record {
          ordered = push-tasks_of q.container q.next_id a h.below ∙ ap (insert_last a) h.ordered;
          below = below;
        },
        counter,
      )

  pub empty_queue-Holds : Holds [] empty_queue
  unfolding tasks_of order
  empty_queue-Holds = record { ordered = refl; below = tt }

  no_container : (l : List (DistinguishableObject A)) → tasks_of l ≡ [] → l ≡ []
  unfolding tasks_of
  no_container [] e = refl
  no_container (x ∷ l) e = absurd (no_cons (sym (ap (map (λ y. y.obj)) (order-top x l)) ∙ e))

  pub front_empty : (q : PriorityQueue A) → Holds [] q → has_no_elements q ≡ true
  unfolding has_no_elements
  front_empty q h = rw (no_container q.container h.ordered) refl

  container_some :
      (l : List (DistinguishableObject A)) (a : A) (tasks : List A)
      → tasks_of l ≡ a ∷ tasks
      → (x : DistinguishableObject A) × (rest : List (DistinguishableObject A)) × (l ≡ x ∷ rest)
        × ((top by_priority x rest).obj ≡ a)
        × (tasks_of (without_top by_priority x rest) ≡ tasks)
  unfolding tasks_of order
  container_some [] a tasks e = absurd (no_cons (sym e))
  container_some (x ∷ l) a tasks e =
      let both = sym (ap (map (λ y. y.obj)) (order-top x l)) ∙ e in (x, l, refl, cc, cc)

  pub front-Holds :
      (a : A) (tasks : List A) (q : PriorityQueue A)
      → Holds (a ∷ tasks) q
      → (has_no_elements q ≡ false)
        × (front by_priority q ≡ some a)
        × Holds tasks (pop by_priority q)
        × ((pop by_priority q).next_id ≡ q.next_id)
  unfolding front pop pop_of has_no_elements
  front-Holds a tasks q h =
      let (x, rest, is, first, others) = container_some q.container a tasks h.ordered in
      let below = subst (Below q.next_id) is h.below in
      let pops : pop by_priority q
          ≡ record { container = without_top by_priority x rest; next_id = q.next_id } =
        ap (pop_of q.next_id) is in
      (
        rw is refl,
        rw is (ap some first),
        record {
          ordered = ap (λ p. tasks_of p.container) pops ∙ others;
          below =
              subst (λ p. Below p.next_id p.container) (sym pops)
                (Below-without_top q.next_id x rest below);
        },
        ap (λ p. p.next_id) pops,
      )
