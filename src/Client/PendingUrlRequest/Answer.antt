-- ===== src/Client/PendingUrlRequest/Answer.antt =====
-- What the callbacks of one request are answered.
use here_data_sdk_cpp.Common.{
  ℕ, ◌≡◌, refl, ap, arith, Bool, true, false, List, [], ◌∷◌, ◌++◌, map, length, if◌then◌else◌,
}
use here_data_sdk_cpp.Client.PendingUrlRequest.{
  HttpResponse, is_cancelled_status, cancelled_response, cancel_operation, PendingUrlRequest,
  new_request, emplace_callback, append, execute_or_cancelled, cancel_request, no_callbacks,
  cancel_callback, respond, complete,
}

module _ {C : Type 0} where
  no_cancelled : List C → Bool
  no_cancelled [] = true
  no_cancelled (c ∷ l) = false

  no_callbacks-emplace_callback :
      (id : ℕ) (c : C) (l : List (ℕ × C)) → no_callbacks (emplace_callback id c l) ≡ false
  unfolding no_callbacks emplace_callback
  no_callbacks-emplace_callback id c [] = refl
  no_callbacks-emplace_callback id c ((j, d) ∷ l) = ground arith

  respond_lem :
      (callbacks : List (ℕ × C)) (cancelled : List C) (response : HttpResponse)
      → (no_callbacks callbacks ≡ true
          → no_cancelled cancelled ≡ false
          → is_cancelled_status response.status ≡ true)
      → respond callbacks cancelled response
        ≡ map (λ e. (e.1, response)) callbacks
          ++ map
              (λ c.
                (c, if is_cancelled_status response.status then response else cancelled_response))
              cancelled
  unfolding respond no_callbacks no_cancelled
  respond_lem [] [] response h = refl
  respond_lem [] (c ∷ []) response h = rw (h refl refl) refl
  respond_lem [] (c ∷ d ∷ l) response h = refl
  respond_lem ((j, c) ∷ []) [] response h = refl
  respond_lem ((j, c) ∷ []) (d ∷ l) response h = refl
  respond_lem (e ∷ f ∷ l) cancelled response h = refl

status_lem :
    (response : HttpResponse)
    → is_cancelled_status
        (if is_cancelled_status response.status then response else cancelled_response).status
      ≡ true
unfolding is_cancelled_status
status_lem response = ground arith

module _ {T C : Type 0} where
  -- A request that has only cancelled callbacks is cancelled itself.
  unfoldable pub IsAnswerable : PendingUrlRequest T C → Type 0
  unfolding no_cancelled
  IsAnswerable r =
      no_callbacks r.callbacks ≡ true
      → no_cancelled r.cancelled_callbacks ≡ false
      → r.context.is_cancelled ≡ true

  append-IsAnswerable :
      (r : PendingUrlRequest T C) (c : C) → IsAnswerable r → IsAnswerable (append r c).0
  unfolding IsAnswerable append
  append-IsAnswerable r c h e e' =
      cc (no_callbacks-emplace_callback (length r.callbacks) c r.callbacks)

  execute_or_cancelled-IsAnswerable :
      (r : PendingUrlRequest T C) (func : ℕ → ℕ × T)
      → IsAnswerable r
      → IsAnswerable (execute_or_cancelled r func).0
  unfolding IsAnswerable execute_or_cancelled
  execute_or_cancelled-IsAnswerable r func h e e' = ground (arith, h)

  cancel_callback-IsAnswerable :
      (r : PendingUrlRequest T C) (id : ℕ) → IsAnswerable r → IsAnswerable (cancel_callback r id).0
  unfolding IsAnswerable cancel_callback cancel_request cancel_operation
  cancel_callback-IsAnswerable r id h e e' = ground (arith, h)

  -- What the callbacks that were not cancelled are answered, and those that were.
  unfoldable pub answer : PendingUrlRequest T C → HttpResponse → HttpResponse
  answer r response = if r.context.is_cancelled then cancelled_response else response

  unfoldable pub cancelled_answer : PendingUrlRequest T C → HttpResponse → HttpResponse
  cancelled_answer r response =
      if is_cancelled_status (answer r response).status
      then answer r response
      else cancelled_response

  -- The requests that the operations make.
  pub data Reached : PendingUrlRequest T C → Type 0 where
    made : Reached new_request
    appended : (r : PendingUrlRequest T C) (c : C) → Reached r → Reached (append r c).0
    executed :
        (r : PendingUrlRequest T C) (func : ℕ → ℕ × T)
        → Reached r
        → Reached (execute_or_cancelled r func).0
    stopped : (r : PendingUrlRequest T C) → Reached r → Reached (cancel_request r).0
    cancelled : (r : PendingUrlRequest T C) (id : ℕ) → Reached r → Reached (cancel_callback r id).0
    completed :
        (r : PendingUrlRequest T C) (response : HttpResponse)
        → Reached r
        → Reached (complete r response).0

  cancel_request-IsAnswerable :
      (r : PendingUrlRequest T C) → IsAnswerable r → IsAnswerable (cancel_request r).0
  unfolding IsAnswerable cancel_request cancel_operation
  cancel_request-IsAnswerable r h e e' = ground (arith, h)

  complete-IsAnswerable :
      (r : PendingUrlRequest T C) (response : HttpResponse) → IsAnswerable (complete r response).0
  unfolding IsAnswerable complete no_cancelled
  complete-IsAnswerable r response e e' = cc

  Reached-IsAnswerable : (r : PendingUrlRequest T C) → Reached r → IsAnswerable r
  unfolding IsAnswerable new_request no_cancelled
  Reached-IsAnswerable _ made = λ e e'. cc
  Reached-IsAnswerable _ (appended r c h) = append-IsAnswerable r c (Reached-IsAnswerable r h)
  Reached-IsAnswerable _ (executed r func h) =
      execute_or_cancelled-IsAnswerable r func (Reached-IsAnswerable r h)
  Reached-IsAnswerable _ (stopped r h) = cancel_request-IsAnswerable r (Reached-IsAnswerable r h)
  Reached-IsAnswerable _ (cancelled r id h) =
      cancel_callback-IsAnswerable r id (Reached-IsAnswerable r h)
  Reached-IsAnswerable _ (completed r response h) = complete-IsAnswerable r response

  -- The completion of a request that the operations have made calls every callback once, those that
  -- are left in the order of their ids and then the cancelled ones; these are answered with the
  -- status of a cancelled request, as are all when the request is cancelled.
  pub complete_lem :
      (r : PendingUrlRequest T C) (response : HttpResponse)
      → Reached r
      → ((complete r response).1
          ≡ map (λ e. (e.1, answer r response)) r.callbacks
            ++ map (λ c. (c, cancelled_answer r response)) r.cancelled_callbacks)
        × (is_cancelled_status (cancelled_answer r response).status ≡ true)
  unfolding IsAnswerable complete answer cancelled_answer is_cancelled_status
  complete_lem r response h = (
    respond_lem r.callbacks r.cancelled_callbacks (answer r response) (λ e e'.
        ap (λ b. is_cancelled_status (if b then cancelled_response else response).status)
          (Reached-IsAnswerable r h e e')),
    status_lem (answer r response),
  )
