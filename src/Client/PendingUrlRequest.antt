-- ===== src/Client/PendingUrlRequest.antt =====
-- `PendingUrlRequest` of olp-cpp-sdk-core/src/client/PendingUrlRequests.cpp and .h, with the
-- `CancellationContext` that it holds. Each operation holds the object's mutex, so it is one step.
-- A callback's call and a token's cancellation are values: they are returned in their order.
pub mod Answer
pub mod Ids
use here_data_sdk_cpp.Common.{
  ℕ, zero, suc, ◌+◌, Bool, true, false, List, [], ◌∷◌, ◌++◌, map, Option, none, some, ltb, leb,
  ◌==◌, length, if◌then◌else◌,
}
use here_data_sdk_cpp.Common.Int.{ℤ, pos, negsuc}

pub record HttpResponse : Type 0 where
  pub status : ℤ
  pub response : List ℕ

-- `ErrorCode::CANCELLED_ERROR`, which is -5.
abbrev pub cancelled_status : ℤ
cancelled_status = negsuc 4

unfoldable pub is_cancelled_status : ℤ → Bool
is_cancelled_status (pos n) = false
is_cancelled_status (negsuc n) = n == 4

-- "Operation cancelled".
abbrev pub cancelled_response : HttpResponse
cancelled_response = record {
  status = cancelled_status;
  response =
      79 ∷ 112 ∷ 101 ∷ 114 ∷ 97 ∷ 116 ∷ 105 ∷ 111 ∷ 110 ∷ 32 ∷ 99 ∷ 97 ∷ 110 ∷ 99 ∷ 101 ∷ 108 ∷ 108
      ∷ 101 ∷ 100 ∷ [];
}

-- `T` is `CancellationToken`; none is the default token, whose `Cancel` does nothing.
pub record CancellationContext (T : Type 0) : Type 0 where
  pub is_cancelled : Bool
  pub sub_operation_cancel_token : Option T

-- `CancelOperation`, with the tokens that are cancelled.
unfoldable pub cancel_operation :
    {T : Type 0} → CancellationContext T → CancellationContext T × List T
cancel_operation c = if c.is_cancelled then (c, []) else (
  record { is_cancelled = true; sub_operation_cancel_token = none },
  elim c.sub_operation_cancel_token [ none ↦ [] | some t ↦ t ∷ [] ],
)

-- `C` is `NetworkAsyncCallback`. The map's elements stand in the order of their ids.
pub record PendingUrlRequest (T C : Type 0) : Type 0 where
  pub http_request_id : ℕ
  pub context : CancellationContext T
  pub callbacks : List (ℕ × C)
  pub cancelled_callbacks : List C
  pub notified : Bool

abbrev pub invalid_request_id : ℕ
invalid_request_id = 0

module _ {C : Type 0} where
  -- `std::map::emplace`: an element with the key stays.
  unfoldable pub emplace_callback : ℕ → C → List (ℕ × C) → List (ℕ × C)
  emplace_callback id callback [] = (id, callback) ∷ []
  emplace_callback id callback ((j, c) ∷ l) =
      if ltb id j
      then (id, callback) ∷ (j, c) ∷ l
      else if id == j
      then (j, c) ∷ l
      else (j, c) ∷ emplace_callback id callback l

  unfoldable pub find_callback : ℕ → List (ℕ × C) → Option C
  find_callback id [] = none
  find_callback id ((j, c) ∷ l) = if id == j then some c else find_callback id l

  unfoldable pub erase_callback : ℕ → List (ℕ × C) → List (ℕ × C)
  erase_callback id [] = []
  erase_callback id ((j, c) ∷ l) = if id == j then l else (j, c) ∷ erase_callback id l

  unfoldable pub no_callbacks : List (ℕ × C) → Bool
  no_callbacks [] = true
  no_callbacks (c ∷ l) = false

  -- The calls of the callbacks that are left, and of those that are cancelled.
  unfoldable pub respond : List (ℕ × C) → List C → HttpResponse → List (C × HttpResponse)
  respond ((j, c) ∷ []) [] response_out = (c, response_out) ∷ []
  respond [] (c ∷ []) response_out = (c, response_out) ∷ []
  respond callbacks cancelled_callbacks response_out =
      map (λ e. (e.1, response_out)) callbacks
      ++ map
          (λ c. (
            c,
            if is_cancelled_status response_out.status then response_out else cancelled_response,
          ))
          cancelled_callbacks

module _ {T C : Type 0} where
  unfoldable pub new_request : PendingUrlRequest T C
  new_request = record {
    http_request_id = invalid_request_id;
    context = record { is_cancelled = false; sub_operation_cancel_token = none };
    callbacks = [];
    cancelled_callbacks = [];
    notified = false;
  }

  -- The result is the callback's id.
  unfoldable pub append : PendingUrlRequest T C → C → PendingUrlRequest T C × ℕ
  append r callback = (
    record r { callbacks = emplace_callback (length r.callbacks) callback r.callbacks },
    length r.callbacks,
  )

  -- Where the context is not cancelled, `func` stores the request's id and returns its token.
  unfoldable pub execute_or_cancelled :
      PendingUrlRequest T C → (ℕ → ℕ × T) → PendingUrlRequest T C × Bool
  execute_or_cancelled r func = if r.context.is_cancelled then (r, false) else (
    record r {
      http_request_id = (func r.http_request_id).0;
      context = record r.context { sub_operation_cancel_token = some (func r.http_request_id).1 };
    },
    true,
  )

  -- `PendingUrlRequest::CancelOperation`.
  unfoldable pub cancel_request : PendingUrlRequest T C → PendingUrlRequest T C × List T
  cancel_request r =
      let done = cancel_operation r.context in (record r { context = done.0 }, done.1)

  -- `PendingUrlRequest::Cancel`: the request, the tokens cancelled, and whether the id is known.
  unfoldable pub cancel_callback :
      PendingUrlRequest T C → ℕ → PendingUrlRequest T C × (List T × Bool)
  cancel_callback r callback_id = elim (find_callback callback_id r.callbacks) [
    | none ↦ (r, ([], false))
    | some c ↦
        let rest = erase_callback callback_id r.callbacks in
        let moved : PendingUrlRequest T C = record r {
          callbacks = rest;
          cancelled_callbacks = r.cancelled_callbacks ++ c ∷ [];
        } in
        if no_callbacks rest
        then ((cancel_request moved).0, ((cancel_request moved).1, true))
        else (moved, ([], true))
  ]

  -- `PendingUrlRequest::OnRequestCompleted`.
  unfoldable pub complete :
      PendingUrlRequest T C → HttpResponse → PendingUrlRequest T C × List (C × HttpResponse)
  complete r response = (
    record r {
      callbacks = [];
      cancelled_callbacks = [];
      http_request_id = invalid_request_id;
      notified = true;
    },
    respond r.callbacks r.cancelled_callbacks
        (if r.context.is_cancelled then cancelled_response else response),
  )
