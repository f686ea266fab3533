-- ===== src/Client/PendingUrlRequests.antt =====
-- `PendingUrlRequests` of olp-cpp-sdk-core/src/client/PendingUrlRequests.cpp and .h. The shared
-- pointers to requests are numbers, and the requests stand in a store.
pub mod Run
use mathlib.Core.Logic.{ite}
use here_data_sdk_cpp.Common.{
  ℕ, zero, suc, ◌+◌, Bool, true, false, List, [], ◌∷◌, ◌++◌, Option, none, some, ◌==◌, length,
  if◌then◌else◌,
}
use here_data_sdk_cpp.Client.PendingUrlRequest.{
  HttpResponse, PendingUrlRequest, new_request, append, execute_or_cancelled, cancel_request,
  cancel_callback, complete,
}

-- The requests that have been made, and the two maps from an url to its request.
pub record PendingUrlRequests (U T C : Type 0) : Type 0 where
  pub request : ℕ → PendingUrlRequest T C
  pub made : ℕ
  pub pending_requests : List (U × ℕ)
  pub cancelled_requests : List (U × ℕ)

module _ {U : Type 0} (dec : Discrete U) where
  unfoldable pub find_request : U → List (U × ℕ) → Option ℕ
  find_request url [] = none
  find_request url ((u, p) ∷ l) = ite (dec url u) (some p) (find_request url l)

  unfoldable pub erase_request : U → List (U × ℕ) → List (U × ℕ)
  erase_request url [] = []
  erase_request url ((u, p) ∷ l) = ite (dec url u) l ((u, p) ∷ erase_request url l)

  -- `emplace`: an element with the key stays.
  unfoldable pub emplace_request : U → ℕ → List (U × ℕ) → List (U × ℕ)
  emplace_request url p l = elim (find_request url l) [ none ↦ (url, p) ∷ l | some q ↦ l ]

module _ {U T C : Type 0} where
  unfoldable pub store :
      PendingUrlRequests U T C → ℕ → PendingUrlRequest T C → PendingUrlRequests U T C
  store s p r = record s { request = λ q. if q == p then r else s.request q }

  -- The network call that the client starts through the pointer.
  unfoldable pub execute :
      PendingUrlRequests U T C → ℕ → (ℕ → ℕ × T) → PendingUrlRequests U T C × Bool
  execute s p func =
      let done = execute_or_cancelled (s.request p) func in (store s p done.0, done.1)

  -- The loop of `CancelAll`.
  unfoldable pub cancel_loop :
      PendingUrlRequests U T C → List (U × ℕ) → PendingUrlRequests U T C × List T
  cancel_loop s [] = (s, [])
  cancel_loop s ((url, p) ∷ l) =
      let done = cancel_request (s.request p) in
      let rest = cancel_loop (store s p done.0) l in (rest.0, done.1 ++ rest.1)

  unfoldable pub cancel_all : PendingUrlRequests U T C → PendingUrlRequests U T C × List T
  cancel_all s = cancel_loop s s.pending_requests

  -- Whether an entry of a map holds the request with this id.
  unfoldable pub holds_id : PendingUrlRequests U T C → Option ℕ → ℕ → Bool
  holds_id s none request_id = false
  holds_id s (some p) request_id = request_id == (s.request p).http_request_id

  unfoldable pub complete_at :
      PendingUrlRequests U T C
      → Option ℕ
      → HttpResponse
      → PendingUrlRequests U T C × List (C × HttpResponse)
  complete_at s none response = (s, [])
  complete_at s (some p) response =
      let done = complete (s.request p) response in (store s p done.0, done.1)

  unfoldable pub size : PendingUrlRequests U T C → ℕ
  size s = length s.pending_requests + length s.cancelled_requests

module _ {U T C : Type 0} (dec : Discrete U) where
  -- `operator[]`, with the pointer that it returns.
  unfoldable pub get_or_make : PendingUrlRequests U T C → U → PendingUrlRequests U T C × ℕ
  get_or_make s url = elim (find_request dec url s.pending_requests) [
    | some p ↦ (s, p)
    | none ↦ (
      record (store s s.made new_request) {
        made = suc s.made;
        pending_requests = emplace_request dec url s.made s.pending_requests;
      },
      s.made,
    )
  ]

  -- `PendingUrlRequests::Append`: the state, `out`, and the callback's id.
  unfoldable pub append_url : PendingUrlRequests U T C → U → C → PendingUrlRequests U T C × (ℕ × ℕ)
  append_url s url callback =
      let made = get_or_make s url in
      let r = append (made.0.request made.1) callback in (store made.0 made.1 r.0, (made.1, r.1))

  -- `PendingUrlRequests::Cancel`: the state, the tokens cancelled, and the result.
  unfoldable pub cancel_url :
      PendingUrlRequests U T C → U → ℕ → PendingUrlRequests U T C × (List T × Bool)
  cancel_url s url callback_id = elim (find_request dec url s.pending_requests) [
    | none ↦ (s, ([], true))
    | some p ↦
        let done = cancel_callback (s.request p) callback_id in
        let s1 = store s p done.0 in
        if done.0.context.is_cancelled
        then (
          record s1 {
            cancelled_requests = emplace_request dec url p s.cancelled_requests;
            pending_requests = erase_request dec url s.pending_requests;
          },
          done.1,
        )
        else (s1, done.1)
  ]

  -- `PendingUrlRequests::OnRequestCompleted`.
  unfoldable pub on_request_completed :
      PendingUrlRequests U T C
      → ℕ
      → U
      → HttpResponse
      → PendingUrlRequests U T C × List (C × HttpResponse)
  on_request_completed s request_id url response =
      let pending = find_request dec url s.pending_requests in
      let cancelled = find_request dec url s.cancelled_requests in
      if holds_id s pending request_id
      then complete_at (record s { pending_requests = erase_request dec url s.pending_requests })
          pending response
      else if holds_id s cancelled request_id
      then complete_at
          (record s { cancelled_requests = erase_request dec url s.cancelled_requests }) cancelled
          response
      else (s, [])
