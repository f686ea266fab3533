-- ===== src/Client/PendingUrlRequests/Run.antt =====
-- Runs of `PendingUrlRequests`: which request an answer reaches.
use here_data_sdk_cpp.Common.{
  ℕ, ◌≡◌, ◌≢◌, refl, arith, Bool, true, false, List, [], ◌∷◌, none, some, ◌==◌, if◌then◌else◌,
}
use here_data_sdk_cpp.Client.PendingUrlRequest.{
  HttpResponse, cancel_operation, PendingUrlRequest, cancel_request, cancel_callback,
}
use here_data_sdk_cpp.Client.PendingUrlRequests.{
  PendingUrlRequests, store, cancel_loop, cancel_all, holds_id, find_request, erase_request,
  emplace_request, get_or_make, append_url, cancel_url, on_request_completed,
}

module _ {U : Type 0} (dec : Discrete U) where
  find_request-emplace_request :
      (url : U) (p : ℕ) (l : List (U × ℕ))
      → find_request dec url l ≡ none
      → find_request dec url (emplace_request dec url p l) ≡ some p
  unfolding find_request emplace_request
  find_request-emplace_request url p l h = ground arith

module _ {U T C : Type 0} (dec : Discrete U) where
  -- `Append` joins the pending request of its url, and makes one where there is none; the callback
  -- is appended to it and no other request changes.
  pub append_url_lem :
      (s : PendingUrlRequests U T C) (url : U) (callback : C)
      → (find_request dec url (append_url dec s url callback).0.pending_requests
          ≡ some (append_url dec s url callback).1.0)
        × (find_request dec url s.pending_requests ≡ none
            → (append_url dec s url callback).1.0 ≡ s.made)
        × ((q : ℕ)
            → q ≢ (append_url dec s url callback).1.0
            → (append_url dec s url callback).0.request q ≡ s.request q)
  unfolding append_url get_or_make store
  append_url_lem s url callback = (
    ground (arith, find_request-emplace_request dec url s.made s.pending_requests),
    λ h. ground arith,
    λ q n. ground arith,
  )

  -- The answer to a request id that neither map holds for the url calls nobody and changes nothing.
  pub on_request_completed_other :
      (s : PendingUrlRequests U T C) (request_id : ℕ) (url : U) (response : HttpResponse)
      → holds_id s (find_request dec url s.pending_requests) request_id ≡ false
      → holds_id s (find_request dec url s.cancelled_requests) request_id ≡ false
      → on_request_completed dec s request_id url response ≡ (s, [])
  unfolding on_request_completed
  on_request_completed_other s request_id url response h h' = ground arith

  -- The url of a cancelled request that still waits for its answer is asked again, and the second
  -- request loses its last callback too: it leaves the pending requests and the other keeps its
  -- place among the cancelled ones, so that the answer to the second request calls none of its
  -- callbacks.
  pub cancel_url_lost :
      (s : PendingUrlRequests U T C) (url : U) (callback_id p q : ℕ) (response : HttpResponse)
      → find_request dec url s.pending_requests ≡ some p
      → find_request dec url s.cancelled_requests ≡ some q
      → find_request dec url (erase_request dec url s.pending_requests) ≡ none
      → q ≢ p
      → (s.request p).http_request_id ≢ (s.request q).http_request_id
      → (cancel_callback (s.request p) callback_id).0.context.is_cancelled ≡ true
      → on_request_completed dec
          (cancel_url dec s url callback_id).0
          (s.request p).http_request_id
          url
          response
        ≡ ((cancel_url dec s url callback_id).0, [])
  unfolding cancel_url store holds_id emplace_request
  cancel_url_lost s url callback_id p q response e e' gone n n' c =
      on_request_completed_other (cancel_url dec s url callback_id).0 (s.request p).http_request_id
        url response (ground arith) (ground arith)

-- Whether the map holds the pointer.
unfoldable pub holds : {U : Type 0} → ℕ → List (U × ℕ) → Bool
holds p [] = false
holds p ((url, q) ∷ l) = if p == q then true else holds p l

module _ {T C : Type 0} where
  cancel_request-is_cancelled :
      (r : PendingUrlRequest T C) → (cancel_request r).0.context.is_cancelled ≡ true
  unfolding cancel_request cancel_operation
  cancel_request-is_cancelled r = ground arith

module _ {U T C : Type 0} where
  cancel_loop-is_cancelled :
      (s : PendingUrlRequests U T C) (l : List (U × ℕ)) (p : ℕ)
      → (if holds p l then true else (s.request p).context.is_cancelled) ≡ true
      → ((cancel_loop s l).0.request p).context.is_cancelled ≡ true
  unfolding cancel_loop holds store
  cancel_loop-is_cancelled s [] p h = h
  cancel_loop-is_cancelled s ((url, q) ∷ l) p h =
      cancel_loop-is_cancelled (store s q (cancel_request (s.request q)).0) l p
        (ground (arith, cancel_request-is_cancelled (s.request q)))

  cancel_loop-requests :
      (s : PendingUrlRequests U T C) (l : List (U × ℕ))
      → ((cancel_loop s l).0.pending_requests ≡ s.pending_requests)
        × ((cancel_loop s l).0.cancelled_requests ≡ s.cancelled_requests)
  unfolding cancel_loop store
  cancel_loop-requests s [] = (refl, refl)
  cancel_loop-requests s ((url, q) ∷ l) =
      cancel_loop-requests (store s q (cancel_request (s.request q)).0) l

  -- `CancelAll` cancels every pending request, and all stay where they are until their answers
  -- come.
  cancel_all_lem :
      (s : PendingUrlRequests U T C)
      → ((p : ℕ)
          → holds p s.pending_requests ≡ true
          → ((cancel_all s).0.request p).context.is_cancelled ≡ true)
        × ((cancel_all s).0.pending_requests ≡ s.pending_requests)
        × ((cancel_all s).0.cancelled_requests ≡ s.cancelled_requests)
  unfolding cancel_all
  cancel_all_lem s = (
    λ p h. cancel_loop-is_cancelled s s.pending_requests p (ground arith),
    (cancel_loop-requests s s.pending_requests).0,
    (cancel_loop-requests s s.pending_requests).1,
  )
