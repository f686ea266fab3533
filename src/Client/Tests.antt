-- ===== src/Client/Tests.antt =====
-- Concrete runs of the client's pending requests.
use native.Mathlib.Decide.{ℕ_discrete}
use here_data_sdk_cpp.Common.{ℕ, ◌≡◌, ◌≢◌, refl, arith, true, [], ◌∷◌, ◌++◌, map, none, some}
use here_data_sdk_cpp.Common.Int.{pos}
use here_data_sdk_cpp.Client.PendingUrlRequest.{
  HttpResponse, is_cancelled_status, cancel_operation, PendingUrlRequest, new_request,
  emplace_callback, find_callback, erase_callback, append, execute_or_cancelled, cancel_request,
  no_callbacks, cancel_callback, complete,
}
use here_data_sdk_cpp.Client.PendingUrlRequest.Answer.{
  Reached, answer, cancelled_answer, complete_lem,
}
use here_data_sdk_cpp.Client.PendingUrlRequests.{
  PendingUrlRequests, store, execute, find_request, erase_request, emplace_request, get_or_make,
  append_url, cancel_url, on_request_completed,
}
use here_data_sdk_cpp.Client.PendingUrlRequests.Run.{cancel_url_lost}

abbrev ok : HttpResponse
ok = record { status = pos 200; response = 123 ∷ 125 ∷ [] }

-- Callbacks and tokens are numbers.
abbrev asked : PendingUrlRequest ℕ ℕ
asked = (append (append new_request 10).0 11).0

asked-Reached : Reached (cancel_callback asked 0).0
asked-Reached =
    Reached.cancelled asked 0
      (Reached.appended (append new_request 10).0 11 (Reached.appended new_request 10 Reached.made))

complete_lem_example :
    ((complete (cancel_callback asked 0).0 ok).1
      ≡ map
          (λ e. (e.1, answer (cancel_callback asked 0).0 ok))
          (cancel_callback asked 0).0.callbacks
        ++ map
            (λ c. (c, cancelled_answer (cancel_callback asked 0).0 ok))
            (cancel_callback asked 0).0.cancelled_callbacks)
    × (is_cancelled_status (cancelled_answer (cancel_callback asked 0).0 ok).status ≡ true)
complete_lem_example = complete_lem (cancel_callback asked 0).0 ok asked-Reached

abbrev no_requests : PendingUrlRequests ℕ ℕ ℕ
no_requests = record {
  request = λ p. new_request;
  made = 0;
  pending_requests = [];
  cancelled_requests = [];
}

-- The url 5 is asked, started and cancelled, and asked and started again.
abbrev asked_again : PendingUrlRequests ℕ ℕ ℕ
asked_again =
    let s1 = (append_url ℕ_discrete no_requests 5 10).0 in
    let s2 = (execute s1 0 (λ id. (71, 1))).0 in
    let s3 = (cancel_url ℕ_discrete s2 5 0).0 in
    let s4 = (append_url ℕ_discrete s3 5 11).0 in (execute s4 1 (λ id. (72, 2))).0

-- The url has a cancelled request and a pending one, which is the other.
asked_again-requests :
    (find_request ℕ_discrete 5 asked_again.pending_requests ≡ some 1)
    × (find_request ℕ_discrete 5 asked_again.cancelled_requests ≡ some 0)
    × (find_request ℕ_discrete 5 (erase_request ℕ_discrete 5 asked_again.pending_requests) ≡ none)
unfolding append_url get_or_make store execute cancel_url find_request erase_request emplace_request
    append execute_or_cancelled cancel_callback cancel_request cancel_operation new_request
    emplace_callback find_callback erase_callback no_callbacks ℕ_discrete
asked_again-requests = (refl, refl, refl)

asked_again-ids :
    ((asked_again.request 1).http_request_id ≡ 72)
    × ((asked_again.request 0).http_request_id ≡ 71)
    × ((cancel_callback (asked_again.request 1) 0).0.context.is_cancelled ≡ true)
unfolding append_url get_or_make store execute cancel_url find_request erase_request emplace_request
    append execute_or_cancelled cancel_callback cancel_request cancel_operation new_request
    emplace_callback find_callback erase_callback no_callbacks ℕ_discrete
asked_again-ids = (refl, refl, refl)

zero_one : ◌≢◌ {A = ℕ} 0 1
zero_one = omega arith

ids_differ : (asked_again.request 1).http_request_id ≢ (asked_again.request 0).http_request_id
ids_differ = omega (arith, asked_again-ids.0, asked_again-ids.1)

cancel_url_lost_example :
    on_request_completed ℕ_discrete
      (cancel_url ℕ_discrete asked_again 5 0).0
      (asked_again.request 1).http_request_id
      5
      ok
    ≡ ((cancel_url ℕ_discrete asked_again 5 0).0, [])
cancel_url_lost_example =
    cancel_url_lost ℕ_discrete asked_again 5 0 1 0 ok asked_again-requests.0 asked_again-requests.1
      asked_again-requests.2 zero_one ids_differ asked_again-ids.2
