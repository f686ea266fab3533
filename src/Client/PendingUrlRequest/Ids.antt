-- ===== src/Client/PendingUrlRequest/Ids.antt =====
-- The ids that `Append` gives, and whom the calls reach.
use mathlib.Core.List.{append-nil, append_assoc}
use here_data_sdk_cpp.Common.{
  ℕ, suc, ◌+◌, ◌≡◌, refl, sym, ap, ◌∙◌, arith, List, [], ◌∷◌, ◌++◌, map, length, if◌then◌else◌,
}
use here_data_sdk_cpp.Client.PendingUrlRequest.{
  HttpResponse, is_cancelled_status, cancelled_response, PendingUrlRequest, new_request,
  emplace_callback, find_callback, erase_callback, append, no_callbacks, cancel_callback, respond,
  complete,
}
use here_data_sdk_cpp.Client.PendingUrlRequest.Answer.{Reached, complete_lem, answer}

module _ {C : Type 0} where
  -- The callbacks under the ids from `n` on.
  abbrev pub numbered : ℕ → List C → List (ℕ × C)
  numbered n [] = []
  numbered n (c ∷ l) = (n, c) ∷ numbered (suc n) l

  emplace_callback-numbered :
      (n : ℕ) (l : List C) (c : C)
      → emplace_callback (n + length l) c (numbered n l) ≡ numbered n (l ++ c ∷ [])
  unfolding emplace_callback
  emplace_callback-numbered n [] c = ground arith
  emplace_callback-numbered n (d ∷ l) c = ground (arith, emplace_callback-numbered (suc n) l c)

  emplace_callback_last :
      (l : List C) (c : C) → emplace_callback (length l) c (numbered 0 l) ≡ numbered 0 (l ++ c ∷ [])
  emplace_callback_last l c = ground (arith, emplace_callback-numbered 0 l c)

  length-numbered : (n : ℕ) (l : List C) → length (numbered n l) ≡ length l
  length-numbered n [] = refl
  length-numbered n (c ∷ l) = ap suc (length-numbered (suc n) l)

  map-numbered :
      (n : ℕ) (l : List C) (response : HttpResponse)
      → map {B = C × HttpResponse} (λ e. (e.1, response)) (numbered n l)
        ≡ map {B = C × HttpResponse} (λ c. (c, response)) l
  map-numbered n [] response = refl
  map-numbered n (c ∷ l) response = ap (λ t. (c, response) ∷ t) (map-numbered (suc n) l response)

module _ {T C : Type 0} where
  -- Several callbacks are appended, one after the other.
  abbrev pub append_all : PendingUrlRequest T C → List C → PendingUrlRequest T C
  append_all r [] = r
  append_all r (c ∷ l) = append_all (append r c).0 l

  append_all-numbered :
      (r : PendingUrlRequest T C) (l m : List C)
      → r.callbacks ≡ numbered 0 l
      → ((append_all r m).callbacks ≡ numbered 0 (l ++ m))
        × ((append_all r m).cancelled_callbacks ≡ r.cancelled_callbacks)
        × ((append_all r m).context ≡ r.context)
  unfolding append
  append_all-numbered r l [] e = (e ∙ ap (numbered 0) (sym (append-nil l)), refl, refl)
  append_all-numbered r l (c ∷ m) e =
      let (all, cancelled, same) =
        append_all-numbered (append r c).0 (l ++ c ∷ []) m
          (rw (e, length-numbered 0 l) (emplace_callback_last l c)) in
      (all ∙ ap (numbered 0) (append_assoc l (c ∷ []) m), cancelled, same)

  Reached-append_all :
      (r : PendingUrlRequest T C) (l : List C) → Reached r → Reached (append_all r l)
  Reached-append_all r [] h = h
  Reached-append_all r (c ∷ l) h = Reached-append_all (append r c).0 l (Reached.appended r c h)

module _ (T : Type 0) {C : Type 0} where
  -- The callbacks that are appended to a new request are called once each, in the order of the
  -- calls of `Append`, with the response.
  complete-append_all :
      (callbacks : List C) (response : HttpResponse)
      → (complete (append_all (new_request {T = T}) callbacks) response).1
        ≡ map (λ c. (c, response)) callbacks
  unfolding new_request answer
  complete-append_all callbacks response =
      let r = append_all (new_request {T = T}) callbacks in
      let (all, cancelled, same) = append_all-numbered (new_request {T = T}) [] callbacks refl in
      let done = complete_lem r response (Reached-append_all new_request callbacks Reached.made) in
      let quiet = ap (λ x. if x.is_cancelled then cancelled_response else response) same in
      done.0 ∙ rw (cancelled, append-nil, all, quiet) (map-numbered 0 callbacks response)

  -- When the first of two callbacks is cancelled, `Append` gives the third the id of the second:
  -- the map keeps the second, and the third is never called.
  pub append_collides :
      (a b c : C) (response : HttpResponse)
      → (complete
          (append (cancel_callback (append_all (new_request {T = T}) (a ∷ b ∷ [])) 0).0 c).0
          response).1
        ≡ (b, response)
          ∷ (a, if is_cancelled_status response.status then response else cancelled_response)
          ∷ []
  unfolding complete append cancel_callback new_request respond emplace_callback find_callback
      erase_callback no_callbacks
  append_collides a b c response = refl
