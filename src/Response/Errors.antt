-- ===== src/Response/Errors.antt =====
-- response.go: the error that a response answers, and what it does to the response.
use go_tarantool.Common.{
  ℕ, ◌+◌, ◌*◌, ◌/◌, ◌%◌, ◌^◌, ◌≡◌, refl, sym, ap, ◌∙◌, inl, inr, true, false, ◌||◌, Bool-cases,
  Option, none, some, if◌then◌else◌, ◌==◌, arith,
}
use go_tarantool.Iproto.{ok_code, push_code}
use go_tarantool.BoxError.{BoxError}
use go_tarantool.Response.{Response, ServerError, clear_error_bit, with_error}

clear_error_bit-twice : (code : ℕ) → clear_error_bit (clear_error_bit code) ≡ clear_error_bit code
unfolding clear_error_bit
clear_error_bit-twice code = ground arith

-- Clearing the error's bit makes no success and no push message of an error.
abbrev pub StaysError : ℕ → Type 0
StaysError code =
    (clear_error_bit code == ok_code || clear_error_bit code == push_code)
    ≡ (code == ok_code || code == push_code)

module _ {V : Type 0} where
  abbrev failed_with : Option (BoxError V) → Response V → ℕ → Response V × Option (ServerError V)
  failed_with info resp code = (
    record resp { code = code },
    some (record { code = code; msg = resp.error; extended_info = info }),
  )

  with_error-success :
      (info : Option (BoxError V)) (resp : Response V)
      → (resp.code == ok_code || resp.code == push_code) ≡ true
      → with_error info resp ≡ (resp, none)
  unfolding with_error
  with_error-success info resp h =
      ap (λ b. if b then (resp, none) else failed_with info resp (clear_error_bit resp.code)) h

  with_error-failure :
      (info : Option (BoxError V)) (resp : Response V)
      → (resp.code == ok_code || resp.code == push_code) ≡ false
      → with_error info resp ≡ failed_with info resp (clear_error_bit resp.code)
  unfolding with_error
  with_error-failure info resp h =
      ap (λ b. if b then (resp, none) else failed_with info resp (clear_error_bit resp.code)) h

  pub with_error-again :
      (info : Option (BoxError V)) (resp : Response V)
      → StaysError resp.code
      → with_error info ((with_error info resp).0) ≡ with_error info resp
  with_error-again info resp h =
      elim (Bool-cases (resp.code == ok_code || resp.code == push_code)) [
        | inl e ↦ ap (λ r. with_error info (r.0)) (with_error-success info resp e)
        | inr e ↦
            let code = clear_error_bit resp.code in
            let first = with_error-failure info resp e in
            ap (λ r. with_error info (r.0)) first
            ∙ with_error-failure info (record resp { code = code }) (h ∙ e)
            ∙ ap (failed_with info resp) (clear_error_bit-twice resp.code)
            ∙ sym first
      ]

  -- Only the code may have changed.
  pub with_error-code :
      (info : Option (BoxError V)) (resp : Response V)
      → (with_error info resp).0 ≡ record resp { code = (with_error info resp).0.code }
  with_error-code info resp = elim (Bool-cases (resp.code == ok_code || resp.code == push_code)) [
    | inl e ↦ rw (with_error-success info resp e) refl
    | inr e ↦ rw (with_error-failure info resp e) refl
  ]

  -- The error of a response with the code: none for a success or a push message, and otherwise one that has
  -- the code without its bit of 2 ^ 15.
  abbrev pub IsErrorOf : ℕ → Option (ServerError V) → Type 0
  IsErrorOf code none = (code == ok_code || code == push_code) ≡ true
  IsErrorOf code (some e) =
      ((code == ok_code || code == push_code) ≡ false)
      × (e.code ≡ code % 2 ^ 15 + code / 2 ^ 16 * 2 ^ 16)

  pub with_error-IsErrorOf :
      (info : Option (BoxError V)) (resp : Response V)
      → IsErrorOf resp.code (with_error info resp).1
  unfolding clear_error_bit
  with_error-IsErrorOf info resp =
      elim (Bool-cases (resp.code == ok_code || resp.code == push_code)) [
        | inl e ↦ rw (with_error-success info resp e) e
        | inr e ↦ rw (with_error-failure info resp e) (e, ground arith)
      ]
