-- ===== src/Response/Again.antt =====
-- response.go: a body that is decoded again, as a second `Get` of a future does.
use go_tarantool.Common.{
  ℕ, ◌≡◌, refl, sym, ap, subst, ◌∙◌, inl, inr, true, List, Option, none, Outcome, returns, fails,
  panics, ltb, length,
}
use go_tarantool.Msgpack.Decoder.{Decoder, ◌>>-◌, each, turns}
use go_tarantool.BoxError.{BoxError}
use go_tarantool.Request.WellFormed.{returns_inj}
use go_tarantool.Response.{
  Response, ServerError, ResponseReader, BodyState, body_pair, start_body, with_prepared,
  with_protocol, with_error, decode_body,
}
use go_tarantool.Response.Uniform.{Update, update_all, loop-Uniform}
use go_tarantool.Response.Errors.{
  StaysError, IsErrorOf, with_error-again, with_error-code, with_error-IsErrorOf,
}
use go_tarantool.Response.Filled.{
  last_of, as_error_info, filled, Overrides, settled, settled-Overrides, update_all-filled,
  finish_again, settled-fixed,
}

fails-returns : {A B : Type 0} (a : A) → fails ≡ returns a → B
fails-returns a e = absurd (cc)

panics-returns : {A B : Type 0} (a : A) → panics ≡ returns a → B
panics-returns a e = absurd (cc)

module _ {V : Type 0} where
  -- What stands behind the loop, and once more.
  finish_twice :
      (g : Response V → Outcome (Response V)) (us : List (Update V)) (info : Option (BoxError V))
      (x left : Response V) (error : Option (ServerError V)) (o : Outcome (Response V))
      → Overrides g
      → StaysError x.code
      → g (filled us x) ≡ o
      → (o >>- (λ y. returns (with_error info y))) ≡ returns (left, error)
      → IsErrorOf x.code error
        × ((g (filled us left) >>- (λ y. returns (with_error info y))) ≡ returns (left, error))
        × (left.buf ≡ x.buf)
  finish_twice g us info x left error fails hg h e k = fails-returns (left, error) k
  finish_twice g us info x left error panics hg h e k = panics-returns (left, error) k
  finish_twice g us info x left error (returns y) hg h e k =
      let made : with_error info y ≡ (left, error) = returns_inj k in
      let (code, buf) = settled-fixed g us x y hg e in
      let only : left ≡ record y { code = left.code } =
        subst (λ r. r.0 ≡ record y { code = r.0.code }) made (with_error-code info y) in
      let second : g (filled us left) ≡ returns left =
        subst (λ z. g (filled us z) ≡ returns z) (sym only)
          (finish_again g us x y left.code hg e) in
      let stays : StaysError y.code = subst StaysError (sym code) h in
      (
        subst (λ r. IsErrorOf x.code r.1) made
            (subst (λ c. IsErrorOf c (with_error info y).1) code (with_error-IsErrorOf info y)),
        ap (λ o. o >>- (λ z. returns (with_error info z))) second
            ∙ ap returns
                (subst (λ r. with_error info (r.0) ≡ r) made (with_error-again info y stays)),
        ap (λ z. z.buf) only ∙ buf,
      )

module _ {V : Type 0} (d : Decoder V) (rr : ResponseReader V) where
  abbrev behind : Outcome (BodyState V × List ℕ) → Outcome (Response V × Option (ServerError V))
  behind o = o >>- (λ r.
      with_protocol d rr r.0.version r.0.features r.0.auth (with_prepared d rr r.0)
      >>- (λ left. returns (with_error r.0.error_info left)))

  abbrev loop : List ℕ → BodyState V → Outcome (BodyState V × List ℕ)
  loop input s = d.map_len input >>- (λ l. each (turns l.0) (body_pair d rr) s l.1)

  decode_body-loop :
      (resp : Response V)
      → ltb 2 (length resp.buf) ≡ true
      → decode_body d rr resp ≡ behind (loop resp.buf (start_body d rr resp))
  unfolding decode_body
  decode_body-loop resp h = rw h refl

  behind-settled :
      (us : List (Update V)) (x : Response V) (rest : List ℕ)
      → behind (returns (update_all us (start_body d rr x), rest)) ≡ (
          settled d rr us (start_body d rr x) (filled us x)
          >>- (λ y. returns (with_error (last_of as_error_info none us) y)))
  behind-settled us x rest =
      ap (λ q. behind (returns (q, rest))) (update_all-filled us (start_body d rr x))

  -- A response whose buffer has more than two bytes and whose body could be decoded, and whose code, if it
  -- is that of an error, does not become that of a success or of a push message when its bit of 2 ^ 15 is
  -- cleared. `decodeBody` answers no error for a success or a push message, and otherwise one that has the
  -- response's code without that bit; the buffer is left as it was; and decoding the response that it
  -- has filled once more, as a second `Get` does, gives the same response and the same error.
  pub decode_body-again :
      (resp left : Response V) (error : Option (ServerError V))
      → ltb 2 (length resp.buf) ≡ true
      → StaysError resp.code
      → decode_body d rr resp ≡ returns (left, error)
      → IsErrorOf resp.code error
        × (decode_body d rr left ≡ returns (left, error))
        × (left.buf ≡ resp.buf)
  decode_body-again resp left error h stays e =
      let first = sym (decode_body-loop resp h) ∙ e in
      elim (loop-Uniform d rr resp.buf) [
        | inl k ↦ fails-returns (left, error) (ap behind (sym (k (start_body d rr resp))) ∙ first)
        | inr (inl k) ↦
            panics-returns (left, error) (ap behind (sym (k (start_body d rr resp))) ∙ first)
        | inr (inr (us, rest, k)) ↦
            let g = settled d rr us (start_body d rr resp) in
            let (is_error, again, buf) =
              finish_twice g us (last_of as_error_info none us) resp left error (g (filled us resp))
                (settled-Overrides d rr us (start_body d rr resp)) stays refl
                (sym (behind-settled us resp rest)
                  ∙ ap behind (sym (k (start_body d rr resp)))
                  ∙ first) in
            (
              is_error,
              decode_body-loop left (subst (λ b. ltb 2 (length b) ≡ true) (sym buf) h)
                  ∙ ap (λ b. behind (loop b (start_body d rr left))) buf
                  ∙ ap behind (k (start_body d rr left))
                  ∙ behind-settled us left rest
                  ∙ again,
              buf,
            )
      ]
