-- ===== src/Future/Drain.antt =====
-- future.go: what an iterator hands out.
use go_tarantool.Common.{
  ℕ, zero, suc, ◌+◌, ◌<◌, ◌≡◌, refl, ap, sym, subst, ◌∙◌, Bool, true, false, List, [], ◌∷◌, ◌++◌,
  Option, none, some, if◌then◌else◌, lt→ltb, ◌==◌, ==_iff, length, length-append, get_elem?, All,
  arith,
}
use mathlib.Core.List.{append-nil, append_assoc}
use go_tarantool.Future.{FutureState}
use go_tarantool.Future.Iterator.{
  ResponseIterator, new_iterator, same_response, next_response, read_next, is_last, decoded,
  deliver, next_loop, next, value,
}

abbrev listed : Option ℕ → List ℕ
listed none = []
listed (some r) = r ∷ []

get_elem?-middle :
    (front rest : List ℕ) (a : ℕ) → get_elem? (front ++ (a ∷ rest)) (length front) ≡ some a
get_elem?-middle [] rest a = refl
get_elem?-middle (b ∷ front) rest a = get_elem?-middle front rest a

module _ {E : Type 0} where
  abbrev after_next : Option (Bool × ResponseIterator E) → (ResponseIterator E → List ℕ) → List ℕ
  after_next none rest = []
  after_next (some (false, it)) rest = rest it
  after_next (some (true, it)) rest = listed (value it) ++ rest it

  -- So many calls of `Next` without a timeout, and the `Value` behind each one that answered true. A
  -- call that answered false does not end it.
  unfoldable pub drain : ℕ → (ℕ → Option E) → FutureState E → ResponseIterator E → List ℕ
  unfolding next value
  drain zero decode_body fut it = []
  drain (suc n) decode_body fut it =
      after_next (next decode_body none fut it) (drain n decode_body fut)

  abbrev at_pos : ℕ → Option ℕ → Bool → ResponseIterator E
  at_pos n r finished = record { resp = r; err = none; cur_pos = n; finished = finished }

  module _ (decode_body : ℕ → Option E) (fut : FutureState E) (r : ℕ)
      (decodes : (a : ℕ) → decode_body a ≡ none) (hr : fut.resp ≡ some r)
      (he : fut.err ≡ none) where
    abbrev delivered : ℕ → Option ℕ → Option ℕ → Option E → Option (Bool × ResponseIterator E)
    delivered n o q e = some (
        deliver decode_body (same_response o q) o
          (record { resp = o; err = e; cur_pos = n; finished = false }))

    next-delivered :
        (n a : ℕ) (last : Option ℕ)
        → next_response fut n ≡ some a
        → next decode_body none fut (at_pos n last false) ≡ delivered n (some a) (some r) none
    unfolding next next_loop read_next is_last
    next-delivered n a last h =
        ap (λ o. delivered n o fut.resp fut.err) h
        ∙ ap (λ q. delivered n (some a) q fut.err) hr
        ∙ ap (λ e. delivered n (some a) (some r) e) he

    next-push :
        (n a : ℕ) (last : Option ℕ)
        → next_response fut n ≡ some a
        → (a == r) ≡ false
        → next decode_body none fut (at_pos n last false)
          ≡ some (true, at_pos (n + 1) (some a) false)
    next-push n a last h hne =
        next-delivered n a last h
        ∙ ap (λ e. some (decoded e (a == r) (at_pos n (some a) false))) (decodes a)
        ∙ ap (λ b. some (decoded none b (at_pos n (some a) false))) hne

    next-last :
        (n : ℕ) (last : Option ℕ)
        → next_response fut n ≡ some r
        → next decode_body none fut (at_pos n last false) ≡ some (true, at_pos n (some r) true)
    next-last n last h =
        next-delivered n r last h
        ∙ ap (λ e. some (decoded e (r == r) (at_pos n (some r) false))) (decodes r)
        ∙ ap (λ b. some (decoded none b (at_pos n (some r) false))) ((==_iff r r).1 refl)

    next_response-end : next_response fut (length fut.pushes) ≡ some r
    unfolding next_response
    next_response-end = ground (arith, hr)

    next_response-middle :
        (front rest : List ℕ) (a : ℕ)
        → fut.pushes ≡ front ++ (a ∷ rest)
        → next_response fut (length front) ≡ some a
    unfolding next_response
    next_response-middle front rest a h =
        let n = length-append front (a ∷ rest) in
        let below : length front < length fut.pushes =
          subst (λ l. length front < length l) (sym h) (omega arith) in
        ap
          (λ b.
            if b
            then get_elem? fut.pushes (length front)
            else if length front == length fut.pushes
            then fut.resp
            else none)
          (lt→ltb (length front) (length fut.pushes) below)
        ∙ ap (λ l. get_elem? l (length front)) h
        ∙ get_elem?-middle front rest a

    drain-finished : (k n : ℕ) (last : Option ℕ) → drain k decode_body fut (at_pos n last true) ≡ []
    unfolding drain next
    drain-finished zero n last = refl
    drain-finished (suc k) n last = drain-finished k n none

    drain-rest :
        (rest front : List ℕ) (k : ℕ) (last : Option ℕ)
        → fut.pushes ≡ front ++ rest
        → All (λ a. (a == r) ≡ false) rest
        → drain (length rest + (1 + k)) decode_body fut (at_pos (length front) last false)
          ≡ rest ++ (r ∷ [])
    unfolding drain
    drain-rest [] front k last h fresh =
        let n : length {A = ℕ} [] + (1 + k) ≡ suc k = omega arith in
        let at : next_response fut (length front) ≡ some r =
          subst (λ l. next_response fut (length l) ≡ some r) (h ∙ append-nil front)
            next_response-end in
        ap (λ j. drain j decode_body fut (at_pos (length front) last false)) n
        ∙ ap (λ o. after_next o (drain k decode_body fut)) (next-last (length front) last at)
        ∙ ap (λ l. r ∷ l) (drain-finished k (length front) (some r))
    drain-rest (a ∷ rest) front k last h (ha, fresh) =
        let n : length (a ∷ rest) + (1 + k) ≡ suc (length rest + (1 + k)) = omega arith in
        let at = next_response-middle front rest a h in
        let m : length front + 1 ≡ length (front ++ (a ∷ [])) =
          omega (arith, length-append front (a ∷ [])) in
        ap (λ j. drain j decode_body fut (at_pos (length front) last false)) n
        ∙ ap (λ o. after_next o (drain (length rest + (1 + k)) decode_body fut))
            (next-push (length front) a last at ha)
        ∙ ap (λ j. a ∷ drain (length rest + (1 + k)) decode_body fut (at_pos j (some a) false)) m
        ∙ ap (λ l. a ∷ l)
            (drain-rest rest (front ++ (a ∷ [])) k (some a)
              (h ∙ sym (append_assoc front (a ∷ []) rest)) fresh)

  -- An iterator without a timeout over a future that has its response and no error: as many calls of `Next` as
  -- there are push messages, and one more, hand out every push message, in their order, and the response
  -- behind them, each once; any number `k` of further calls hands out nothing, whether they answer true or
  -- false. The response is none of the pushes, and all of them can be decoded.
  pub drain-all :
      (decode_body : ℕ → Option E) (fut : FutureState E) (r k : ℕ)
      → ((a : ℕ) → decode_body a ≡ none)
      → fut.resp ≡ some r
      → fut.err ≡ none
      → All (λ a. (a == r) ≡ false) fut.pushes
      → drain (length fut.pushes + (1 + k)) decode_body fut new_iterator ≡ fut.pushes ++ (r ∷ [])
  drain-all decode_body fut r k decodes hr he fresh =
      drain-rest decode_body fut r decodes hr he fut.pushes [] k none refl fresh
