-- ===== src/Msgpack/Decoder.antt =====
-- What the code uses of the msgpack library's decoder. A read gives what it has read and the input behind
-- that, or an error.
use go_tarantool.Common.{
  ℕ, zero, suc, ◌^◌, ◌<◌, ◌≡◌, refl, ap, sym, ◌∙◌, String, Bool, List, [], ◌++◌, Option, none, some,
  Outcome, returns, fails, panics,
}
use mathlib.Core.List.{append_assoc}
use mathlib.Core.Option.{some_inj}
use go_tarantool.Msgpack.{Codec}
use go_tarantool.Msgpack.Objects.{◌▸◌}

-- The length of a map or an array is `none` for nil, where the library says -1. `int` reads the
-- integers that are not negative.
pub record Decoder (V : Type 0) : Type 0 where
  pub map_len : List ℕ → Outcome (Option ℕ × List ℕ)
  pub array_len : List ℕ → Outcome (Option ℕ × List ℕ)
  pub uint : List ℕ → Outcome (ℕ × List ℕ)
  pub int : List ℕ → Outcome (ℕ × List ℕ)
  pub string : List ℕ → Outcome (String × List ℕ)
  pub bool : List ℕ → Outcome (Bool × List ℕ)
  pub bytes : List ℕ → Outcome (List ℕ × List ℕ)
  pub value : List ℕ → Outcome (V × List ℕ)
  pub skip : List ℕ → Outcome (List ℕ)

-- `if err != nil { return err }`
infixl 5 ◌>>-◌
abbrev pub ◌>>-◌ : {A B : Type 0} → Outcome A → (A → Outcome B) → Outcome B
returns a >>- f = f a
fails >>- f = fails
panics >>- f = panics

-- `for ; l > 0; l-- { … }`, where each turn changes a state and reads on.
unfoldable pub each :
    {A : Type 0} → ℕ → (A → List ℕ → Outcome (A × List ℕ)) → A → List ℕ → Outcome (A × List ℕ)
each zero step a input = returns (a, input)
each (suc n) step a input = step a input >>- (λ r. each n step r.0 r.1)

-- A nil map has no turns.
abbrev pub turns : Option ℕ → ℕ
turns none = 0
turns (some n) = n

-- What was written, if there was no error, is read as `a`, whatever follows it.
abbrev pub Decodes : {A : Type 0} → Option (List ℕ) → (List ℕ → Outcome (A × List ℕ)) → A → Type 0
Decodes w p a = (bs rest : List ℕ) → w ≡ some bs → p (bs ++ rest) ≡ returns (a, rest)

-- The decoder reads what the encoder writes.
pub record IsDecoder {V : Type 0} (m : Codec V) (d : Decoder V) : Type 0 where
  pub map_len_read : (n : ℕ) → n < 2 ^ 32 → Decodes (some (m.encode_map_len n)) d.map_len (some n)
  pub array_len_read :
      (n : ℕ) → n < 2 ^ 32 → Decodes (some (m.encode_array_len n)) d.array_len (some n)
  pub uint_read : (n : ℕ) → n < 2 ^ 64 → Decodes (some (m.encode_uint64 n)) d.uint n
  pub int_read : (n : ℕ) → n < 2 ^ 63 → Decodes (some (m.encode_uint n)) d.int n
  pub string_read : (s : String) → Decodes (some (m.encode_string s)) d.string s
  pub bool_read : (b : Bool) → Decodes (some (m.encode_bool b)) d.bool b

module _ {A B : Type 0} where
  pub Decodes-then :
      (v w : Option (List ℕ)) (p : List ℕ → Outcome (A × List ℕ))
      (q : A × List ℕ → Outcome (B × List ℕ)) (a : A) (b : B)
      → Decodes v p a
      → Decodes w (λ input. q (a, input)) b
      → Decodes (v ▸ w) (λ input. p input >>- q) b
  Decodes-then none w p q a b hp hq bs rest e = absurd (cc)
  Decodes-then (some v) none p q a b hp hq bs rest e = absurd (cc)
  Decodes-then (some v) (some w) p q a b hp hq bs rest e =
      ap (λ l. p (l ++ rest) >>- q) (sym (some_inj.0 e))
      ∙ ap (λ l. p l >>- q) (append_assoc v w rest)
      ∙ ap (λ o. o >>- q) (hp v (w ++ rest) refl)
      ∙ hq w rest refl

  -- The value that was read goes into the state.
  pub Decodes-map :
      (w : Option (List ℕ)) (p : List ℕ → Outcome (A × List ℕ)) (f : A → B) (a : A)
      → Decodes w p a
      → Decodes w (λ input. p input >>- (λ r. returns (f r.0, r.1))) (f a)
  Decodes-map w p f a hp bs rest e = ap (λ o. o >>- (λ r. returns (f r.0, r.1))) (hp bs rest e)

module _ {A : Type 0} (step : A → List ℕ → Outcome (A × List ℕ)) where
  pub Decodes-each-done : (a : A) → Decodes (some []) (each 0 step a) a
  unfolding each
  Decodes-each-done a bs rest e = ap (λ l. returns (a, l ++ rest)) (sym (some_inj.0 e))

  pub Decodes-each-turn :
      (n : ℕ) (v w : Option (List ℕ)) (a b c : A)
      → Decodes v (step a) b
      → Decodes w (each n step b) c
      → Decodes (v ▸ w) (each (suc n) step a) c
  unfolding each
  Decodes-each-turn n v w a b c hv hw =
      Decodes-then v w (step a) (λ r. each n step r.0 r.1) b c hv hw
