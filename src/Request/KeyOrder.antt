-- ===== src/Request/KeyOrder.antt =====
-- request.go: the setters of a select request, called any number of times in any order.
use go_tarantool.Common.{
  ℕ, ◌≡◌, refl, ap, ◌∙◌, Bool, true, false, List, [], ◌∷◌, Option, none, some,
}
use go_tarantool.Msgpack.{Codec}
use go_tarantool.Iproto.{iter_all, iter_eq}
use go_tarantool.Request.Fill.{After, no_after}
use go_tarantool.Request.Select.{
  SelectRequest, new, set_index, set_offset, set_limit, set_iterator, set_key, set_fetch_pos,
  set_after,
}

-- A call of a setter.
pub data Setting (I V : Type 0) : Type 0 where
  index : I → Setting I V
  offset : ℕ → Setting I V
  limit : ℕ → Setting I V
  iterator : ℕ → Setting I V
  key : V → Setting I V
  fetch_pos : Bool → Setting I V
  after : After V → Setting I V

abbrev value_or : {A : Type 0} → Option A → A → A
value_or none a = a
value_or (some b) a = b

-- The last value that was set, or else the one at the start.
abbrev last_of : {X A : Type 0} → (X → Option A) → A → List X → A
last_of pick a [] = a
last_of pick a (x ∷ xs) = last_of pick (value_or (pick x) a) xs

-- The iterator that was set, or else `IterEq` if there is a key, or else what there was.
abbrev chosen : Option ℕ → Bool → ℕ → ℕ
chosen (some i) keyed n = i
chosen none true n = iter_eq
chosen none false n = n

keyed-chosen : (o : Option ℕ) (keyed : Bool) (n : ℕ) → chosen o keyed iter_eq ≡ chosen o true n
keyed-chosen (some i) keyed n = refl
keyed-chosen none true n = refl
keyed-chosen none false n = refl

module _ {I V : Type 0} where
  abbrev pub as_index : Setting I V → Option (Option I)
  as_index (index i) = some (some i)
  as_index _ = none

  abbrev pub as_offset : Setting I V → Option ℕ
  as_offset (offset n) = some n
  as_offset _ = none

  abbrev pub as_limit : Setting I V → Option ℕ
  as_limit (limit n) = some n
  as_limit _ = none

  abbrev pub as_key : Setting I V → Option V
  as_key (key v) = some v
  as_key _ = none

  abbrev pub as_fetch_pos : Setting I V → Option Bool
  as_fetch_pos (fetch_pos b) = some b
  as_fetch_pos _ = none

  abbrev pub as_after : Setting I V → Option (After V)
  as_after (after x) = some x
  as_after _ = none

  abbrev pub as_iterator : Setting I V → Option (Option ℕ)
  as_iterator (iterator n) = some (some n)
  as_iterator _ = none

  abbrev pub has_key : List (Setting I V) → Bool
  has_key [] = false
  has_key (key v ∷ xs) = true
  has_key (_ ∷ xs) = has_key xs

  module _ {S : Type 0} where
    unfoldable pub set : Setting I V → SelectRequest S I V → SelectRequest S I V
    unfolding set_index set_offset set_limit set_iterator set_key set_fetch_pos set_after
    set (index i) req = set_index i req
    set (offset n) req = set_offset n req
    set (limit n) req = set_limit n req
    set (iterator n) req = set_iterator n req
    set (key v) req = set_key v req
    set (fetch_pos b) req = set_fetch_pos b req
    set (after x) req = set_after x req

    unfoldable pub set_all : List (Setting I V) → SelectRequest S I V → SelectRequest S I V
    unfolding set
    set_all [] req = req
    set_all (x ∷ xs) req = set_all xs (set x req)

    -- A field that each call leaves or sets.
    set_all-last_of :
        {A : Type 0} (field : SelectRequest S I V → A) (pick : Setting I V → Option A)
        → ((x : Setting I V) (req : SelectRequest S I V)
            → field (set x req) ≡ value_or (pick x) (field req))
        → (xs : List (Setting I V)) (req : SelectRequest S I V)
        → field (set_all xs req) ≡ last_of pick (field req) xs
    unfolding set_all
    set_all-last_of field pick h [] req = refl
    set_all-last_of field pick h (x ∷ xs) req =
        set_all-last_of field pick h xs (set x req) ∙ ap (λ a. last_of pick a xs) (h x req)

    set-index :
        (x : Setting I V) (req : SelectRequest S I V)
        → (set x req).index ≡ value_or (as_index x) req.index
    unfolding set
    set-index (index i) req = refl
    set-index (offset n) req = refl
    set-index (limit n) req = refl
    set-index (iterator n) req = refl
    set-index (key v) req = refl
    set-index (fetch_pos b) req = refl
    set-index (after x) req = refl

    set-offset :
        (x : Setting I V) (req : SelectRequest S I V)
        → (set x req).offset ≡ value_or (as_offset x) req.offset
    unfolding set
    set-offset (index i) req = refl
    set-offset (offset n) req = refl
    set-offset (limit n) req = refl
    set-offset (iterator n) req = refl
    set-offset (key v) req = refl
    set-offset (fetch_pos b) req = refl
    set-offset (after x) req = refl

    set-limit :
        (x : Setting I V) (req : SelectRequest S I V)
        → (set x req).limit ≡ value_or (as_limit x) req.limit
    unfolding set
    set-limit (index i) req = refl
    set-limit (offset n) req = refl
    set-limit (limit n) req = refl
    set-limit (iterator n) req = refl
    set-limit (key v) req = refl
    set-limit (fetch_pos b) req = refl
    set-limit (after x) req = refl

    set-key :
        (x : Setting I V) (req : SelectRequest S I V)
        → (set x req).key ≡ value_or (as_key x) req.key
    unfolding set
    set-key (index i) req = refl
    set-key (offset n) req = refl
    set-key (limit n) req = refl
    set-key (iterator n) req = refl
    set-key (key v) req = refl
    set-key (fetch_pos b) req = refl
    set-key (after x) req = refl

    set-fetch_pos :
        (x : Setting I V) (req : SelectRequest S I V)
        → (set x req).fetch_pos ≡ value_or (as_fetch_pos x) req.fetch_pos
    unfolding set
    set-fetch_pos (index i) req = refl
    set-fetch_pos (offset n) req = refl
    set-fetch_pos (limit n) req = refl
    set-fetch_pos (iterator n) req = refl
    set-fetch_pos (key v) req = refl
    set-fetch_pos (fetch_pos b) req = refl
    set-fetch_pos (after x) req = refl

    set-after :
        (x : Setting I V) (req : SelectRequest S I V)
        → (set x req).after ≡ value_or (as_after x) req.after
    unfolding set
    set-after (index i) req = refl
    set-after (offset n) req = refl
    set-after (limit n) req = refl
    set-after (iterator n) req = refl
    set-after (key v) req = refl
    set-after (fetch_pos b) req = refl
    set-after (after x) req = refl

    set_all-iterator_set :
        (xs : List (Setting I V)) (req : SelectRequest S I V) (i : ℕ) (keyed : Bool) (n : ℕ)
        → (set_all xs (record req { is_iterator_set = true; iterator = i })).iterator
          ≡ chosen (last_of as_iterator (some i) xs) keyed n
    unfolding set_all set
    set_all-iterator_set [] req i keyed n = refl
    set_all-iterator_set (index j ∷ xs) req i keyed n =
        set_all-iterator_set xs (record req { index = some j }) i keyed n
    set_all-iterator_set (offset j ∷ xs) req i keyed n =
        set_all-iterator_set xs (record req { offset = j }) i keyed n
    set_all-iterator_set (limit j ∷ xs) req i keyed n =
        set_all-iterator_set xs (record req { limit = j }) i keyed n
    set_all-iterator_set (iterator j ∷ xs) req i keyed n = set_all-iterator_set xs req j keyed n
    set_all-iterator_set (key j ∷ xs) req i keyed n =
        set_all-iterator_set xs (record req { key = j }) i keyed n
    set_all-iterator_set (fetch_pos j ∷ xs) req i keyed n =
        set_all-iterator_set xs (record req { fetch_pos = j }) i keyed n
    set_all-iterator_set (after j ∷ xs) req i keyed n =
        set_all-iterator_set xs (record req { after = j }) i keyed n

    set_all-iterator_unset :
        (xs : List (Setting I V)) (req : SelectRequest S I V) (n : ℕ)
        → (set_all xs (record req { is_iterator_set = false; iterator = n })).iterator
          ≡ chosen (last_of as_iterator none xs) (has_key xs) n
    unfolding set_all set
    set_all-iterator_unset [] req n = refl
    set_all-iterator_unset (index j ∷ xs) req n =
        set_all-iterator_unset xs (record req { index = some j }) n
    set_all-iterator_unset (offset j ∷ xs) req n =
        set_all-iterator_unset xs (record req { offset = j }) n
    set_all-iterator_unset (limit j ∷ xs) req n =
        set_all-iterator_unset xs (record req { limit = j }) n
    set_all-iterator_unset (iterator j ∷ xs) req n = set_all-iterator_set xs req j (has_key xs) n
    set_all-iterator_unset (key j ∷ xs) req n =
        set_all-iterator_unset xs (record req { key = j }) iter_eq
        ∙ keyed-chosen (last_of as_iterator none xs) (has_key xs) n
    set_all-iterator_unset (fetch_pos j ∷ xs) req n =
        set_all-iterator_unset xs (record req { fetch_pos = j }) n
    set_all-iterator_unset (after j ∷ xs) req n =
        set_all-iterator_unset xs (record req { after = j }) n

-- What the setters leave of a new request: each field has the value that was set last, or else the one of a
-- new request, and the iterator is the last one that was set.
pub record Built {S I V : Type 0} (m : Codec V) (xs : List (Setting I V))
    (req : SelectRequest S I V) : Type 0 where
  pub built_iterator : req.iterator ≡ chosen (last_of as_iterator none xs) (has_key xs) iter_all
  pub built_key : req.key ≡ last_of as_key (m.slice []) xs
  pub built_index : req.index ≡ last_of as_index none xs
  pub built_offset : req.offset ≡ last_of as_offset 0 xs
  pub built_limit : req.limit ≡ last_of as_limit 0xffffffff xs
  pub built_fetch_pos : req.fetch_pos ≡ last_of as_fetch_pos false xs
  pub built_after : req.after ≡ last_of as_after no_after xs

-- A new select request after any calls of its setters, in any order. Its iterator is the last one that
-- `Iterator` set, whether keys were set before or behind it; without such a call it is `IterEq` if
-- `Key` was called, and `IterAll` if not. The key, the index, the offset, the limit, the flag of `FetchPos`
-- and what the request continues after are those of the last call that sets them, or the defaults.
pub set_all-Built :
    {S I V : Type 0} (m : Codec V) (space : S) (xs : List (Setting I V))
    → Built m xs (set_all xs (new m space))
unfolding new
set_all-Built {S} {I} {V} m space xs =
    let start : SelectRequest S I V = new m space in
    record {
      built_iterator = set_all-iterator_unset xs start iter_all;
      built_key = set_all-last_of (λ (r : SelectRequest S I V). r.key) as_key set-key xs start;
      built_index =
          set_all-last_of (λ (r : SelectRequest S I V). r.index) as_index set-index xs start;
      built_offset =
          set_all-last_of (λ (r : SelectRequest S I V). r.offset) as_offset set-offset xs start;
      built_limit =
          set_all-last_of (λ (r : SelectRequest S I V). r.limit) as_limit set-limit xs start;
      built_fetch_pos =
          set_all-last_of (λ (r : SelectRequest S I V). r.fetch_pos) as_fetch_pos set-fetch_pos xs
            start;
      built_after =
          set_all-last_of (λ (r : SelectRequest S I V). r.after) as_after set-after xs start;
    }
