-- ===== src/Schema/Resolved.antt =====
-- schema.go: the names that `ResolveSpaceIndex` looks up in a loaded schema.
use go_tarantool.Common.{
  ℕ, ◌^◌, ◌%◌, ◌≡◌, refl, sym, ap, ◌∙◌, ◌⊎◌, inl, inr, String, Bool, ◌&&◌, List, [], ◌∷◌, map,
  Option, none, some, Option-cases, Outcome, returns, fails, if◌then◌else◌, ◌==◌, str_eq, arith,
}
use mathlib.Core.Option
use go_tarantool.Common.Assoc.{lookup, lookup-insert}
use go_tarantool.Request.Base.{then_with}
use go_tarantool.Schema.{
  Index, Space, Schema, space_name, space_number, index_name, index_number, lookup_id, space_at,
  load_schema, resolve_space, index_in, resolve_index, resolve_space_index,
}
use go_tarantool.Schema.Loaded.{
  find_by, place_by, has_id, has_name, Distinct, find_by-map, space_at-place_by,
}
use go_tarantool.Schema.Attach.{
  IsLoaded, attach, attach_all, attach-id, attach-name, space_at-some, space_at-none,
  load_schema-IsLoaded,
}

-- The last of the indexes that belongs to the space and has the name, or else the first argument.
abbrev pub last_index : Option Index → ℕ → String → List Index → Option Index
last_index o n i [] = o
last_index o n i (index ∷ indexes) =
    last_index (if index.space_id == n && str_eq index.name i then some index else o) n i indexes

attach_all-id : (indexes : List Index) (x : Space) → (attach_all indexes x).id ≡ x.id
attach_all-id [] x = refl
attach_all-id (index ∷ indexes) x = attach_all-id indexes (attach index x) ∙ attach-id index x

attach_all-name : (indexes : List Index) (x : Space) → (attach_all indexes x).name ≡ x.name
attach_all-name [] x = refl
attach_all-name (index ∷ indexes) x = attach_all-name indexes (attach index x) ∙ attach-name index x

lookup-attach :
    (i : String) (index : Index) (x : Space)
    → lookup i (attach index x).indexes
      ≡ (if index.space_id == x.id && str_eq index.name i then some index else lookup i x.indexes)
lookup-attach i index x = ground (arith, lookup-insert index.name i index x.indexes)

lookup-attach_all :
    (i : String) (indexes : List Index) (x : Space)
    → lookup i (attach_all indexes x).indexes ≡ last_index (lookup i x.indexes) x.id i indexes
lookup-attach_all i [] x = refl
lookup-attach_all i (index ∷ indexes) x =
    lookup-attach_all i indexes (attach index x)
    ∙ ap (λ n. last_index (lookup i (attach index x).indexes) n i indexes) (attach-id index x)
    ∙ ap (λ o. last_index o x.id i indexes) (lookup-attach i index x)

-- What a request should be resolved to: the space that was found, and how its index is named.
abbrev found_index : ℕ → Option Index → Outcome (ℕ × ℕ)
found_index n none = fails
found_index n (some index) = returns (n, index.id)

abbrev pub named : List Index → String → Option Space → Outcome (ℕ × ℕ)
named indexes i none = fails
named indexes i (some x) = found_index x.id (last_index (lookup i x.indexes) x.id i indexes)

abbrev pub numbered : ℕ → Option Space → Outcome (ℕ × ℕ)
numbered n none = fails
numbered n (some x) = returns (x.id, n)

-- What a lookup in one of the maps leads to.
space_at-attach_all :
    (test : Space → Bool) (indexes : List Index) (spaces : List Space) (out : Schema)
    → out.store ≡ map (attach_all indexes) spaces
    → ((x : Space) → test (attach_all indexes x) ≡ test x)
    → ((space_at (place_by test out.store) out ≡ none) × (find_by test spaces ≡ none))
      ⊎ ((at : ℕ) × (x : Space) × (space_at (place_by test out.store) out
            ≡ some (at, attach_all indexes x))
          × (find_by test spaces ≡ some x))
space_at-attach_all test indexes spaces out e h =
    let there = ap (find_by test) e ∙ find_by-map (attach_all indexes) test spaces h in
    elim (Option-cases (find_by test spaces)) [
      | inl k ↦ elim (space_at-place_by test out.store) [
        | inl (f, g) ↦ inl (rw f (space_at-none out), k)
        | inr (at, y, f, g, m) ↦ absurd (ground (arith, there, g, k))
      ]
      | inr (x, k) ↦ elim (space_at-place_by test out.store) [
        | inl (f, g) ↦ absurd (ground (arith, there, g, k))
        | inr (at, y, f, g, m) ↦
            let same : some y ≡ some (attach_all indexes x) =
              sym g ∙ there ∙ ap (Option.map (attach_all indexes)) k in
            inr (at, x, rw f (space_at-some out at _ (m ∙ same)), k)
      ]
    ]

found_index-elim :
    (n : ℕ) (o : Option Index)
    → then_with (elim o [ none ↦ fails | some index ↦ returns index.id ]) (λ k. returns (n, k))
      ≡ found_index n o
found_index-elim n none = refl
found_index-elim n (some index) = refl

module _ (indexes : List Index) (spaces : List Space) (out : Schema) (loaded : IsLoaded out)
    (store : out.store ≡ map (attach_all indexes) spaces) where
  by_name :
      (s : String)
      → ((space_at (lookup s out.spaces) out ≡ none) × (find_by (has_name s) spaces ≡ none))
        ⊎ ((at : ℕ) × (x : Space) × (space_at (lookup s out.spaces) out
              ≡ some (at, attach_all indexes x))
            × (find_by (has_name s) spaces ≡ some x))
  by_name s = rw (loaded.indexed.by_name s) (
      space_at-attach_all (has_name s) indexes spaces out store
        (λ x. ap (λ i. str_eq i s) (attach_all-name indexes x)))

  by_id :
      (n : ℕ)
      → ((space_at (lookup_id n out.spaces_by_id) out ≡ none) × (find_by (has_id n) spaces ≡ none))
        ⊎ ((at : ℕ) × (x : Space) × (space_at (lookup_id n out.spaces_by_id) out
              ≡ some (at, attach_all indexes x))
            × (find_by (has_id n) spaces ≡ some x))
  by_id n = rw (loaded.indexed.by_id n) (
      space_at-attach_all (has_id n) indexes spaces out store
        (λ x. ap (λ i. i == n) (attach_all-id indexes x)))

  index_in-named :
      (i : String) (x : Space)
      → then_with
          (index_in i (some (attach_all indexes x)))
          (λ k. returns ((attach_all indexes x).id, k))
        ≡ named indexes i (some x)
  index_in-named i x =
      found_index-elim (attach_all indexes x).id (lookup i (attach_all indexes x).indexes)
      ∙ ap (λ n. found_index n (lookup i (attach_all indexes x).indexes)) (attach_all-id indexes x)
      ∙ ap (found_index x.id) (lookup-attach_all i indexes x)

  resolve-named :
      (s i : String)
      → resolve_space_index (some out) (space_name s) (some (index_name i))
        ≡ named indexes i (find_by (has_name s) spaces)
  unfolding resolve_space_index resolve_space resolve_index
  resolve-named s i = elim (by_name s) [
    | inl (f, g) ↦ rw (f, g) refl
    | inr (at, x, f, g) ↦ rw (f, g) (index_in-named i x)
  ]

  resolve-numbered :
      (s : String) (k : ℕ)
      → resolve_space_index (some out) (space_name s) (some (index_number k))
        ≡ numbered (k % 2 ^ 32) (find_by (has_name s) spaces)
  unfolding resolve_space_index resolve_space resolve_index
  resolve-numbered s k = elim (by_name s) [
    | inl (f, g) ↦ rw (f, g) refl
    | inr (at, x, f, g) ↦ rw (f, g) (ap (λ n. returns (n, k % 2 ^ 32)) (attach_all-id indexes x))
  ]

  resolve-default :
      (s : String)
      → resolve_space_index (some out) (space_name s) none
        ≡ numbered 0 (find_by (has_name s) spaces)
  unfolding resolve_space_index resolve_space resolve_index
  resolve-default s = elim (by_name s) [
    | inl (f, g) ↦ rw (f, g) refl
    | inr (at, x, f, g) ↦ rw (f, g) (ap (λ n. returns (n, 0)) (attach_all-id indexes x))
  ]

  find_by-has_id : (n : ℕ) (x : Space) → find_by (has_id n) spaces ≡ some x → x.id ≡ n
  find_by-has_id n x e = found_id spaces e
    where
      found_id : (xs : List Space) → find_by (has_id n) xs ≡ some x → x.id ≡ n
      found_id [] e = absurd (cc)
      found_id (y ∷ ys) e = ground (arith, found_id ys)

  resolve-by_number :
      (n : ℕ) (i : String)
      → resolve_space_index (some out) (space_number n) (some (index_name i))
        ≡ named indexes i (find_by (has_id (n % 2 ^ 32)) spaces)
  unfolding resolve_space_index resolve_space resolve_index
  resolve-by_number n i = elim (by_id (n % 2 ^ 32)) [
    | inl (f, g) ↦ rw (f, g) refl
    | inr (at, x, f, g) ↦
        rw (f, g)
          (ap (λ m. then_with (index_in i (some (attach_all indexes x))) (λ k. returns (m, k)))
              (sym (find_by-has_id (n % 2 ^ 32) x g) ∙ sym (attach_all-id indexes x))
            ∙ index_in-named i x)
  ]

-- The schema that `loadSchema` makes of the answers of its two selects, in which no two spaces have the same
-- number or the same name. A space is found by its name, and a number is cut to 32 bits. The name of an
-- index is looked up in the space that was named, or in the one with the number: it gives the numbers of the
-- space and of the last index that has this space's number and this name, or else of the one that the space came
-- with. A space or an index that is not
-- among the answers is an error. With a space's name, an index's number is kept as it is, cut to
-- 32 bits, and without an index it is 0.
pub resolve_space_index-load_schema :
    (spaces : List Space) (indexes : List Index) (schema : Schema) (s i : String) (n : ℕ)
    → Distinct spaces
    → load_schema (some spaces) (some indexes) ≡ returns schema
    → let resolve = resolve_space_index (some schema) in
      (resolve (space_name s) (some (index_name i)) ≡ named indexes i (find_by (has_name s) spaces))
      × (resolve (space_number n) (some (index_name i))
          ≡ named indexes i (find_by (has_id (n % 2 ^ 32)) spaces))
      × (resolve (space_name s) (some (index_number n))
          ≡ numbered (n % 2 ^ 32) (find_by (has_name s) spaces))
      × (resolve (space_name s) none ≡ numbered 0 (find_by (has_name s) spaces))
resolve_space_index-load_schema spaces indexes schema s i n d e =
    let (loaded, store) = load_schema-IsLoaded spaces indexes schema d e in
    (
      resolve-named indexes spaces schema loaded store s i,
      resolve-by_number indexes spaces schema loaded store n i,
      resolve-numbered indexes spaces schema loaded store s n,
      resolve-default indexes spaces schema loaded store s,
    )
