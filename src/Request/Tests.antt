-- ===== src/Request/Tests.antt =====
-- request.go: a select request with a position, and an SQL statement with a named argument, over the
-- cells of the tests.
use go_tarantool.Common.{
  ℕ, ◌^◌, ◌<◌, ◌≡◌, refl, subst, String, true, false, List, [], ◌∷◌, Option, none, some, Outcome,
  returns, arith,
}
use go_tarantool.Msgpack.{Objects}
use go_tarantool.Msgpack.Cells.{Cell, cells, cells-IsCodec}
use go_tarantool.Request.Base.{new_base}
use go_tarantool.Request.Fill.{after_pos, no_after}
use go_tarantool.Request.Select.{SelectRequest, new}
use go_tarantool.Request.KeyOrder.{Setting, limit, iterator, key, set_all, Built, set_all-Built}
use go_tarantool.Request.Any.{Request, select, body}
use go_tarantool.Request.WellFormed.{IsResolver, returns_inj, body-Object}

-- A schema that resolves every name to the space 512 and the primary index.
abbrev resolve : String → Option String → Outcome (ℕ × ℕ)
resolve space index = returns (512, 0)

abbrev plain_name : String → String
plain_name name = name

abbrev pages : Request String String Cell
pages = select (record {
  base = new_base 1;
  space = "users";
  index = none;
  is_iterator_set = false;
  fetch_pos = true;
  offset = 3;
  limit = 10;
  iterator = 2;
  key = some (0 ∷ 7 ∷ []);
  after = after_pos "p";
})

abbrev pages_body : List ℕ
pages_body =
    16 ∷ 0 ∷ 0 ∷ 20 ∷ 0 ∷ 2 ∷ 0 ∷ 19 ∷ 0 ∷ 3 ∷ 0 ∷ 18 ∷ 0 ∷ 10 ∷ 0 ∷ 16 ∷ 0 ∷ 512 ∷ 0 ∷ 17 ∷ 0 ∷ 0
    ∷ 0 ∷ 32 ∷ 0 ∷ 7 ∷ 0 ∷ 31 ∷ 0 ∷ 1 ∷ 0 ∷ 46 ∷ 0 ∷ 0 ∷ []

pages-body : body cells plain_name resolve pages ≡ returns pages_body
unfolding body
pages-body = refl

resolve-IsResolver : IsResolver resolve
resolve-IsResolver s i numbers e =
    subst (λ n. (n.0 < 2 ^ 64) × (n.1 < 2 ^ 64)) (returns_inj e) (omega arith, omega arith)

body-Object_example : Objects cells 1 pages_body
body-Object_example =
    body-Object cells cells-IsCodec plain_name resolve pages pages_body resolve-IsResolver
      (omega arith, omega arith, omega arith) pages-body

abbrev plain_select : SelectRequest String String Cell
plain_select = record {
  base = new_base 1;
  space = "users";
  index = none;
  is_iterator_set = false;
  fetch_pos = false;
  offset = 0;
  limit = 10;
  iterator = 2;
  key = none;
  after = no_after;
}

abbrev settings : List (Setting String Cell)
settings = key (some []) ∷ iterator 5 ∷ limit 10 ∷ key none ∷ []

set_all-Built_example : Built cells settings (set_all settings (new {S = String} cells "users"))
set_all-Built_example = set_all-Built cells "users" settings
