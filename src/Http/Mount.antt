-- ===== src/Http/Mount.antt =====
-- Http/Router.hpp, Http/BasicRouter.hpp and Http/ChainRouter.hpp: the routes of one router are put
-- under a path of another.
use ioloop.Prelude.{
  ℕ, ◌+◌, ◌-◌, List, [], ◌∷◌, ◌++◌, Option, none, some, Result, ok, err, out_of_range, ◌>>=◌, Bool,
  true, false, ◌&&◌, ◌==◌, if◌then◌else◌, length, take, drop,
}
use ioloop.Http.Router.{
  Storage, ResourceMap, MethodMap, Method, Router, or_empty, add_resource_cb,
  add_resource_without_method, is_empty, routes_in,
}
pub mod Anchors
pub mod Routes
mod Tests

-- `^` and `$`
abbrev pub caret : ℕ
caret = 94

abbrev pub dollar : ℕ
dollar = 36

-- `front` and `back` of a string that is not empty.
abbrev pub front : List ℕ → Result ℕ
front [] = err out_of_range
front (x ∷ xs) = ok x

abbrev pub back : List ℕ → Result ℕ
back [] = err out_of_range
back (x ∷ []) = ok x
back (x ∷ y ∷ ys) = back (y ∷ ys)

-- `back() == '$' && front() == '^'`
unfoldable pub is_anchored : List ℕ → Result Bool
is_anchored path = do last ← back path; first ← front path; ok (last == dollar && first == caret)

-- `substr(0, size() - 1)`
abbrev pub without_last : List ℕ → List ℕ
without_last path = take (length path - 1) path

unfoldable pub concat : List ℕ → List ℕ → Result (List ℕ)
concat resource1 resource2 = do
  first ← is_anchored resource1
  second ← is_anchored resource2
  ok (
      if first && second
      then without_last resource1 ++ drop 1 resource2
      else if first
      then (without_last resource1 ++ resource2) ++ dollar ∷ []
      else if second
      then (caret ∷ resource1) ++ drop 1 resource2
      else resource1 ++ resource2)

-- What a failed `emplace` leaves of a storage is `left`, as in Http/Router.
module _ (left : Storage → Storage) where
  unfoldable pub use_resources : List ℕ → ResourceMap → Router → Result Router
  use_resources path [] r = ok r
  use_resources path (value ∷ rest) r = do
    joined ← concat path value.0
    r' ← add_resource_without_method left joined value.1 r
    use_resources path rest r'

  unfoldable pub use_routes : List ℕ → Method → ResourceMap → Router → Result Router
  use_routes path method [] r = ok r
  use_routes path method (value ∷ rest) r = do
    joined ← concat path value.0
    r' ← add_resource_cb left joined method value.1 r
    use_routes path method rest r'

  unfoldable pub use_methods : List ℕ → MethodMap → Router → Result Router
  unfolding use_routes
  use_methods path [] r = ok r
  use_methods path (value ∷ rest) r = do
    r' ← use_routes path value.0 value.1 r
    use_methods path rest r'

  -- `use`
  unfoldable pub use_router : List ℕ → Router → Router → Result Router
  use_router path other r = do
    r' ← use_resources path (routes_in other.resource_map) r
    use_methods path (or_empty other.method_map) r'

  -- `use` without a path.
  unfoldable pub use_whole : Router → Router → Result Router
  use_whole other r = use_router [] other r
