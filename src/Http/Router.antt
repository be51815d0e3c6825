-- ===== src/Http/Router.antt =====
-- Http/Router.hpp, Http/BasicRouter.hpp and Http/RequestProcessor.hpp: which handlers a request
-- reaches. A storage is the list of its handlers' numbers; a map is an association list, so that
-- the order in which an unordered map is walked is the order of insertion here.
use ioloop.Prelude.{
  suc, same_text, append-nil, ℕ, ◌≡◌, refl, ap, ◌∙◌, List, [], ◌∷◌, ◌++◌, Option, none, some,
  Result, ok, err, out_of_range, assert, ◌>>=◌, ◌>>◌, arith, Bool, true, false, ◌||◌, not, ◌==◌,
  if◌then◌else◌, Bool-cases, inl, inr,
}

-- `boost::beast::http::verb`, as far as the routers name them.
pub data Method : Type 0 where
  get post put head delete connect options trace : Method

pub code : Method → ℕ
code get = 0
code post = 1
code put = 2
code head = 3
code delete = 4
code connect = 5
code options = 6
code trace = 7

abbrev pub same_method : Method → Method → Bool
same_method a b = code a == code b

abbrev pub Storage : Type 0
Storage = List ℕ

abbrev pub ResourceMap : Type 0
ResourceMap = List (List ℕ × Storage)

abbrev pub MethodMap : Type 0
MethodMap = List (Method × ResourceMap)

pub record Router : Type 0 where
  pub resource_map : Option ResourceMap
  pub method_map : Option MethodMap

abbrev pub new_router : Router
new_router = record { resource_map = none; method_map = none }

abbrev pub is_empty : List ℕ → Bool
is_empty [] = true
is_empty (x ∷ xs) = false

abbrev pub find_resource : List ℕ → ResourceMap → Option Storage
find_resource path [] = none
find_resource path (r ∷ rs) = if same_text r.0 path then some r.1 else find_resource path rs

abbrev pub find_method : Method → MethodMap → Option ResourceMap
find_method m [] = none
find_method m (e ∷ es) = if same_method e.0 m then some e.1 else find_method m es

-- `emplace`, and the assignment of the moved-from storage when the path is there: `left` is what a
-- failed `emplace` leaves of the storage that it was given.
abbrev pub add_resource : (Storage → Storage) → List ℕ → Storage → ResourceMap → ResourceMap
add_resource left path storage [] = (path, storage) ∷ []
add_resource left path storage (r ∷ rs) =
    let more = add_resource left path storage rs in
    if same_text r.0 path then (r.0, left storage) ∷ rs else r ∷ more

abbrev pub add_method : (Storage → Storage) → List ℕ → Method → Storage → MethodMap → MethodMap
add_method left path m storage [] = (m, add_resource left path storage []) ∷ []
add_method left path m storage (e ∷ es) =
    let more = add_method left path m storage es in
    if same_method e.0 m then (e.0, add_resource left path storage e.1) ∷ es else e ∷ more

abbrev pub or_empty : Option MethodMap → MethodMap
or_empty none = []
or_empty (some methods) = methods

unfoldable pub add_resource_cb :
    (Storage → Storage) → List ℕ → Method → Storage → Router → Result Router
add_resource_cb left path m storage r = do
  assert (not (is_empty path))
  ok (record r { method_map = some (add_method left path m storage (or_empty r.method_map)) })

-- The null pointer that `std::shared_ptr<resource_map_type>()` makes is dereferenced.
abbrev emplace_in : (Storage → Storage) → List ℕ → Storage → Option ResourceMap → Result ResourceMap
emplace_in left path storage none = err out_of_range
emplace_in left path storage (some resources) = ok (add_resource left path storage resources)

pub add_resource_without_method : (Storage → Storage) → List ℕ → Storage → Router → Result Router
add_resource_without_method left path storage r = do
  assert (not (is_empty path))
  resources ← emplace_in left path storage r.resource_map
  ok (record r { resource_map = some resources })

-- What `provide` rests on: `Regex::match`; the order in which an unordered map is walked; and what
-- the view of a target shows once so many storages were executed, since their handlers give the
-- request new targets, and the view is of the old one's text.
pub record Matcher : Type 0 where
  pub is_match : List ℕ → List ℕ → Bool
  pub walk : ResourceMap → ResourceMap
  pub shows : List ℕ → ℕ → List ℕ

module _ (m : Matcher) where
  -- The storages whose path matches what the target shows, when `n` were executed before.
  pub matching : ℕ → List ℕ → ResourceMap → List Storage
  matching n target [] = []
  matching n target (r ∷ rs) =
      let hit = m.is_match r.0 (m.shows target n) in
      let more = matching (if hit then suc n else n) target rs in if hit then r.1 ∷ more else more

  abbrev pub matching_in : List ℕ → Option ResourceMap → List Storage
  matching_in target none = []
  matching_in target (some resources) = matching 0 target (m.walk resources)

  abbrev pub provide_from : Method → List ℕ → Option MethodMap → List Storage
  provide_from method target none = []
  provide_from method target (some methods) = matching_in target (find_method method methods)

  -- `RequestProcessor::provide`: the storages that are executed, in order.
  pub provide : Method → List ℕ → Router → List Storage
  provide method target r = provide_from method target r.method_map

-- The routes of a method.
abbrev pub routes_in : Option ResourceMap → ResourceMap
routes_in none = []
routes_in (some resources) = resources

abbrev pub routes : Method → Router → ResourceMap
routes m r = routes_in (find_method m (or_empty r.method_map))

find_method-add_method :
    (left : Storage → Storage) (path : List ℕ) (m n : Method) (storage : Storage) (ms : MethodMap)
    → routes_in (find_method n (add_method left path m storage ms)) ≡ (
        if same_method m n
        then add_resource left path storage (routes_in (find_method n ms))
        else routes_in (find_method n ms))
find_method-add_method left path m n storage [] = ground arith
find_method-add_method left path m n storage (e ∷ es) =
    ground (arith, find_method-add_method left path m n storage es)

abbrev pub has_path : List ℕ → ResourceMap → Bool
has_path path [] = false
has_path path (r ∷ rs) = same_text r.0 path || has_path path rs

add_resource_new :
    (left : Storage → Storage) (path : List ℕ) (storage : Storage) (rs : ResourceMap)
    → has_path path rs ≡ false
    → add_resource left path storage rs ≡ rs ++ (path, storage) ∷ []
add_resource_new left path storage [] n = refl
add_resource_new left path storage (r ∷ rs) n =
    ground (arith, n, add_resource_new left path storage rs (ground (arith, n)))

same_routes :
    (m n : Method) (ms : MethodMap) → same_method m n ≡ true → find_method n ms ≡ find_method m ms
same_routes m n [] e = refl
same_routes m n (x ∷ ms) e = ground (arith, e, same_routes m n ms e)

-- Once a route is registered for a method under a new path, it is behind the routes of that method,
-- and those of the other methods are as they were.
pub routes-add_resource_cb :
    (left : Storage → Storage) (path : List ℕ) (m : Method) (storage : Storage) (r : Router)
    → is_empty path ≡ false
    → has_path path (routes m r) ≡ false
    → (r' : Router) × (add_resource_cb left path m storage r ≡ ok r')
      × (r'.resource_map ≡ r.resource_map)
      × ((n : Method)
          → routes n r' ≡ routes n r ++ (if same_method m n then (path, storage) ∷ [] else []))
unfolding add_resource_cb
routes-add_resource_cb left path m storage r e h =
    let ms = add_method left path m storage (or_empty r.method_map) in
    (
      record r { method_map = some ms },
      ground (arith, e),
      refl,
      λ n.
          let grown = find_method-add_method left path m n storage (or_empty r.method_map) in
          elim (Bool-cases (same_method m n)) [
            | inl p ↦
                let same : routes n r ≡ routes m r =
                  ap routes_in (same_routes m n (or_empty r.method_map) p) in
                grown
                ∙ ground (
                  arith,
                  p,
                  add_resource_new left path storage (routes n r) (ap (has_path path) same ∙ h),
                )
            | inr p ↦ grown ∙ ground (arith, p, append-nil (routes n r))
          ],
    )
