-- ===== src/Http/Mount/Routes.antt =====
-- Http/Router.hpp: the routes of a router that uses another one.
use ioloop.Prelude.{
  ℕ, ◌≡◌, refl, sym, ap, ◌∙◌, subst, List, [], ◌∷◌, ◌++◌, append-nil, append_assoc, Option, none,
  some, same_text, ok, err, out_of_range, Bool, true, false, if◌then◌else◌, arith,
}
use ioloop.Http.Router.{
  Storage, ResourceMap, MethodMap, Method, Router, or_empty, is_empty, routes, has_path,
  same_method, routes-add_resource_cb,
}
use ioloop.Http.Mount.{
  concat, use_routes, use_methods, use_resources, use_router, use_whole, is_anchored,
}

-- The second routes are the first with their paths put behind `path`.
pub data Joins (path : List ℕ) : ResourceMap → ResourceMap → Type 0 where
  no_routes : Joins path [] []
  route :
      (k k' : List ℕ) (storage : Storage) {rs : ResourceMap} {rs' : ResourceMap}
      → concat path k ≡ ok k'
      → Joins path rs rs'
      → Joins path ((k, storage) ∷ rs) ((k', storage) ∷ rs')

pub data JoinsAll (path : List ℕ) : MethodMap → MethodMap → Type 0 where
  no_methods : JoinsAll path [] []
  method :
      (m : Method) {rs : ResourceMap} {rs' : ResourceMap} {ms : MethodMap} {ms' : MethodMap}
      → Joins path rs rs'
      → JoinsAll path ms ms'
      → JoinsAll path ((m, rs) ∷ ms) ((m, rs') ∷ ms')

-- No path is empty, among `base`, or there twice.
abbrev pub NewPaths : ResourceMap → ResourceMap → Type 0
NewPaths [] base = Unit {0}
NewPaths (e ∷ es) base =
    (is_empty e.0 ≡ false) × (has_path e.0 base ≡ false) × NewPaths es (base ++ e ∷ [])

-- What a map has under a path.
abbrev pub find_route : List ℕ → ResourceMap → Option Storage
find_route k [] = none
find_route k (e ∷ es) = if same_text e.0 k then some e.1 else find_route k es

abbrev pub or_else : Option Storage → Option Storage → Option Storage
or_else none o = o
or_else (some storage) o = some storage

find_route-append :
    (k : List ℕ) (xs ys : ResourceMap)
    → find_route k (xs ++ ys) ≡ or_else (find_route k xs) (find_route k ys)
find_route-append k [] ys = refl
find_route-append k (x ∷ xs) ys = ground (arith, find_route-append k xs ys)

-- The routes of a method among those of all methods.
abbrev pub mounted : Method → MethodMap → ResourceMap
mounted n [] = []
mounted n (e ∷ es) = (if same_method e.0 n then e.1 else []) ++ mounted n es

abbrev pub NewMethods : MethodMap → (Method → ResourceMap) → Type 0
NewMethods [] base = Unit {0}
NewMethods (e ∷ es) base =
    NewPaths e.1 (base e.0) × NewMethods es (λ n. base n ++ (if same_method e.0 n then e.1 else []))

same_self : (m : Method) → same_method m m ≡ true
same_self m = ground arith

append_if :
    (c : Bool) (l xs ys : ResourceMap)
    → (l ++ (if c then xs else [])) ++ (if c then ys else []) ≡ l ++ (if c then xs ++ ys else [])
append_if true l xs ys = append_assoc l xs ys
append_if false l xs ys = append-nil (l ++ [])

module _ (left : Storage → Storage) where
  use_routes_lem :
      (path : List ℕ) (m : Method) (rs rs' : ResourceMap) (r : Router)
      → Joins path rs rs'
      → NewPaths rs' (routes m r)
      → (r' : Router) × (use_routes left path m rs r ≡ ok r')
        × (r'.resource_map ≡ r.resource_map)
        × ((n : Method) → routes n r' ≡ routes n r ++ (if same_method m n then rs' else []))
  unfolding use_routes
  use_routes_lem path m _ _ r no_routes new =
      (r, refl, refl, λ n. ground (arith, append-nil (routes n r)))
  use_routes_lem path m _ _ r (route k k' storage {rs = rs} {rs' = rs'} c js) new =
      let (r₁, a, kept, grown) = routes-add_resource_cb left k' m storage r new.0 new.1 in
      let at : routes m r₁ ≡ routes m r ++ (k', storage) ∷ [] =
        grown m ∙ ground (arith, same_self m) in
      let (r', u, kept', grown') =
        use_routes_lem path m _ rs' r₁ js (subst (NewPaths rs') (sym at) new.2) in
      (
        r',
        ground (arith, c, a, u),
        kept' ∙ kept,
        λ n.
            grown' n
            ∙ ap (λ l. l ++ (if same_method m n then rs' else [])) (grown n)
            ∙ append_if (same_method m n) (routes n r) ((k', storage) ∷ []) rs',
      )

  use_methods_lem :
      (path : List ℕ) (ms ms' : MethodMap) (base : Method → ResourceMap) (r : Router)
      → JoinsAll path ms ms'
      → NewMethods ms' base
      → ((n : Method) → routes n r ≡ base n)
      → (r' : Router) × (use_methods left path ms r ≡ ok r')
        × ((n : Method) → routes n r' ≡ base n ++ mounted n ms')
  unfolding use_methods
  use_methods_lem path _ _ base r no_methods new same =
      (r, refl, λ n. same n ∙ sym (append-nil (base n)))
  use_methods_lem path _ _ base r (method m {rs' = rs'} {ms' = ms'} js more) new same =
      let (r₁, u, kept, grown) =
        use_routes_lem path m _ rs' r js (subst (NewPaths rs') (sym (same m)) new.0) in
      let (r', v, all) =
        use_methods_lem path _ ms' (λ n. base n ++ (if same_method m n then rs' else [])) r₁ more
          new.1 (λ n. grown n ∙ ap (λ l. l ++ (if same_method m n then rs' else [])) (same n)) in
      (
        r',
        ground (arith, u, v),
        λ n. all n ∙ append_assoc (base n) (if same_method m n then rs' else []) (mounted n ms'),
      )

  -- A router that uses another under a path, with no new path empty or there already, has for each
  -- method and path the storage that it had before, or else that of the other's route for that
  -- method whose path, put behind the path, is this one. This is said of the maps by their keys, in
  -- whatever order they are walked.
  pub use_router-find_route :
      (path : List ℕ) (other r : Router) (ms' : MethodMap)
      → other.resource_map ≡ none
      → JoinsAll path (or_empty other.method_map) ms'
      → NewMethods ms' (λ n. routes n r)
      → (r' : Router) × (use_router left path other r ≡ ok r')
        × ((n : Method) (k : List ℕ)
            → find_route k (routes n r')
              ≡ or_else (find_route k (routes n r)) (find_route k (mounted n ms')))
  unfolding use_router use_resources
  use_router-find_route path other r ms' none_there js new =
      let (r', u, all) =
        use_methods_lem path (or_empty other.method_map) ms' (λ n. routes n r) r js new
          (λ n. refl) in
      (
        r',
        ground (arith, none_there, u),
        λ n k. ap (find_route k) (all n) ∙ find_route-append k (routes n r) (mounted n ms'),
      )

  -- `use` without a path takes the last character of an empty string as soon as the other router
  -- has a route.
  pub use_whole_faults :
      (other r : Router) (m : Method) (k : List ℕ) (storage : Storage) (rs : ResourceMap)
      (ms : MethodMap)
      → other.resource_map ≡ none
      → other.method_map ≡ some ((m, (k, storage) ∷ rs) ∷ ms)
      → use_whole left other r ≡ err out_of_range
  unfolding use_whole use_router use_resources use_methods use_routes concat is_anchored
  use_whole_faults other r m k storage rs ms n e = ground (arith, n, e)
