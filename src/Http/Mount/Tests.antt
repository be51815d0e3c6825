-- ===== src/Http/Mount/Tests.antt =====
-- Http/Router.hpp: the theorems at concrete routers.
use ioloop.Prelude.{ℕ, ◌≡◌, refl, List, [], ◌∷◌, ◌++◌, none, some, ok, true, false, ◌||◌}
use ioloop.Http.Router.{Storage, Method, Router, new_router, get, add_resource_cb, routes}
use ioloop.Http.BasicRouter
use ioloop.Http.ChainRouter
use ioloop.Http.ChainRouter.{new_chain_router, route}
use ioloop.Http.Mount.{concat, use_router, is_anchored}
use ioloop.Http.Mount.Anchors.{anchored, concat-anchored}
use ioloop.Http.Mount.Routes
use ioloop.Http.Mount.Routes.{
  no_routes, no_methods, method, mounted, use_router-find_route, find_route, or_else,
}

-- `/a`, `/b` and `/a/b`
abbrev path_a : List ℕ
path_a = 47 ∷ 97 ∷ []

abbrev path_b : List ℕ
path_b = 47 ∷ 98 ∷ []

abbrev path_ab : List ℕ
path_ab = 47 ∷ 97 ∷ 47 ∷ 98 ∷ []

abbrev left : Storage → Storage
left storage = []

abbrev other : Router
other = record { resource_map = none; method_map = some ((get, (path_b, 7 ∷ []) ∷ []) ∷ []) }

-- Both kinds of routers register the route of `other`.
basic_get : BasicRouter.get left path_b (7 ∷ []) new_router ≡ ok other
unfolding BasicRouter.get add_resource_cb
basic_get = refl

chain_get :
    ChainRouter.get left (7 ∷ []) (route path_b new_chain_router)
    ≡ ok (record { router = other; tmp_res_regex = path_b })
unfolding ChainRouter.get add_resource_cb route
chain_get = refl

concat-anchored_example :
    concat (anchored true path_a) (anchored false path_b)
    ≡ ok (anchored (true || false) (path_a ++ path_b))
unfolding is_anchored
concat-anchored_example = concat-anchored true false path_a path_b refl refl

use_router-find_route_example :
    (r' : Router) × (use_router left path_a other new_router ≡ ok r')
    × ((n : Method) (k : List ℕ)
        → find_route k (routes n r')
          ≡ or_else
              (find_route k (routes n new_router))
              (find_route k (mounted n ((get, (path_ab, 7 ∷ []) ∷ []) ∷ []))))
unfolding concat is_anchored
use_router-find_route_example =
    use_router-find_route left path_a other new_router ((get, (path_ab, 7 ∷ []) ∷ []) ∷ []) refl
      (method get (Routes.route path_b path_ab (7 ∷ []) refl no_routes) no_methods)
      ((refl, refl, tt), tt)
