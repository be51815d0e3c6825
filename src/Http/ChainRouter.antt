-- ===== src/Http/ChainRouter.antt =====
-- Http/ChainRouter.hpp: a router whose routes are registered for the path of the last `route`.
use ioloop.Prelude.{ℕ, List, [], Result, ok, ◌>>=◌}
use ioloop.Http.Router
use ioloop.Http.Router.{Storage, Method, Router, new_router, add_resource_cb}

pub record ChainRouter : Type 0 where
  pub router : Router
  pub tmp_res_regex : List ℕ

abbrev pub new_chain_router : ChainRouter
new_chain_router = record { router = new_router; tmp_res_regex = [] }

unfoldable pub route : List ℕ → ChainRouter → ChainRouter
route path_to_resource c = record c { tmp_res_regex = path_to_resource }

-- The functions of `chain_node`; `left` is as in Http/Router.
module _ (left : Storage → Storage) where
  abbrev add : Method → Storage → ChainRouter → Result ChainRouter
  add method storage c = do
    router ← add_resource_cb left c.tmp_res_regex method storage c.router
    ok (record c { router = router })

  unfoldable pub get : Storage → ChainRouter → Result ChainRouter
  get storage c = add Router.get storage c

  unfoldable pub post : Storage → ChainRouter → Result ChainRouter
  post storage c = add Router.post storage c

  unfoldable pub put : Storage → ChainRouter → Result ChainRouter
  put storage c = add Router.put storage c

  unfoldable pub head : Storage → ChainRouter → Result ChainRouter
  head storage c = add Router.head storage c

  unfoldable pub delete : Storage → ChainRouter → Result ChainRouter
  delete storage c = add Router.delete storage c

  unfoldable pub options : Storage → ChainRouter → Result ChainRouter
  options storage c = add Router.options storage c

  unfoldable pub connect : Storage → ChainRouter → Result ChainRouter
  connect storage c = add Router.connect storage c

  unfoldable pub trace : Storage → ChainRouter → Result ChainRouter
  trace storage c = add Router.trace storage c
