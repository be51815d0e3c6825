-- ===== src/Http/BasicRouter.antt =====
-- Http/BasicRouter.hpp: a router whose routes are registered method by method. `left` is as in
-- Http/Router.
use ioloop.Prelude.{ℕ, List, Result}
use ioloop.Http.Router
use ioloop.Http.Router.{Storage, Router, add_resource_cb}

module _ (left : Storage → Storage) where
  unfoldable pub get : List ℕ → Storage → Router → Result Router
  get path storage r = add_resource_cb left path Router.get storage r

  unfoldable pub post : List ℕ → Storage → Router → Result Router
  post path storage r = add_resource_cb left path Router.post storage r

  unfoldable pub put : List ℕ → Storage → Router → Result Router
  put path storage r = add_resource_cb left path Router.put storage r

  unfoldable pub head : List ℕ → Storage → Router → Result Router
  head path storage r = add_resource_cb left path Router.head storage r

  unfoldable pub delete : List ℕ → Storage → Router → Result Router
  delete path storage r = add_resource_cb left path Router.delete storage r

  unfoldable pub connect : List ℕ → Storage → Router → Result Router
  connect path storage r = add_resource_cb left path Router.connect storage r

  unfoldable pub options : List ℕ → Storage → Router → Result Router
  options path storage r = add_resource_cb left path Router.options storage r

  unfoldable pub trace : List ℕ → Storage → Router → Result Router
  trace path storage r = add_resource_cb left path Router.trace storage r
