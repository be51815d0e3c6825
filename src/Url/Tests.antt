-- ===== src/Url/Tests.antt =====
-- Http/Url.cpp: the theorems on a URL.
use ioloop.Prelude.{◌≡◌, refl, [], ◌∷◌}
use ioloop.Url.{Url, empty_url, parse}
use ioloop.Url.Parts.{print, parse-print}

-- `http://[::1]:80/a?q`
abbrev url : Url
url = record {
  scheme = 104 ∷ 116 ∷ 116 ∷ 112 ∷ [];
  host = 91 ∷ 58 ∷ 58 ∷ 49 ∷ 93 ∷ [];
  port = 56 ∷ 48 ∷ [];
  path = 47 ∷ 97 ∷ [];
  query = 113 ∷ [];
}

parse-print_example : parse (print url) empty_url ≡ url
parse-print_example = parse-print url (record {
  scheme_colon = refl;
  scheme_blank = refl;
  host_slash = refl;
  port_slash = refl;
  port_colon = refl;
  port_bracket = refl;
  path_slash = (97 ∷ [], refl);
  path_question = refl;
})
