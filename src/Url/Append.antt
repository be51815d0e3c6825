-- ===== src/Url/Append.antt =====
-- Http/Url.cpp: what is appended to a path and to a query.
use ioloop.Prelude.{
  ℕ, ◌≡◌, refl, sym, ap, ◌∙◌, List, [], ◌∷◌, ◌++◌, append-nil, append_assoc, arith, Bool, true,
  false, if◌then◌else◌,
}
use ioloop.Url.{
  Url, slash, ampersand, equals, is_char, is_empty, front_is, back_is, pop_back, adjust_path,
  append_path, append_query,
}

-- Without a slash at the end; without one at the front.
abbrev pub strip_back : List ℕ → List ℕ
strip_back p = if back_is slash p then pop_back p else p

abbrev pub tail : List ℕ → List ℕ
tail [] = []
tail (x ∷ xs) = xs

abbrev pub strip_front : List ℕ → List ℕ
strip_front s = if front_is slash s then tail s else s

back_whole : (p : List ℕ) → back_is slash p ≡ true → p ≡ pop_back p ++ slash ∷ []
back_whole [] e = ground (arith, e)
back_whole (x ∷ []) e = ground (arith, e)
back_whole (x ∷ y ∷ xs) e = ap (◌∷◌ x) (back_whole (y ∷ xs) e)

front_whole : (s : List ℕ) → front_is slash s ≡ true → s ≡ slash ∷ tail s
front_whole [] e = ground (arith, e)
front_whole (x ∷ xs) e = ground (arith, e)

-- `str` behind `path`, with one slash between.
abbrev joined : List ℕ → List ℕ → List ℕ
joined path str = strip_back path ++ slash ∷ strip_front str

adjust_path-joined :
    (path str : List ℕ) (b f : Bool)
    → back_is slash path ≡ b
    → front_is slash str ≡ f
    → adjust_path path str ++ str ≡ joined path str
unfolding adjust_path
adjust_path-joined [] str b true eb ef = ground (arith, ef, front_whole str ef)
adjust_path-joined [] str b false eb ef = ground (arith, ef)
adjust_path-joined (x ∷ []) str true true eb ef = ground (arith, eb, ef, front_whole str ef)
adjust_path-joined (x ∷ []) str true false eb ef = ground (arith, eb, ef)
adjust_path-joined (x ∷ []) str false true eb ef = ground (arith, eb, ef, front_whole str ef)
adjust_path-joined (x ∷ []) str false false eb ef = ground (arith, eb, ef)
adjust_path-joined (x ∷ y ∷ xs) str true true eb ef = ground (arith, eb, ef, front_whole str ef)
adjust_path-joined (x ∷ y ∷ xs) str true false eb ef = ground (
  arith,
  eb,
  ef,
  back_whole (x ∷ y ∷ xs) eb,
  append_assoc (pop_back (x ∷ y ∷ xs)) (slash ∷ []) str,
)
adjust_path-joined (x ∷ y ∷ xs) str false true eb ef = ground (arith, eb, ef, front_whole str ef)
adjust_path-joined (x ∷ y ∷ xs) str false false eb ef =
    ground (arith, eb, ef, append_assoc (x ∷ y ∷ xs) (slash ∷ []) str)

-- Anything but nothing and a mere slash is appended to a path with exactly one slash between the
-- two, whether the path ends in one or not, and whether what is appended begins with one or not.
pub append_path-joined :
    (str : List ℕ) (u : Url)
    → is_empty str ≡ false
    → is_char slash str ≡ false
    → append_path str u ≡ record u { path = strip_back u.path ++ slash ∷ strip_front str }
unfolding append_path
append_path-joined str u e c = ground (
  arith,
  e,
  c,
  adjust_path-joined u.path str (back_is slash u.path) (front_is slash str) refl refl,
)

pub append_queries : List (List ℕ × List ℕ) → Url → Url
append_queries [] u = u
append_queries (p ∷ ps) u = append_queries ps (append_query p.0 p.1 u)

-- The parameters as they are appended, without anything between them.
abbrev pub run_together : List (List ℕ × List ℕ) → List ℕ
run_together [] = []
run_together (p ∷ ps) = (p.0 ++ equals ∷ p.1) ++ run_together ps

not_empty-append : (xs ys : List ℕ) → is_empty xs ≡ false → is_empty (xs ++ ys) ≡ false
not_empty-append [] ys n = ground (arith, n)
not_empty-append (x ∷ xs) ys n = refl

more_queries :
    (ps : List (List ℕ × List ℕ)) (u : Url)
    → is_empty u.query ≡ false
    → append_queries ps u ≡ record u { query = u.query ++ run_together ps }
unfolding append_queries append_query
more_queries [] u n = ap (λ q. record u { query = q }) (sym (append-nil u.query))
more_queries (p ∷ ps) u n =
    ap (append_queries ps) (ground (arith, n))
    ∙ more_queries ps (record u { query = u.query ++ (p.0 ++ equals ∷ p.1) })
        (not_empty-append u.query (p.0 ++ equals ∷ p.1) n)
    ∙ ap (λ q. record u { query = q })
        (append_assoc u.query (p.0 ++ equals ∷ p.1) (run_together ps))

-- Parameters that are appended to a URL without a query make a query that begins with an ampersand,
-- and no other stands between them.
pub append_queries-run_together :
    (p : List ℕ × List ℕ) (ps : List (List ℕ × List ℕ)) (u : Url)
    → u.query ≡ []
    → (append_queries (p ∷ ps) u).query ≡ ampersand ∷ run_together (p ∷ ps)
unfolding append_queries append_query
append_queries-run_together p ps u e =
    let q : List ℕ = ampersand ∷ (p.0 ++ equals ∷ p.1) in
    let first : append_query p.0 p.1 u ≡ record u { query = q } = ground (arith, e) in
    ap (λ v. (append_queries ps v).query) first
    ∙ ap Url.query (more_queries ps (record u { query = q }) refl)
