-- ===== src/Url/Parts.antt =====
-- Http/Url.cpp: a URL that is put together from its parts is taken apart into them.
use ioloop.Prelude.{
  ℕ, suc, ◌+◌, ◌≡◌, refl, sym, ap, ◌∙◌, subst, List, [], ◌∷◌, ◌++◌, none, some, arith, Bool, true,
  false, ◌||◌, ◌==◌, length, drop, take-append_exact, drop-append_exact,
}
use ioloop.Url.{
  Url, tab, space, slash, colon, question, bracket, find_char, find_last_of, find_separator,
  begins_separator, ltrim, parse_scheme, parse_path, parse_authority, authority_at, parse_port,
  is_port_colon, parse, empty_url,
}

drop-append_add : (n : ℕ) (xs ys : List ℕ) → drop (length xs + n) (xs ++ ys) ≡ drop n ys
drop-append_add n [] ys = ap (λ k. drop k ys) (omega arith)
drop-append_add n (x ∷ xs) ys =
    let e : suc (length xs) + n ≡ suc (length xs + n) = omega arith in
    ap (λ k. drop k (x ∷ (xs ++ ys))) e ∙ drop-append_add n xs ys

-- A character does not occur.
abbrev pub has : ℕ → List ℕ → Bool
has c [] = false
has c (x ∷ xs) = x == c || has c xs

find_char-append :
    (c : ℕ) (xs ys : List ℕ) → has c xs ≡ false → find_char c (xs ++ c ∷ ys) ≡ some (length xs)
find_char-append c [] ys n = ground arith
find_char-append c (x ∷ xs) ys n = ground (arith, n, find_char-append c xs ys (ground (arith, n)))

find_last_of-none : (c : ℕ) (xs : List ℕ) → has c xs ≡ false → find_last_of c xs ≡ none
find_last_of-none c [] n = refl
find_last_of-none c (x ∷ xs) n = ground (arith, n, find_last_of-none c xs (ground (arith, n)))

find_last_of-append :
    (c : ℕ) (xs ys : List ℕ) → has c ys ≡ false → find_last_of c (xs ++ c ∷ ys) ≡ some (length xs)
find_last_of-append c [] ys n = ground (arith, find_last_of-none c ys n)
find_last_of-append c (x ∷ xs) ys n = ground (arith, find_last_of-append c xs ys n)

-- A bracket in front of the colon does not hide it.
colon_counts :
    (c : ℕ) (xs ys : List ℕ)
    → has c ys ≡ false
    → is_port_colon (length xs) (find_last_of c (xs ++ ys)) ≡ true
colon_counts c [] ys n = ground (arith, find_last_of-none c ys n)
colon_counts c (x ∷ xs) ys n = ground (arith, colon_counts c xs ys n)

begins_separator_not :
    (x : ℕ) (xs : List ℕ) → (x == colon) ≡ false → begins_separator (x ∷ xs) ≡ false
begins_separator_not x [] n = refl
begins_separator_not x (y ∷ []) n = refl
begins_separator_not x (y ∷ z ∷ zs) n = ground (arith, n)

find_separator-append :
    (xs ys : List ℕ)
    → has colon xs ≡ false
    → find_separator (xs ++ colon ∷ slash ∷ slash ∷ ys) ≡ some (length xs)
find_separator-append [] ys n = refl
find_separator-append (x ∷ xs) ys n = ground (
  arith,
  begins_separator_not x (xs ++ colon ∷ slash ∷ slash ∷ ys) (ground (arith, n)),
  find_separator-append xs ys (ground (arith, n)),
)

-- Nothing, or something that begins with a blank.
abbrev pub blank_front : List ℕ → Bool
blank_front [] = true
blank_front (x ∷ xs) = x == tab || x == space

-- What the parts of a URL must not contain, so that they can be told apart.
pub record IsPrintable (u : Url) : Type 0 where
  pub scheme_colon : has colon u.scheme ≡ false
  pub scheme_blank : blank_front u.scheme ≡ false
  pub host_slash : has slash u.host ≡ false
  pub port_slash : has slash u.port ≡ false
  pub port_colon : has colon u.port ≡ false
  pub port_bracket : has bracket u.port ≡ false
  pub path_slash : (rest : List ℕ) × (u.path ≡ slash ∷ rest)
  pub path_question : has question u.path ≡ false

-- `scheme://host:port/path?query`
abbrev pub print : Url → List ℕ
print u =
    u.scheme
    ++ colon ∷ slash ∷ slash ∷ ((u.host ++ colon ∷ u.port) ++ (u.path ++ question ∷ u.query))

has-append : (c : ℕ) (xs ys : List ℕ) → has c (xs ++ ys) ≡ (has c xs || has c ys)
has-append c [] ys = refl
has-append c (x ∷ xs) ys = ground (arith, has-append c xs ys)

ltrim-append : (xs ys : List ℕ) → blank_front xs ≡ false → ltrim (xs ++ ys) ≡ xs ++ ys
ltrim-append [] ys e = ground arith
ltrim-append (x ∷ xs) ys e = ground (arith, e)

parse_scheme-print :
    (xs ys : List ℕ) (u : Url)
    → has colon xs ≡ false
    → parse_scheme (xs ++ colon ∷ slash ∷ slash ∷ ys) u ≡ (ys, record u { scheme = xs })
unfolding parse_scheme
parse_scheme-print xs ys u n =
    let e = find_separator-append xs ys n in
    ground (
      arith,
      e,
      take-append_exact (length xs) xs (colon ∷ slash ∷ slash ∷ ys) refl,
      drop-append_add 3 xs (colon ∷ slash ∷ slash ∷ ys),
    )

parse_path-print :
    (xs ys : List ℕ) (u : Url)
    → has question xs ≡ false
    → parse_path (xs ++ question ∷ ys) u ≡ record u { path = xs; query = ys }
unfolding parse_path
parse_path-print xs ys u n = ground (
  arith,
  find_char-append question xs ys n,
  take-append_exact (length xs) xs (question ∷ ys) refl,
  drop-append_add 1 xs (question ∷ ys),
)

parse_port-print :
    (xs ys : List ℕ) (u : Url)
    → u.host ≡ xs ++ colon ∷ ys
    → has colon ys ≡ false
    → has bracket ys ≡ false
    → parse_port u ≡ record u { host = xs; port = ys }
unfolding parse_port
parse_port-print xs ys u e n b = ground (
  arith,
  e,
  find_last_of-append colon xs ys n,
  colon_counts bracket xs (colon ∷ ys) (ground (arith, b)),
  take-append_exact (length xs) xs (colon ∷ ys) refl,
  drop-append_add 1 xs (colon ∷ ys),
)

parse_authority-print :
    (h xs ys : List ℕ) (u : Url)
    → has slash h ≡ false
    → has question (slash ∷ xs) ≡ false
    → parse_authority (h ++ ((slash ∷ xs) ++ question ∷ ys)) u
      ≡ record u { host = h; path = slash ∷ xs; query = ys }
unfolding parse_authority authority_at
parse_authority-print h xs ys u n q = ground (
  arith,
  find_char-append slash h (xs ++ question ∷ ys) n,
  take-append_exact (length h) h ((slash ∷ xs) ++ question ∷ ys) refl,
  drop-append_exact (length h) h ((slash ∷ xs) ++ question ∷ ys) refl,
  parse_path-print (slash ∷ xs) ys (record u { host = h }) q,
)

-- A URL that is written with all its parts, none of which contains the character that ends it, is
-- parsed into them. The host may contain colons in brackets, as an IPv6 address does.
pub parse-print : (u : Url) → IsPrintable u → parse (print u) empty_url ≡ u
unfolding parse
parse-print u p =
    let (rest, e) = p.path_slash in
    let h = u.host ++ colon ∷ u.port in
    let tail = h ++ (u.path ++ question ∷ u.query) in
    let trim = ltrim-append u.scheme (colon ∷ slash ∷ slash ∷ tail) p.scheme_blank in
    let sch = parse_scheme-print u.scheme tail empty_url p.scheme_colon in
    let u₁ : Url = record empty_url { scheme = u.scheme } in
    let no_slash : has slash h ≡ false =
      has-append slash u.host (colon ∷ u.port) ∙ ground (arith, p.host_slash, p.port_slash) in
    let auth : parse_authority tail u₁ ≡ record u₁ { host = h; path = u.path; query = u.query } =
      subst
        (λ q.
          parse_authority (h ++ (q ++ question ∷ u.query)) u₁
          ≡ record u₁ { host = h; path = q; query = u.query })
        (sym e)
        (parse_authority-print h rest u.query u₁ no_slash
          (subst (λ q. has question q ≡ false) e p.path_question)) in
    let port =
      parse_port-print u.host u.port (record u₁ { host = h; path = u.path; query = u.query }) refl
        p.port_colon p.port_bracket in
    ground (arith, trim, sch, auth, port)
