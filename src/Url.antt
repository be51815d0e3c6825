-- ===== src/Url.antt =====
-- Http/Url.h and Http/Url.cpp: the parts of a URL. A character is its code.
pub mod Parts
pub mod Append
mod Tests
use ioloop.Prelude.{
  ℕ, suc, ◌+◌, List, [], ◌∷◌, ◌++◌, Option, none, some, Bool, true, false, ◌&&◌, ◌||◌, not, ltb,
  ◌==◌, if◌then◌else◌, length, take, drop,
}

pub record Url : Type 0 where
  pub scheme : List ℕ
  pub host : List ℕ
  pub port : List ℕ
  pub path : List ℕ
  pub query : List ℕ

abbrev pub empty_url : Url
empty_url = record { scheme = []; host = []; port = []; path = []; query = [] }

unfoldable pub set_port : List ℕ → Url → Url
set_port port u = record u { port = port }

abbrev pub tab : ℕ
tab = 9

abbrev pub space : ℕ
space = 32

abbrev pub slash : ℕ
slash = 47

abbrev pub colon : ℕ
colon = 58

abbrev pub question : ℕ
question = 63

abbrev pub bracket : ℕ
bracket = 93

abbrev pub ampersand : ℕ
ampersand = 38

abbrev pub equals : ℕ
equals = 61

-- An index counted from one place earlier.
abbrev pub shift : Option ℕ → Option ℕ
shift none = none
shift (some i) = some (suc i)

-- The index of the first occurrence: `std::string::find` of a character.
abbrev pub find_char : ℕ → List ℕ → Option ℕ
find_char c [] = none
find_char c (x ∷ xs) = if x == c then some 0 else shift (find_char c xs)

-- The index behind the first place, or else the one there.
abbrev pub last_index : Option ℕ → Option ℕ → Option ℕ
last_index (some i) first = some (suc i)
last_index none first = first

-- `std::string::find_last_of`
abbrev pub find_last_of : ℕ → List ℕ → Option ℕ
find_last_of c [] = none
find_last_of c (x ∷ xs) = last_index (find_last_of c xs) (if x == c then some 0 else none)

-- `find("://")`
abbrev pub begins_separator : List ℕ → Bool
begins_separator (x ∷ y ∷ z ∷ xs) = x == colon && (y == slash && z == slash)
begins_separator _ = false

abbrev pub find_separator : List ℕ → Option ℕ
find_separator [] = none
find_separator (x ∷ xs) = if begins_separator (x ∷ xs) then some 0 else shift (find_separator xs)

-- `ltrim`, with its default characters.
abbrev pub ltrim : List ℕ → List ℕ
ltrim [] = []
ltrim (x ∷ xs) = let rest = ltrim xs in if x == tab || x == space then rest else x ∷ xs

-- `tmp` and the URL so far, with the index of the separator.
abbrev scheme_at : Option ℕ → List ℕ → Url → List ℕ × Url
scheme_at none tmp u = (tmp, u)
scheme_at (some p) tmp u = (drop (p + 3) tmp, record u { scheme = take p tmp })

pub parse_scheme : List ℕ → Url → List ℕ × Url
parse_scheme tmp u = scheme_at (find_separator tmp) tmp u

abbrev query_at : Option ℕ → List ℕ → Url → Url
query_at none tmp u = record u { path = tmp }
query_at (some p) tmp u = record u { path = take p tmp; query = drop (p + 1) tmp }

-- The part from the first slash on.
pub parse_path : List ℕ → Url → Url
parse_path tmp u = query_at (find_char question tmp) tmp u

abbrev host_at : Option ℕ → List ℕ → Url → Url
host_at none tmp u = record u { path = []; host = tmp }
host_at (some p) tmp u = record u { path = []; host = take p tmp; query = drop (p + 1) tmp }

-- The rest when it has no slash.
pub parse_host : List ℕ → Url → Url
parse_host tmp u = host_at (find_char question tmp) tmp u

authority_at : Option ℕ → List ℕ → Url → Url
unfolding parse_path parse_host
authority_at none tmp u = parse_host tmp u
authority_at (some p) tmp u = parse_path (drop p tmp) (record u { host = take p tmp })

pub parse_authority : List ℕ → Url → Url
unfolding authority_at
parse_authority tmp u = authority_at (find_char slash tmp) tmp u

-- `bracket == std::string::npos || p > bracket`
abbrev pub is_port_colon : ℕ → Option ℕ → Bool
is_port_colon p none = true
is_port_colon p (some i) = ltb i p

abbrev port_at : Option ℕ → Url → Url
port_at none u = u
port_at (some p) u =
    if is_port_colon p (find_last_of bracket u.host)
    then record u { port = drop (p + 1) u.host; host = take p u.host }
    else u

-- The port at the end of the host. An empty host has none.
pub parse_port : Url → Url
parse_port u = port_at (find_last_of colon u.host) u

pub parse : List ℕ → Url → Url
unfolding parse_scheme parse_authority parse_port
parse url u = let (tmp, u₁) = parse_scheme (ltrim url) u in parse_port (parse_authority tmp u₁)

abbrev pub is_char : ℕ → List ℕ → Bool
is_char c (x ∷ []) = x == c
is_char c _ = false

abbrev pub is_empty : List ℕ → Bool
is_empty [] = true
is_empty (x ∷ xs) = false

-- `front() == c`
abbrev pub front_is : ℕ → List ℕ → Bool
front_is c [] = false
front_is c (x ∷ xs) = x == c

-- `back() == c`
abbrev pub back_is : ℕ → List ℕ → Bool
back_is c [] = false
back_is c (x ∷ []) = x == c
back_is c (x ∷ y ∷ xs) = back_is c (y ∷ xs)

-- `pop_back()`
abbrev pub pop_back : List ℕ → List ℕ
pop_back [] = []
pop_back (x ∷ []) = []
pop_back (x ∷ y ∷ xs) = x ∷ pop_back (y ∷ xs)

-- The path before `append`.
pub adjust_path : List ℕ → List ℕ → List ℕ
adjust_path path str =
    if is_empty path || is_char slash path
    then (if front_is slash str then [] else slash ∷ [])
    else if back_is slash path && front_is slash str
    then pop_back path
    else if not (back_is slash path) && not (front_is slash str)
    then path ++ slash ∷ []
    else path

pub append_path : List ℕ → Url → Url
unfolding adjust_path
append_path str u =
    if is_empty str || is_char slash str
    then u
    else record u { path = adjust_path u.path str ++ str }

pub append_query : List ℕ → List ℕ → Url → Url
append_query key value u =
    let query = if is_empty u.query then u.query ++ ampersand ∷ [] else u.query in
    record u { query = query ++ (key ++ equals ∷ value) }
