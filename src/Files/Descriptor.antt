-- ===== src/Files/Descriptor.antt =====
-- File/File.h and File/File.cpp: the descriptor of a file, and the members that are one system call
-- each, whose answers are arguments.
use ioloop.Prelude.{
  ℕ, ◌≡◌, refl, sym, ap, ◌∙◌, List, [], ◌∷◌, ◌++◌, append-nil, Option, none, some, Bool, true,
  false, not, if◌then◌else◌, arith,
}

-- `fd` is none where it is -1, and `closed` holds the descriptors that were given to `::close`.
pub record File : Type 0 where
  pub fd : Option ℕ
  pub flags : ℕ
  pub path : List ℕ
  pub closed : List ℕ

-- The constructors for a descriptor, and for a path, where `::open` gives a descriptor or fails.
unfoldable pub of_fd : ℕ → File
of_fd fd = record { fd = some fd; flags = 0; path = []; closed = [] }

unfoldable pub of_fd_path : ℕ → List ℕ → File
of_fd_path fd path = record { fd = some fd; flags = 0; path = path; closed = [] }

unfoldable pub open_file : List ℕ → ℕ → Option ℕ → File
open_file path flags opened = record { fd = opened; flags = flags; path = path; closed = [] }

abbrev close_fd : Option ℕ → File → File
close_fd none f = f
close_fd (some fd) f = record f { closed = f.closed ++ fd ∷ [] }

unfoldable pub destroy : File → File
destroy f = close_fd f.fd f

abbrev is_there : Option ℕ → Bool
is_there none = false
is_there (some fd) = true

unfoldable pub ready : File → Bool
ready f = is_there f.fd

-- `close`; `fails` is the answer of the system call.
unfoldable pub close : Bool → File → Bool × File
close fails f =
    if is_there f.fd then (not fails, record (close_fd f.fd f) { fd = none }) else (false, f)

unfoldable pub release : File → File
release f = record f { fd = none }

unfoldable pub get_fd : File → Option ℕ
get_fd f = f.fd

-- What `fstat` answers: whether the file is a regular one, and its size.
abbrev pub Status : Type 0
Status = Option (Bool × ℕ)

unfoldable pub stat : Status → Bool
stat none = false
stat (some s) = true

-- `getSize`, where none is -1.
unfoldable pub get_size : Status → Option ℕ
get_size none = none
get_size (some s) = if s.0 then some s.1 else none

unfoldable pub sync : Bool → Bool
sync fails = not fails

-- These return the result of the system call as a `bool`, which is true when it failed.
unfoldable pub truncate : Bool → Bool
truncate fails = fails

unfoldable pub lock : Bool → Bool
lock fails = fails

unfoldable pub unlock : Bool → Bool
unlock fails = fails

-- What an owner does to the descriptor.
pub data Op : Type 0 where
  close_op : Bool → Op
  release_op : Op

unfoldable pub run : List Op → File → File
run [] f = f
run (close_op fails ∷ os) f = run os (close fails f).1
run (release_op ∷ os) f = run os (release f)

-- Whether the descriptor is given away before it is closed.
abbrev pub is_released : List Op → Bool
is_released [] = false
is_released (close_op fails ∷ os) = false
is_released (release_op ∷ os) = true

run-none : (os : List Op) (f : File) → f.fd ≡ none → (destroy (run os f)).closed ≡ f.closed
unfolding run close release destroy
run-none [] f e = ground (arith, e)
run-none (close_op fails ∷ os) f e =
    let same : (close fails f).1 ≡ f = ground (arith, e) in
    ap (λ g. (destroy (run os g)).closed) same ∙ run-none os f e
run-none (release_op ∷ os) f e = run-none os (release f) refl

-- Whatever closes and releases come, and however the closing ends, the descriptor is closed exactly
-- once by the end of the object, unless it was released first; then it is never closed.
pub destroy-run :
    (os : List Op) (fd : ℕ) (f : File)
    → f.fd ≡ some fd
    → (destroy (run os f)).closed ≡ f.closed ++ (if is_released os then [] else fd ∷ [])
unfolding run close release destroy
destroy-run [] fd f e = ground (arith, e)
destroy-run (close_op fails ∷ os) fd f e =
    let closes : (close fails f).1 ≡ record f { fd = none; closed = f.closed ++ fd ∷ [] } =
      ground (arith, e) in
    ap (λ g. (destroy (run os g)).closed) closes
    ∙ run-none os (record f { fd = none; closed = f.closed ++ fd ∷ [] }) refl
destroy-run (release_op ∷ os) fd f e = run-none os (release f) refl ∙ sym (append-nil f.closed)
