-- ===== src/Dispatcher.antt =====
-- Net/Dispatcher.h: the callbacks for the types of messages. A descriptor, a class and a callback are
-- numbers.
use ioloop.Prelude.{
  ℕ, List, [], ◌∷◌, Option, none, some, Result, ok, err, bad_function_call, assert, ◌>>◌, ◌==◌,
  if◌then◌else◌,
}

-- `CallbackT<T>`: its function, and the class `T`.
pub record Callback : Type 0 where
  pub function : ℕ
  pub type : ℕ

-- `callbacks_` as a list without equal keys, and `defaultCallback_`, which may be empty.
pub record Dispatcher : Type 0 where
  pub callbacks : List (ℕ × Callback)
  pub default_callback : Option ℕ

unfoldable pub new_dispatcher : Option ℕ → Dispatcher
new_dispatcher default_callback = record { callbacks = []; default_callback = default_callback }

abbrev pub find_callback : ℕ → List (ℕ × Callback) → Option Callback
find_callback d [] = none
find_callback d (e ∷ es) = if e.0 == d then some e.1 else find_callback d es

-- `callbacks_[d] = pd`
abbrev pub assign : ℕ → Callback → List (ℕ × Callback) → List (ℕ × Callback)
assign d c [] = (d, c) ∷ []
assign d c (e ∷ es) = let rest = assign d c es in if e.0 == d then (d, c) ∷ es else e ∷ rest

-- A message: its descriptor, and the class that it really has. Messages of several classes may have
-- one descriptor, as a `DynamicMessage` has that of any class.
pub record Message : Type 0 where
  pub descriptor : ℕ
  pub type : ℕ

-- `registerMessageCallback<T>`, where `T::descriptor()` is `descriptor`.
unfoldable pub register_message_callback : ℕ → ℕ → ℕ → Dispatcher → Dispatcher
register_message_callback type descriptor function q = record q {
  callbacks = assign descriptor (record { function = function; type = type }) q.callbacks;
}

-- The function that is called: that of the class, whose cast is asserted, or the default. The
-- classes have no classes under them.
abbrev pub call_found : Option Callback → ℕ → Option ℕ → Result ℕ
call_found (some c) type default_callback = do assert (c.type == type); ok c.function
call_found none type (some f) = ok f
call_found none type none = err bad_function_call

unfoldable pub on_message : Message → Dispatcher → Result ℕ
on_message m q = call_found (find_callback m.descriptor q.callbacks) m.type q.default_callback
