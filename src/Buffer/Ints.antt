-- ===== src/Buffer/Ints.antt =====
-- Net/Buffer.cpp: the integers that a buffer carries in network order. An integer is its bit
-- pattern, so an `int32_t` is below 2 ^ 32 and an `int8_t` below 2 ^ 8.
pub mod Fields
pub mod BigEndian
use ioloop.Prelude.{
  ℕ, ◌+◌, ◌^◌, ◌≤◌, ◌<◌, ◌≡◌, List, [], ◌∷◌, Result, ok, err, assert, ◌>>=◌, ◌>>◌, leb, take,
  length, get_or,
}
use ioloop.Buffer.{Buffer, readable_bytes, peek, retrieve, append, prepend}

-- `boost::asio::detail::socket_ops`: what `host_to_network_long` and `_short` leave in memory, and
-- what `network_to_host_long` and `_short` read from there.
pub record ByteOrder : Type 0 where
  pub bytes32 : ℕ → List ℕ
  pub host32 : List ℕ → ℕ
  pub bytes16 : ℕ → List ℕ
  pub host16 : List ℕ → ℕ
  pub length_bytes32 : (x : ℕ) → length (bytes32 x) ≡ 4
  pub length_bytes16 : (x : ℕ) → length (bytes16 x) ≡ 2
  pub host32_bytes32 : (x : ℕ) → x < 2 ^ 32 → host32 (bytes32 x) ≡ x
  pub host16_bytes16 : (x : ℕ) → x < 2 ^ 16 → host16 (bytes16 x) ≡ x

pub retrieve_int32 : Buffer → Result Buffer
retrieve_int32 b = retrieve 4 b

pub retrieve_int16 : Buffer → Result Buffer
retrieve_int16 b = retrieve 2 b

pub retrieve_int8 : Buffer → Result Buffer
retrieve_int8 b = retrieve 1 b

pub append_int8 : ℕ → Buffer → Result Buffer
append_int8 x b = append (x ∷ []) 1 b

pub prepend_int8 : ℕ → Buffer → Result Buffer
prepend_int8 x b = prepend (x ∷ []) 1 b

pub peek_int8 : Buffer → Result ℕ
peek_int8 b = do assert (leb 1 (readable_bytes b)); ok (get_or (peek b) 0 0)

pub read_int8 : Buffer → Result (ℕ × Buffer)
unfolding peek_int8 retrieve_int8
read_int8 b = do result ← peek_int8 b; b' ← retrieve_int8 b; ok (result, b')

module _ (net : ByteOrder) where
  pub append_int32 : ℕ → Buffer → Result Buffer
  append_int32 x b = append (net.bytes32 x) 4 b

  pub append_int16 : ℕ → Buffer → Result Buffer
  append_int16 x b = append (net.bytes16 x) 2 b

  pub prepend_int32 : ℕ → Buffer → Result Buffer
  prepend_int32 x b = prepend (net.bytes32 x) 4 b

  pub prepend_int16 : ℕ → Buffer → Result Buffer
  prepend_int16 x b = prepend (net.bytes16 x) 2 b

  unfoldable pub peek_int32 : Buffer → Result ℕ
  peek_int32 b = do assert (leb 4 (readable_bytes b)); ok (net.host32 (take 4 (peek b)))

  pub peek_int16 : Buffer → Result ℕ
  peek_int16 b = do assert (leb 2 (readable_bytes b)); ok (net.host16 (take 2 (peek b)))

  pub read_int32 : Buffer → Result (ℕ × Buffer)
  unfolding retrieve_int32
  read_int32 b = do result ← peek_int32 b; b' ← retrieve_int32 b; ok (result, b')

  pub read_int16 : Buffer → Result (ℕ × Buffer)
  unfolding retrieve_int16
  read_int16 b = do result ← peek_int16 b; b' ← retrieve_int16 b; ok (result, b')
