-- ===== src/Value/Hash.antt =====
-- include/lincheck/lincheck.hpp, `Value::stable_hash`: FNV-1a over the storage's index and bytes.
use Prim.Native.Nat.{bit_xor}
use lincheck_cpp.Prelude.{ℕ, zero, suc, ◌+◌, ◌*◌, ◌/◌, ◌%◌, ◌^◌, [], ◌∷◌, length, if◌then◌else◌}
use lincheck_cpp.Value.{
  Str, Payloads, Custom, null, exception, user, Value, monostate, boolean, int64, uint64, double,
  string, custom,
}

-- `std::uint64_t` keeps its wrap-around.
abbrev u64 : ℕ → ℕ
u64 n = n % 2 ^ 64

abbrev pub offset_basis : ℕ
offset_basis = 14695981039346656037

abbrev fnv_prime : ℕ
fnv_prime = 1099511628211

unfoldable pub add_byte : ℕ → ℕ → ℕ
add_byte hash value = u64 (bit_xor hash value * fnv_prime)

-- The low `n` bytes of `value`, least significant first; `add_u64` adds eight.
unfoldable pub add_bytes : ℕ → ℕ → ℕ → ℕ
add_bytes zero hash value = hash
add_bytes (suc n) hash value = add_bytes n (add_byte hash (value % 256)) (value / 256)

unfoldable pub add_u64 : ℕ → ℕ → ℕ
add_u64 hash value = add_bytes 8 hash value

unfoldable pub add_string : ℕ → Str → ℕ
add_string hash [] = hash
add_string hash (c ∷ s) = add_string (add_byte hash c) s

-- `first` and `second` stand for what `std::hash` gives for the two strings.
combine_string_hashes : ℕ → ℕ → ℕ
combine_string_hashes first second =
    bit_xor first (u64 (second + 0x9e3779b97f4a7c15 + u64 (first * 64) + first / 4))

module _ {P : Payloads} where
  -- `storage_.index()`.
  unfoldable pub storage_index : Value P → ℕ
  storage_index monostate = 0
  storage_index (boolean _) = 1
  storage_index (int64 _) = 2
  storage_index (uint64 _) = 3
  storage_index (double _) = 4
  storage_index (string _) = 5
  storage_index (custom _) = 6

  -- A null pointer hashes as 0, an exception as its two strings together.
  pub custom_hash : Custom P → ℕ
  custom_hash null = 0
  custom_hash (exception e) =
      combine_string_hashes (u64 (P.std_hash e.type)) (u64 (P.std_hash e.message))
  custom_hash (user u) = P.user_hash u

  unfoldable pub add_storage : ℕ → Value P → ℕ
  add_storage hash monostate = hash
  add_storage hash (boolean b) = add_byte hash (if b then 1 else 0)
  add_storage hash (int64 n) = add_u64 hash n
  add_storage hash (uint64 n) = add_u64 hash n
  add_storage hash (double d) = add_u64 hash (P.double_bits d)
  add_storage hash (string s) = add_string (add_u64 hash (length s)) s
  add_storage hash (custom c) = add_u64 hash (custom_hash c)

  unfoldable pub stable_hash : Value P → ℕ
  unfolding storage_index add_storage add_byte add_bytes add_u64 add_string custom_hash
      combine_string_hashes
  stable_hash v = add_storage (add_u64 offset_basis (storage_index v)) v
