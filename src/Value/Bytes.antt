-- ===== src/Value/Bytes.antt =====
-- include/lincheck/lincheck.hpp, `Value::stable_hash`: the sequence of bytes that it hashes, and what
-- one byte of it does to the hash.
use Prim.Native.Nat.{bit_xor}
use lincheck_cpp.Prelude.{
  ℕ, zero, suc, ◌/◌, ◌%◌, ◌^◌, ◌<◌, ◌≡◌, ◌≢◌, refl, sym, ap, ◌∙◌, List, [], ◌∷◌, ◌++◌, length, true,
  false, arith,
}
use lincheck_cpp.Value.{Payloads, Value, monostate, boolean, int64, uint64, double, string, custom}
use lincheck_cpp.Value.Hash.{
  offset_basis, storage_index, custom_hash, add_byte, add_bytes, add_u64, add_string, add_storage,
  stable_hash,
}
use lincheck_cpp.Value.Bijective.{
  times_prime-injective, bit_xor-lt, bit_xor-injective_left, bit_xor-injective_right,
}

-- The low `n` bytes of a number, least significant first.
abbrev little_endian : ℕ → ℕ → List ℕ
little_endian zero x = []
little_endian (suc n) x = (x % 256) ∷ little_endian n (x / 256)

-- The index of an alternative of `Storage`, in eight bytes, before what it holds.
abbrev tagged : ℕ → List ℕ → List ℕ
tagged index bytes = little_endian 8 index ++ bytes

module _ {P : Payloads} where
  -- What a value is hashed by: a Boolean in one byte, a number in eight, a string after its length.
  abbrev pub encoding : Value P → List ℕ
  encoding monostate = tagged 0 []
  encoding (boolean true) = tagged 1 (1 ∷ [])
  encoding (boolean false) = tagged 1 (0 ∷ [])
  encoding (int64 n) = tagged 2 (little_endian 8 n)
  encoding (uint64 n) = tagged 3 (little_endian 8 n)
  encoding (double d) = tagged 4 (little_endian 8 (P.double_bits d))
  encoding (string s) = tagged 5 (little_endian 8 (length s) ++ s)
  encoding (custom c) = tagged 6 (little_endian 8 (custom_hash c))

-- Every element is a byte.
abbrev pub AreBytes : List ℕ → Type 0
AreBytes [] = Unit
AreBytes (c ∷ xs) = (c < 256) × AreBytes xs

-- Two sequences of bytes, of one length, that differ in exactly one place.
pub record DifferInOneByte (xs ys : List ℕ) : Type 0 where
  pub before : List ℕ
  pub c : ℕ
  pub d : ℕ
  pub after : List ℕ
  pub left : xs ≡ before ++ c ∷ after
  pub right : ys ≡ before ++ d ∷ after
  pub c_lt : c < 256
  pub d_lt : d < 256
  pub differ : c ≢ d
  pub bytes : AreBytes after

-- A sequence of bytes in two parts, and a number as a sequence.
add_string-++ :
    (hash : ℕ) (xs ys : List ℕ) → add_string hash (xs ++ ys) ≡ add_string (add_string hash xs) ys
unfolding add_string
add_string-++ hash [] ys = refl
add_string-++ hash (x ∷ xs) ys = add_string-++ (add_byte hash x) xs ys

add_bytes_lem : (n hash x : ℕ) → add_bytes n hash x ≡ add_string hash (little_endian n x)
unfolding add_bytes add_string
add_bytes_lem zero hash x = refl
add_bytes_lem (suc n) hash x = add_bytes_lem n (add_byte hash (x % 256)) (x / 256)

add_u64_lem : (hash x : ℕ) → add_u64 hash x ≡ add_string hash (little_endian 8 x)
unfolding add_u64
add_u64_lem hash x = add_bytes_lem 8 hash x

add_u64-++ :
    (hash x : ℕ) (ys : List ℕ)
    → add_string (add_u64 hash x) ys ≡ add_string hash (little_endian 8 x ++ ys)
add_u64-++ hash x ys =
    ap (λ h. add_string h ys) (add_u64_lem hash x) ∙ sym (add_string-++ hash (little_endian 8 x) ys)

-- Two numbers after each other, the index and what the alternative holds.
add_u64-add_u64 :
    (hash index x : ℕ)
    → add_u64 (add_u64 hash index) x ≡ add_string hash (tagged index (little_endian 8 x))
add_u64-add_u64 hash index x =
    add_u64_lem (add_u64 hash index) x ∙ add_u64-++ hash index (little_endian 8 x)

module _ {P : Payloads} where
  stable_hash_lem : (v : Value P) → stable_hash v ≡ add_string offset_basis (encoding v)
  unfolding stable_hash storage_index add_storage add_string
  stable_hash_lem monostate = add_u64-++ offset_basis 0 []
  stable_hash_lem (boolean true) = add_u64-++ offset_basis 1 (1 ∷ [])
  stable_hash_lem (boolean false) = add_u64-++ offset_basis 1 (0 ∷ [])
  stable_hash_lem (int64 n) = add_u64-add_u64 offset_basis 2 n
  stable_hash_lem (uint64 n) = add_u64-add_u64 offset_basis 3 n
  stable_hash_lem (double d) = add_u64-add_u64 offset_basis 4 (P.double_bits d)
  stable_hash_lem (string s) =
      add_u64-++ (add_u64 offset_basis 5) (length s) s
      ∙ add_u64-++ offset_basis 5 (little_endian 8 (length s) ++ s)
  stable_hash_lem (custom c) = add_u64-add_u64 offset_basis 6 (custom_hash c)

add_byte-lt : (hash c : ℕ) → add_byte hash c < 2 ^ 64
unfolding add_byte
add_byte-lt hash c = omega arith

add_string-lt : (hash : ℕ) (xs : List ℕ) → hash < 2 ^ 64 → add_string hash xs < 2 ^ 64
unfolding add_string
add_string-lt hash [] l = l
add_string-lt hash (x ∷ xs) l = add_string-lt (add_byte hash x) xs (add_byte-lt hash x)

add_byte-injective_left :
    (g h c : ℕ) → g < 2 ^ 64 → h < 2 ^ 64 → c < 256 → add_byte g c ≡ add_byte h c → g ≡ h
unfolding add_byte
add_byte-injective_left g h c l m b e = bit_xor-injective_left g h c (
    times_prime-injective (bit_xor g c) (bit_xor h c) (bit_xor-lt g c l (omega arith))
      (bit_xor-lt h c m (omega arith)) e)

add_byte-injective_right :
    (h c d : ℕ) → h < 2 ^ 64 → c < 256 → d < 256 → add_byte h c ≡ add_byte h d → c ≡ d
unfolding add_byte
add_byte-injective_right h c d l b b' e = bit_xor-injective_right h c d (
    times_prime-injective (bit_xor h c) (bit_xor h d) (bit_xor-lt h c l (omega arith))
      (bit_xor-lt h d l (omega arith)) e)

add_string-injective_left :
    (g h : ℕ) (xs : List ℕ)
    → g < 2 ^ 64
    → h < 2 ^ 64
    → AreBytes xs
    → add_string g xs ≡ add_string h xs
    → g ≡ h
unfolding add_string
add_string-injective_left g h [] l m b e = e
add_string-injective_left g h (x ∷ xs) l m b e = add_byte-injective_left g h x l m b.0 (
    add_string-injective_left (add_byte g x) (add_byte h x) xs (add_byte-lt g x) (add_byte-lt h x)
      b.1 e)

-- One byte that differs makes the hashes differ.
add_string-one_byte :
    (h : ℕ) (xs ys : List ℕ)
    → h < 2 ^ 64
    → DifferInOneByte xs ys
    → add_string h xs ≢ add_string h ys
unfolding add_string
add_string-one_byte h xs ys l o e =
    let h' = add_string h o.before in
    let l' = add_string-lt h o.before l in
    let whole =
      sym (add_string-++ h o.before (o.c ∷ o.after))
      ∙ ap (add_string h) (sym o.left)
      ∙ e
      ∙ ap (add_string h) o.right
      ∙ add_string-++ h o.before (o.d ∷ o.after) in
    o.differ (
      add_byte-injective_right h' o.c o.d l' o.c_lt o.d_lt (
        add_string-injective_left (add_byte h' o.c) (add_byte h' o.d) o.after (add_byte-lt h' o.c)
          (add_byte-lt h' o.d) o.bytes whole))

module _ {P : Payloads} where
  -- Two values have different `stable_hash` if the bytes that they are hashed by differ in exactly
  -- one place. These are the index of the alternative in eight bytes, least significant first, then
  -- a Boolean in one byte, a number, the bits of a double or the hash of a custom value in eight,
  -- or a string after its length in eight.
  pub stable_hash-differs :
      (v w : Value P) → DifferInOneByte (encoding v) (encoding w) → stable_hash v ≢ stable_hash w
  stable_hash-differs v w o e =
      add_string-one_byte offset_basis (encoding v) (encoding w) (omega arith) o
        (sym (stable_hash_lem v) ∙ e ∙ stable_hash_lem w)
