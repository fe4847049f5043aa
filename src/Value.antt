-- ===== src/Value.antt =====
-- include/lincheck/lincheck.hpp, `class Value`: the dynamically typed values of arguments, results
-- and state keys. Doubles, user types and `std::hash` are parameters.
pub mod Hash
pub mod Text
pub mod Symmetric
pub mod Bijective
pub mod Bytes
mod Tests
use lincheck_cpp.Prelude.{ℕ, Bool, true, false, ◌&&◌, ◌==◌, Option, none, some, List, list_eq}

-- `std::string`, as its bytes.
abbrev pub Str : Type 0
Str = List ℕ

pub record OperationException : Type 0 where
  pub type : Str
  pub message : Str

abbrev pub exception_eq : OperationException → OperationException → Bool
exception_eq a b = list_eq a.type b.type && list_eq a.message b.message

-- What a `Value` can hold that is not implemented here: the platform's doubles with `==` and their
-- bit patterns and texts, and the user's types, with their `Equal`, `Hasher` and `Formatter`, as one
-- type `User`.
-- `user_eq` is false on values of two different types. A user may wrap an `OperationException` too:
-- `user_exception` is the cast to it, and `user_eq_exception` compares such a value with an exception
-- that the library has wrapped.
pub record Payloads : Type 1 where
  pub Double : Type 0
  pub double_eq : Double → Double → Bool
  pub double_bits : Double → ℕ
  pub double_to_string : Double → Str
  pub User : Type 0
  pub user_eq : User → User → Bool
  pub user_hash : User → ℕ
  pub user_to_string : User → Str
  pub user_exception : User → Option OperationException
  pub user_eq_exception : User → OperationException → Bool
  pub std_hash : Str → ℕ

-- `CustomStorage`, a shared pointer: null, an exception that the library has wrapped, or a value that
-- a user has wrapped, with the user's own functions.
pub data Custom (P : Payloads) : Type 0 where
  null : Custom P
  exception : OperationException → Custom P
  user : P.User → Custom P

-- The alternatives of `Storage`, in the order of the variant. Integers are 64-bit patterns.
pub data Value (P : Payloads) : Type 0 where
  monostate : Value P
  boolean : Bool → Value P
  int64 : ℕ → Value P
  uint64 : ℕ → Value P
  double : P.Double → Value P
  string : Str → Value P
  custom : Custom P → Value P

abbrev pub bool_eq : Bool → Bool → Bool
bool_eq true b = b
bool_eq false true = false
bool_eq false false = true

-- The other value, if it holds an exception too, for `std::equal_to`.
abbrev pub wraps_exception : OperationException → Option OperationException → Bool
wraps_exception a none = false
wraps_exception a (some e) = exception_eq a e

module _ {P : Payloads} where
  -- `equals` of the left value: the cast to its own type, then its own comparison.
  abbrev pub custom_eq : Custom P → Custom P → Bool
  custom_eq null null = true
  custom_eq (exception a) (exception b) = exception_eq a b
  custom_eq (user a) (user b) = P.user_eq a b
  custom_eq (exception a) (user u) = wraps_exception a (P.user_exception u)
  custom_eq (user u) (exception a) = P.user_eq_exception u a
  custom_eq _ _ = false

  -- `operator==` of two values.
  abbrev pub value_eq : Value P → Value P → Bool
  value_eq monostate monostate = true
  value_eq (boolean a) (boolean b) = bool_eq a b
  value_eq (int64 a) (int64 b) = a == b
  value_eq (uint64 a) (uint64 b) = a == b
  value_eq (double a) (double b) = P.double_eq a b
  value_eq (string a) (string b) = list_eq a b
  value_eq (custom a) (custom b) = custom_eq a b
  value_eq _ _ = false

  -- `exception_result_value`, of an exception that `describe_exception` has described.
  pub exception_result_value : OperationException → Value P
  exception_result_value e = custom (exception e)
