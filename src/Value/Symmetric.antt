-- ===== src/Value/Symmetric.antt =====
-- include/lincheck/lincheck.hpp, `operator==` of `Value`, read from the other side.
use lincheck_cpp.Prelude.{◌≡◌, ◌↔◌, true, false, list_eq_iff, ==_iff, arith}
use lincheck_cpp.Value.{
  Payloads, OperationException, exception_eq, Custom, null, exception, user, wraps_exception,
  custom_eq, Value, monostate, boolean, int64, uint64, double, string, custom, value_eq,
}

-- What the comparison needs of the parts that it does not implement.
pub record EqIsSymmetric (P : Payloads) : Type 0 where
  pub doubles : (a b : P.Double) → P.double_eq a b ≡ true → P.double_eq b a ≡ true
  pub users : (a b : P.User) → P.user_eq a b ≡ true → P.user_eq b a ≡ true
  pub exceptions :
      (u : P.User) (e : OperationException)
      → (wraps_exception e (P.user_exception u) ≡ true) ↔ (P.user_eq_exception u e ≡ true)

exception_eq_sym : (a b : OperationException) → exception_eq a b ≡ true → exception_eq b a ≡ true
exception_eq_sym a b e = ground (
  arith,
  list_eq_iff a.type b.type,
  list_eq_iff a.message b.message,
  list_eq_iff b.type a.type,
  list_eq_iff b.message a.message,
)

module _ {P : Payloads} (symmetric : EqIsSymmetric P) where
  custom_eq_sym : (a b : Custom P) → custom_eq a b ≡ true → custom_eq b a ≡ true
  custom_eq_sym null null e = e
  custom_eq_sym (exception a) (exception b) e = exception_eq_sym a b e
  custom_eq_sym (user a) (user b) e = symmetric.users a b e
  custom_eq_sym (exception a) (user u) e = (symmetric.exceptions u a).0 e
  custom_eq_sym (user u) (exception a) e = (symmetric.exceptions u a).1 e
  custom_eq_sym a b e = cc

  pub value_eq_sym : (a b : Value P) → value_eq a b ≡ true → value_eq b a ≡ true
  value_eq_sym monostate monostate e = e
  value_eq_sym (boolean true) (boolean true) e = e
  value_eq_sym (boolean false) (boolean false) e = e
  value_eq_sym (int64 a) (int64 b) e = ground (arith, ==_iff a b, ==_iff b a)
  value_eq_sym (uint64 a) (uint64 b) e = ground (arith, ==_iff a b, ==_iff b a)
  value_eq_sym (double a) (double b) e = symmetric.doubles a b e
  value_eq_sym (string a) (string b) e = ground (arith, list_eq_iff a b, list_eq_iff b a)
  value_eq_sym (custom a) (custom b) e = custom_eq_sym a b e
  value_eq_sym a b e = cc
