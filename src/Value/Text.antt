-- ===== src/Value/Text.antt =====
-- include/lincheck/lincheck.hpp, `Value::to_string`.
use lincheck_cpp.Prelude.{
  ℕ, ◌-◌, ◌^◌, [], ◌∷◌, ◌++◌, ltb, if◌then◌else◌, to_string, codes, is_empty,
}
use lincheck_cpp.Value.{
  Str, Payloads, OperationException, Custom, null, exception, user, Value, monostate, boolean,
  int64, uint64, double, string, custom,
}

-- `std::to_string` of the signed number that a 64-bit pattern stands for.
signed_to_string : ℕ → Str
signed_to_string n = if ltb n (2 ^ 63) then to_string n else b'-' ∷ to_string (2 ^ 64 - n)

-- `operator<<` of an exception.
exception_to_string : OperationException → Str
exception_to_string e =
    codes "exception("
    ++ (e.type ++ ((if is_empty e.message then [] else codes ": " ++ e.message) ++ codes ")"))

module _ {P : Payloads} where
  custom_to_string : Custom P → Str
  custom_to_string null = codes "<custom-null>"
  custom_to_string (exception e) = exception_to_string e
  custom_to_string (user u) = P.user_to_string u

  unfoldable pub value_to_string : Value P → Str
  unfolding signed_to_string exception_to_string custom_to_string
  value_to_string monostate = codes "void"
  value_to_string (boolean b) = if b then codes "true" else codes "false"
  value_to_string (int64 n) = signed_to_string n
  value_to_string (uint64 n) = to_string n
  value_to_string (double d) = P.double_to_string d
  value_to_string (string s) = s
  value_to_string (custom c) = custom_to_string c
