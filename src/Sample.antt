-- ===== src/Sample.antt =====
-- Sample data that the tests share: payloads where doubles and user values are numbers.
use lincheck_cpp.Prelude.{none, ℕ, ◌==◌, false, []}
use lincheck_cpp.Value.{Payloads}
use lincheck_cpp.Scenario.{Actor}

abbrev pub plain : Payloads
plain = record {
  Double = ℕ;
  double_eq = ◌==◌;
  double_bits = λ d. d;
  double_to_string = λ d. [];
  User = ℕ;
  user_eq = ◌==◌;
  user_hash = λ u. u;
  user_to_string = λ u. [];
  user_exception = λ u. none;
  user_eq_exception = λ u e. false;
  std_hash = λ s. 7;
}

-- A call of the operation with this index, without arguments.
abbrev pub actor : ℕ → Actor plain
actor index = record {
  operation_index = index;
  name = [];
  group = [];
  non_parallel = false;
  one_shot = false;
  exception_results = false;
  arguments = [];
}
