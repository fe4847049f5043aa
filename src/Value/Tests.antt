-- ===== src/Value/Tests.antt =====
-- `operator==` and `stable_hash` on sample values.
use lincheck_cpp.Prelude.{◌≡◌, ◌≢◌, refl, true, false, ◌==◌, [], ◌∷◌, some, arith}
use lincheck_cpp.Sample.{plain}
use lincheck_cpp.Value.{
  Payloads, OperationException, Value, boolean, string, custom, exception, user, value_eq,
}
use lincheck_cpp.Value.Hash
use lincheck_cpp.Value.Hash.{stable_hash}
use lincheck_cpp.Value.Bytes.{encoding, DifferInOneByte, stable_hash-differs}

abbrev failure : OperationException
failure = record { type = b't' ∷ []; message = b'm' ∷ [] }

-- Users whose values hold the exception above, and compare with nothing.
abbrev wrapping : Payloads
wrapping = record plain { user_exception = λ u. some failure }

exception_equals_user :
    value_eq {P = wrapping} (custom (exception failure)) (custom (user 0)) ≡ true
exception_equals_user = refl

user_differs : value_eq {P = wrapping} (custom (user 0)) (custom (exception failure)) ≡ false
user_differs = refl

hashes_differ :
    (stable_hash {P = plain} (boolean true) == stable_hash {P = plain} (boolean false)) ≡ false
unfolding Hash.stable_hash
hashes_differ = refl

abbrev cat : Value plain
cat = string (b'c' ∷ b'a' ∷ b't' ∷ [])

abbrev cut : Value plain
cut = string (b'c' ∷ b'u' ∷ b't' ∷ [])

cat-cut : DifferInOneByte (encoding cat) (encoding cut)
cat-cut = record {
  before = 5 ∷ 0 ∷ 0 ∷ 0 ∷ 0 ∷ 0 ∷ 0 ∷ 0 ∷ 3 ∷ 0 ∷ 0 ∷ 0 ∷ 0 ∷ 0 ∷ 0 ∷ 0 ∷ b'c' ∷ [];
  c = b'a';
  d = b'u';
  after = b't' ∷ [];
  left = refl;
  right = refl;
  c_lt = omega arith;
  d_lt = omega arith;
  differ = λ e. omega arith;
  bytes = (omega arith, tt);
}

stable_hash-differs_example : stable_hash cat ≢ stable_hash cut
stable_hash-differs_example = stable_hash-differs cat cut cat-cut
