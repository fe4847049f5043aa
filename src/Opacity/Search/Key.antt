-- ===== src/Opacity/Search/Key.antt =====
-- include/lincheck/lincheck.hpp, `stm_opacity_search_state_key`: the memo's text for what is placed
-- and the state that it has led to.
use lincheck_cpp.Prelude.{
  ℕ, ◌≡◌, refl, ap, Bool, true, false, none, some, List, [], ◌∷◌, ◌++◌, ◌==◌, ltb, if◌then◌else◌,
  to_string, codes, length, arith,
}
use lincheck_cpp.Value.{Str, Payloads, Value}
use lincheck_cpp.Value.Hash.{stable_hash}
use lincheck_cpp.Value.Text.{value_to_string}
use lincheck_cpp.Opacity.History.{StmOpacityState, find_value}

-- `operator<` of two strings.
unfoldable pub text_lt : Str → Str → Bool
text_lt [] [] = false
text_lt [] (_ ∷ _) = true
text_lt (_ ∷ _) [] = false
text_lt (x ∷ xs) (y ∷ ys) = if x == y then text_lt xs ys else ltb x y

unfoldable pub insert_id : Str → List Str → List Str
insert_id id [] = id ∷ []
insert_id id (j ∷ ids) = if text_lt j id then j ∷ insert_id id ids else id ∷ j ∷ ids

-- `std::sort`, of ids that are all different.
unfoldable pub sort_ids : List Str → List Str
unfolding insert_id
sort_ids [] = []
sort_ids (id ∷ ids) = insert_id id (sort_ids ids)

flags_text : List Bool → Str
flags_text [] = []
flags_text (b ∷ placed) = (if b then b'1' else b'0') ∷ flags_text placed

module _ {P : Payloads} where
  unfoldable pub location_ids : StmOpacityState P → List Str
  location_ids [] = []
  location_ids ((id, _) ∷ state) = id ∷ location_ids state

  unfoldable pub entry_text : Str → Value P → Str
  entry_text id value =
      id
      ++ (b'=' ∷ (to_string (stable_hash value) ++ (b':' ∷ (value_to_string value ++ (b';' ∷ [])))))

  unfoldable pub entries_text : StmOpacityState P → List Str → Str
  entries_text state [] = []
  entries_text state (id ∷ ids) =
      elim (find_value id state) [ some value ↦ entry_text id value | none ↦ [] ]
      ++ entries_text state ids

  unfoldable pub stm_opacity_search_state_key : List Bool → StmOpacityState P → Str
  unfolding text_lt sort_ids flags_text location_ids entry_text entries_text
  stm_opacity_search_state_key placed state =
      codes "placed="
      ++ (flags_text placed
          ++ (codes "|state=" ++ entries_text state (sort_ids (location_ids state))))

abbrev bit : Bool → ℕ
bit b = if b then b'1' else b'0'

bit_injective : (a b : Bool) → bit a ≡ bit b → a ≡ b
bit_injective true true e = refl
bit_injective true false e = absurd (omega arith)
bit_injective false true e = absurd (omega arith)
bit_injective false false e = refl

flags_text-injective :
    (placed other : List Bool) (x y : Str)
    → length placed ≡ length other
    → flags_text placed ++ x ≡ flags_text other ++ y
    → placed ≡ other
unfolding flags_text
flags_text-injective [] [] x y size e = refl
flags_text-injective [] (b ∷ other) x y size e = absurd (omega arith)
flags_text-injective (a ∷ placed) [] x y size e = absurd (omega arith)
flags_text-injective (a ∷ placed) (b ∷ other) x y size e =
    let first : bit a ≡ bit b = cc in
    let rest : flags_text placed ++ x ≡ flags_text other ++ y = cc in
    let same = flags_text-injective placed other x y (omega arith) rest in
    let same_bit = bit_injective a b first in cc

pub append_cancel : (x a b : Str) → x ++ a ≡ x ++ b → a ≡ b
append_cancel [] a b e = e
append_cancel (c ∷ x) a b e = append_cancel x a b cc

-- Equal keys are of the same placed transactions.
pub key-injective :
    {P : Payloads} (placed other : List Bool) (a b : StmOpacityState P)
    → length placed ≡ length other
    → stm_opacity_search_state_key placed a ≡ stm_opacity_search_state_key other b
    → placed ≡ other
unfolding stm_opacity_search_state_key
key-injective placed other a b size e =
    flags_text-injective placed other _ _ size (append_cancel (codes "placed=") _ _ e)

pub append_assoc : (x y z : Str) → (x ++ y) ++ z ≡ x ++ (y ++ z)
append_assoc [] y z = refl
append_assoc (c ∷ x) y z = ap (λ t. c ∷ t) (append_assoc x y z)

-- Equal keys of the same transactions have equal texts of the states.
pub key_entries :
    {P : Payloads} (placed : List Bool) (a b : StmOpacityState P)
    → stm_opacity_search_state_key placed a ≡ stm_opacity_search_state_key placed b
    → entries_text a (sort_ids (location_ids a)) ≡ entries_text b (sort_ids (location_ids b))
unfolding stm_opacity_search_state_key
key_entries placed a b e =
    append_cancel (codes "|state=") _ _
      (append_cancel (flags_text placed) _ _ (append_cancel (codes "placed=") _ _ e))
