-- ===== src/Serialization/Instance.antt =====
-- A JSON library of data, which meets the hypotheses on the library. Its texts mean what is given.
use Prim.Native.Nat.{max}
use dora_foxglove.Prelude.{
  ℕ, suc, map, ◌<◌, ◌≤◌, ◌≡◌, ◌≢◌, refl, ap, Bool, false, List, [], ◌∷◌, Option, none, some, String,
  Result, ok, err, arith, All, Bool-cases, inl, inr,
}
use mathlib.Core.Path.{subst}
use dora_foxglove.Prelude.Texts.{str_eq}
use dora_foxglove.Prelude.Int.{ℤ, pos}
use dora_foxglove.Server.Types.{Exn, std_error}
use dora_foxglove.Server.Payload.{
  JsonLib, JsonWriter, Kind, Failure, thrown, undefined, out_of_fuel,
}
use dora_foxglove.Serialization.Laws.{member, Reads, IsNested}

mutual
  pub data Value : Type 0 where
    null : Value
    boolean : Bool → Value
    integer : ℤ → Value
    unsigned float : ℕ → Value
    text : String → Value
    array : Items → Value
    object : Members → Value

  pub data Items : Type 0 where
    nil : Items
    item : Value → Items → Items

  pub data Members : Type 0 where
    end : Members
    entry : String → Value → Members → Members

abbrev pub items_of : List Value → Items
items_of [] = nil
items_of (v ∷ vs) = item v (items_of vs)

abbrev pub listed : Items → List Value
listed nil = []
listed (item v vs) = v ∷ listed vs

abbrev pub members_of : List (String × Value) → Members
members_of [] = end
members_of ((name, v) ∷ ms) = entry name v (members_of ms)

abbrev pub entries : Members → List (String × Value)
entries end = []
entries (entry name v ms) = (name, v) ∷ entries ms

listed-items_of : (vs : List Value) → listed (items_of vs) ≡ vs
listed-items_of [] = refl
listed-items_of (v ∷ vs) = rw (listed-items_of vs) refl

entries-members_of : (ms : List (String × Value)) → entries (members_of ms) ≡ ms
entries-members_of [] = refl
entries-members_of ((name, v) ∷ ms) = rw (entries-members_of ms) refl

abbrev mutual
  pub nesting : Value → ℕ
  nesting (array vs) = suc (nesting_items vs)
  nesting (object ms) = suc (nesting_members ms)
  nesting _ = 0

  pub nesting_items : Items → ℕ
  nesting_items nil = 0
  nesting_items (item v vs) = max (nesting v) (nesting_items vs)

  pub nesting_members : Members → ℕ
  nesting_members end = 0
  nesting_members (entry name v ms) = max (nesting v) (nesting_members ms)

abbrev wrong_type : Exn
wrong_type = std_error "type_error"

abbrev kind_of : Value → Kind
kind_of null = Kind.null
kind_of (boolean b) = Kind.boolean
kind_of (integer n) = Kind.number_integer
kind_of (unsigned n) = Kind.number_unsigned
kind_of (float d) = Kind.number_float
kind_of (text s) = Kind.string
kind_of (array vs) = Kind.array
kind_of (object ms) = Kind.object

abbrev or_missing : {E : Type 0} → E → Option Value → Result E Value
or_missing e none = err e
or_missing e (some v) = ok v

abbrev at_of : Value → String → Result Exn Value
at_of (object ms) key = or_missing (std_error "out_of_range") (member key (entries ms))
at_of _ key = err wrong_type

abbrev index_of : Value → String → Result Failure Value
index_of (object ms) key = or_missing undefined (member key (entries ms))
index_of _ key = err (thrown wrong_type)

abbrev find_of : Value → String → Option Value
find_of (object ms) key = member key (entries ms)
find_of _ key = none

abbrev elements_of : Value → List Value
elements_of (array vs) = listed vs
elements_of _ = []

abbrev equals_of : Value → String → Bool
equals_of (text s) t = str_eq s t
equals_of _ t = false

abbrev bool_of : Value → Result Exn Bool
bool_of (boolean b) = ok b
bool_of _ = err wrong_type

abbrev integer_of : Value → Result Exn ℤ
integer_of (integer n) = ok n
integer_of (unsigned n) = ok (pos n)
integer_of _ = err wrong_type

abbrev u32_of : Value → Result Exn ℕ
u32_of (unsigned n) = ok n
u32_of _ = err wrong_type

abbrev double_of : Value → Result Exn ℕ
double_of (float d) = ok d
double_of _ = err wrong_type

abbrev string_of : Value → Result Exn String
string_of (text s) = ok s
string_of _ = err wrong_type

abbrev array_of : Value → Result Exn (List Value)
array_of (array vs) = ok (listed vs)
array_of _ = err wrong_type

abbrev strings_in : Items → Result Exn (List String)
strings_in nil = ok []
strings_in (item (text s) vs) = elim (strings_in vs) [ ok ss ↦ ok (s ∷ ss) | err e ↦ err e ]
strings_in (item _ vs) = err wrong_type

abbrev strings_of : Value → Result Exn (List String)
strings_of (array vs) = strings_in vs
strings_of _ = err wrong_type

abbrev object_of : Value → Result Exn (List (String × Value))
object_of (object ms) = ok (entries ms)
object_of _ = err wrong_type

abbrev pub data_json : (List ℕ → Result Exn Value) → JsonLib
data_json meaning = record {
  Json = Value;
  parse = meaning;
  at = at_of;
  index = index_of;
  find = find_of;
  elements = elements_of;
  kind = kind_of;
  equals = equals_of;
  depth = nesting;
  get_bool = bool_of;
  get_i64 = integer_of;
  get_u32 = u32_of;
  get_double = double_of;
  get_string = string_of;
  get_strings = strings_of;
  get_array = array_of;
  get_object = object_of;
}

abbrev pub data_writer : JsonWriter Value
data_writer = record {
  empty = null;
  boolean = boolean;
  integer = integer;
  unsigned = unsigned;
  float = float;
  text = text;
  array = λ vs. array (items_of vs);
  object = λ ms. object (members_of ms);
  dump = λ v. [];
}

strings_of-texts : (ss : List String) → strings_in (items_of (map text ss)) ≡ ok ss
strings_of-texts [] = refl
strings_of-texts (s ∷ ss) = rw (strings_of-texts ss) refl

pub data_json-Reads : (meaning : List ℕ → Result Exn Value) → Reads (data_json meaning) data_writer
data_json-Reads meaning = record {
  at_object = λ ms key v e. rw (entries-members_of ms, e) refl;
  index_object = λ ms key v e. rw (entries-members_of ms, e) refl;
  index_missing = λ ms key e. rw (entries-members_of ms, e) refl;
  find_object = λ ms key. rw (entries-members_of ms) refl;
  get_object = λ ms sorted. ap ok (entries-members_of ms);
  get_array = λ vs. ap ok (listed-items_of vs);
  elements_array = λ vs. listed-items_of vs;
  elements_empty = refl;
  get_strings_array = strings_of-texts;
  get_string = λ s. refl;
  get_bool = λ b. refl;
  get_integer = λ n. refl;
  get_double = λ d. refl;
  get_unsigned = λ n h. refl;
  equals_text = λ s t. refl;
  kind_empty = refl;
  kind_boolean = λ b. refl;
  kind_integer = λ n. refl;
  kind_float = λ d. refl;
  kind_text = λ s. refl;
  kind_array = λ vs. refl;
  kind_object = λ ms. refl;
}

-- What is nested below the height of a list is nested below any greater bound.
items_below :
    (vs : Items) (bound : ℕ) → nesting_items vs < bound → All (λ v. nesting v < bound) (listed vs)
items_below nil bound h = tt
items_below (item v vs) bound h = (omega arith, items_below vs bound (omega arith))

members_below :
    (ms : Members) (bound : ℕ)
    → nesting_members ms < bound
    → All (λ m. nesting m.1 < bound) (entries ms)
members_below end bound h = tt
members_below (entry name v ms) bound h = (omega arith, members_below ms bound (omega arith))

array_deeper :
    (j : Value) (vs : List Value) → array_of j ≡ ok vs → All (λ v. nesting v < nesting j) vs
array_deeper (array is) vs e =
    let same : listed is ≡ vs = cc e in
    subst (All (λ v. nesting v < suc (nesting_items is))) same
      (items_below is (suc (nesting_items is)) (omega arith))
array_deeper null vs e = cc e
array_deeper (boolean b) vs e = cc e
array_deeper (integer n) vs e = cc e
array_deeper (unsigned n) vs e = cc e
array_deeper (float d) vs e = cc e
array_deeper (text s) vs e = cc e
array_deeper (object ms) vs e = cc e

object_deeper :
    (j : Value) (members : List (String × Value))
    → object_of j ≡ ok members
    → All (λ m. nesting m.1 < nesting j) members
object_deeper (object ms) members e =
    let same : entries ms ≡ members = cc e in
    subst (All (λ m. nesting m.1 < suc (nesting_members ms))) same
      (members_below ms (suc (nesting_members ms)) (omega arith))
object_deeper null members e = cc e
object_deeper (boolean b) members e = cc e
object_deeper (integer n) members e = cc e
object_deeper (unsigned n) members e = cc e
object_deeper (float d) members e = cc e
object_deeper (text s) members e = cc e
object_deeper (array vs) members e = cc e

found_below :
    (ms : Members) (key : String) (v : Value)
    → member key (entries ms) ≡ some v
    → nesting v ≤ nesting_members ms
found_below end key v e = cc e
found_below (entry name w ms) key v e = elim (Bool-cases (str_eq name key)) [
  | inl same ↦ let w≡v : w ≡ v = cc (rw same at e) in rw (← w≡v) (omega arith)
  | inr other ↦ omega (arith, found_below ms key v (rw other at e))
]

index_ends : (j : Value) (key : String) → index_of j key ≢ err out_of_fuel
index_ends (object ms) key = missing_ends (member key (entries ms))
  where
    missing_ends : (o : Option Value) → or_missing undefined o ≢ err out_of_fuel
    missing_ends none = λ e. cc e
    missing_ends (some v) = λ e. cc e
index_ends null key = λ e. cc e
index_ends (boolean b) key = λ e. cc e
index_ends (integer n) key = λ e. cc e
index_ends (unsigned n) key = λ e. cc e
index_ends (float d) key = λ e. cc e
index_ends (text s) key = λ e. cc e
index_ends (array vs) key = λ e. cc e

find_deeper : (j v : Value) (key : String) → find_of j key ≡ some v → nesting v ≤ nesting j
find_deeper (object ms) v key e = omega (arith, found_below ms key v e)
find_deeper null v key e = cc e
find_deeper (boolean b) v key e = cc e
find_deeper (integer n) v key e = cc e
find_deeper (unsigned n) v key e = cc e
find_deeper (float d) v key e = cc e
find_deeper (text s) v key e = cc e
find_deeper (array vs) v key e = cc e

pub data_json-IsNested : (meaning : List ℕ → Result Exn Value) → IsNested (data_json meaning)
data_json-IsNested meaning = record {
  array_deeper = array_deeper;
  object_deeper = object_deeper;
  index_ends = index_ends;
  find_deeper = find_deeper;
}
