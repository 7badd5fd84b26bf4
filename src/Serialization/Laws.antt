-- ===== src/Serialization/Laws.antt =====
-- What the documentation of nlohmann::json says of the values that the program builds: how they are
-- read again, and how deep they are nested. These are hypotheses of the theorems on the JSON data.
use dora_foxglove.Prelude.{
  ℕ, ◌≤◌, ◌<◌, ◌^◌, ◌≡◌, ◌≢◌, Bool, List, [], ◌∷◌, Option, none, some, String, ok, err, All, map,
  if◌then◌else◌,
}
use Prim.Native.Nat.{Ordering}
use Prim.Native.String.{compare}
use dora_foxglove.Prelude.Texts.{str_eq}
use dora_foxglove.Prelude.Int.{ℤ}
use dora_foxglove.Server.Payload.{JsonLib, JsonWriter, Kind, undefined, out_of_fuel}

-- The value of a member.
abbrev pub member : {A : Type 0} → String → List (String × A) → Option A
member key [] = none
member key ((name, a) ∷ members) = if str_eq name key then some a else member key members

-- An object is a std::map: its members are in the order of their names.
abbrev pub IsLess : Ordering → Type 0
IsLess Ordering.lt = Unit
IsLess _ = ⊥

abbrev pub Below : {A : Type 0} → String → List (String × A) → Type 0
Below key [] = Unit {0}
Below key ((name, a) ∷ members) = IsLess (compare key name)

abbrev pub IsSorted : {A : Type 0} → List (String × A) → Type 0
IsSorted [] = Unit {0}
IsSorted ((name, a) ∷ members) = Below name members × IsSorted members

-- How a value that was built is read.
pub record Reads (J : JsonLib) (W : JsonWriter J.Json) : Type 0 where
  pub at_object :
      (members : List (String × J.Json)) (key : String) (v : J.Json)
      → member key members ≡ some v
      → J.at (W.object members) key ≡ ok v
  pub index_object :
      (members : List (String × J.Json)) (key : String) (v : J.Json)
      → member key members ≡ some v
      → J.index (W.object members) key ≡ ok v
  pub index_missing :
      (members : List (String × J.Json)) (key : String)
      → member key members ≡ none
      → J.index (W.object members) key ≡ err undefined
  pub find_object :
      (members : List (String × J.Json)) (key : String)
      → J.find (W.object members) key ≡ member key members
  pub get_object :
      (members : List (String × J.Json))
      → IsSorted members
      → J.get_object (W.object members) ≡ ok members
  pub get_array : (values : List J.Json) → J.get_array (W.array values) ≡ ok values
  pub elements_array : (values : List J.Json) → J.elements (W.array values) ≡ values
  pub elements_empty : J.elements W.empty ≡ []
  pub get_strings_array : (ss : List String) → J.get_strings (W.array (map W.text ss)) ≡ ok ss
  pub get_string : (s : String) → J.get_string (W.text s) ≡ ok s
  pub get_bool : (b : Bool) → J.get_bool (W.boolean b) ≡ ok b
  pub get_integer : (n : ℤ) → J.get_i64 (W.integer n) ≡ ok n
  pub get_double : (d : ℕ) → J.get_double (W.float d) ≡ ok d
  pub get_unsigned : (n : ℕ) → n < 2 ^ 32 → J.get_u32 (W.unsigned n) ≡ ok n
  pub equals_text : (s t : String) → J.equals (W.text s) t ≡ str_eq s t
  pub kind_empty : J.kind W.empty ≡ Kind.null
  pub kind_boolean : (b : Bool) → J.kind (W.boolean b) ≡ Kind.boolean
  pub kind_integer : (n : ℤ) → J.kind (W.integer n) ≡ Kind.number_integer
  pub kind_float : (d : ℕ) → J.kind (W.float d) ≡ Kind.number_float
  pub kind_text : (s : String) → J.kind (W.text s) ≡ Kind.string
  pub kind_array : (values : List J.Json) → J.kind (W.array values) ≡ Kind.array
  pub kind_object : (members : List (String × J.Json)) → J.kind (W.object members) ≡ Kind.object

-- A value is nested less deeply than the array or the object that it is read from, and
-- the library knows no fuel.
pub record IsNested (J : JsonLib) : Type 0 where
  pub array_deeper :
      (j : J.Json) (values : List J.Json)
      → J.get_array j ≡ ok values
      → All (λ v. J.depth v < J.depth j) values
  pub object_deeper :
      (j : J.Json) (members : List (String × J.Json))
      → J.get_object j ≡ ok members
      → All (λ m. J.depth m.1 < J.depth j) members
  pub index_ends : (j : J.Json) (key : String) → J.index j key ≢ err out_of_fuel
  pub find_deeper : (j v : J.Json) (key : String) → J.find j key ≡ some v → J.depth v ≤ J.depth j
