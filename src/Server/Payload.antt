-- ===== src/Server/Payload.antt =====
-- What the program uses of nlohmann::json: the text of a value, the value's kind, its members and
-- elements, and these as C++ types. All of it is the library's, and a parameter here.
use dora_foxglove.Prelude.{ℕ, Bool, List, Option, String, Result}
use dora_foxglove.Prelude.Int.{ℤ}
use dora_foxglove.Server.Types.{Exn}

-- nlohmann::detail::value_t.
pub data Kind : Type 0 where
  null boolean number_integer number_unsigned number_float : Kind
  string array object binary discarded : Kind

-- How a reading ends without a value: by an exception, or in undefined behaviour. `out_of_fuel` is
-- no behaviour of the program: the bound of the model was too small.
pub data Failure : Type 0 where
  thrown : Exn → Failure
  undefined : Failure
  out_of_fuel : Failure

-- `at` throws on a missing key and on what is no object, `index` is operator[] on a const value,
-- `find` is none where it gives end(), `elements` is what a range-based for passes over, and the
-- `get` functions throw on a value of another kind. `equals` is == with a text, and `depth` how
-- deep a value is nested.
pub record JsonLib : Type 1 where
  pub Json : Type 0
  pub parse : List ℕ → Result Exn Json
  pub at : Json → String → Result Exn Json
  pub index : Json → String → Result Failure Json
  pub find : Json → String → Option Json
  pub elements : Json → List Json
  pub kind : Json → Kind
  pub equals : Json → String → Bool
  pub depth : Json → ℕ
  pub get_bool : Json → Result Exn Bool
  pub get_i64 : Json → Result Exn ℤ
  pub get_u32 : Json → Result Exn ℕ
  pub get_double : Json → Result Exn ℕ
  pub get_string : Json → Result Exn String
  pub get_strings : Json → Result Exn (List String)
  pub get_array : Json → Result Exn (List Json)
  pub get_object : Json → Result Exn (List (String × Json))

-- The values that the program builds, and their text. `object` is an initializer list of pairs.
pub record JsonWriter (Json : Type 0) : Type 0 where
  pub empty : Json
  pub boolean : Bool → Json
  pub integer : ℤ → Json
  pub unsigned : ℕ → Json
  pub float : ℕ → Json
  pub text : String → Json
  pub array : List Json → Json
  pub object : List (String × Json) → Json
  pub dump : Json → List ℕ
