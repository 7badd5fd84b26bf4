-- ===== src/Serialization/Lists.antt =====
-- A list of parameters is read back from its JSON, with the fuel that the JSON's depth gives.
use dora_foxglove.Prelude.{ℕ, suc, ◌<◌, ◌≤◌, ◌≡◌, refl, List, [], ◌∷◌, map, ok, arith, All}
use dora_foxglove.Server.Types.{
  Parameter, ParameterValue, not_set, bool, integer, double, string, byte_array, array, struct,
  ParameterValues, no_values, value, ParameterFields, no_fields, field,
}
use dora_foxglove.Server.Payload.{JsonLib, JsonWriter}
use dora_foxglove.Serialization.{each_parameter, get_parameters}
use dora_foxglove.Serialization.Laws.{Reads, IsNested}
use dora_foxglove.Serialization.Parameters.{
  height, height_values, height_fields, IsOrdered, AllOrdered, FieldsOrdered, HasBytes, kept,
  fields_to_json-IsSorted, parameter_from_json-parameter_to_json,
}
use dora_foxglove.Serialization.Writer.{
  value_to_json, values_to_json, fields_to_json, parameter_members, parameter_to_json,
}

-- A parameter as it is read from its JSON.
abbrev pub received : Parameter → Parameter
received p = record { name = p.name; value = kept p.value }

abbrev pub IsReadable : Parameter → Type 0
IsReadable p = IsOrdered p.value × HasBytes p.value

module _ (J : JsonLib) (W : JsonWriter J.Json) (L : Reads J W) (N : IsNested J) where
  mutual
    unfolding height value_to_json IsOrdered

    height-le-depth : (p : ParameterValue) → IsOrdered p → height p ≤ J.depth (value_to_json W p)
    height-le-depth not_set o = omega arith
    height-le-depth (bool b) o = omega arith
    height-le-depth (integer n) o = omega arith
    height-le-depth (double d) o = omega arith
    height-le-depth (string s) o = omega arith
    height-le-depth (byte_array bytes) o = omega arith
    height-le-depth (array vs) o =
        height_values-le vs _ o (N.array_deeper _ _ (L.get_array (values_to_json W vs)))
    height-le-depth (struct fs) o = height_fields-le fs _ o (
        N.object_deeper _ _
          (L.get_object (fields_to_json W fs) (fields_to_json-IsSorted J W L fs o)))

    height_values-le :
        (vs : ParameterValues) (bound : ℕ)
        → AllOrdered vs
        → All (λ v. J.depth v < bound) (values_to_json W vs)
        → height_values vs ≤ bound
    height_values-le no_values bound o h = omega arith
    height_values-le (value v vs) bound o h =
        omega (arith, height-le-depth v o.0, height_values-le vs bound o.1 h.1)

    height_fields-le :
        (fs : ParameterFields) (bound : ℕ)
        → FieldsOrdered fs
        → All (λ m. J.depth m.1 < bound) (fields_to_json W fs)
        → height_fields fs ≤ bound
    height_fields-le no_fields bound o h = omega arith
    height_fields-le (field name v fs) bound o h =
        omega (arith, height-le-depth v o.1, height_fields-le fs bound o.2 h.1)

  parameter_height :
      (p : Parameter) → IsOrdered p.value → height p.value ≤ J.depth (parameter_to_json W p)
  unfolding parameter_to_json
  parameter_height p o =
      let outer =
        N.find_deeper _ (value_to_json W p.value) "value"
          (L.find_object (parameter_members W p) "value") in
      omega (arith, height-le-depth p.value o, outer)

  each_parameter-map :
      (ps : List Parameter)
      → All IsReadable ps
      → each_parameter J (map (parameter_to_json W) ps) ≡ ok (map received ps)
  unfolding each_parameter
  each_parameter-map [] h = refl
  each_parameter-map (p ∷ ps) h =
      rw
        (
          parameter_from_json-parameter_to_json J W L p (suc (J.depth (parameter_to_json W p)))
              (omega (arith, parameter_height p h.0.0)) h.0.0 h.0.1,
          each_parameter-map ps h.1,
        )
        refl

  -- A list of parameters is read back from the JSON array of their JSON, each parameter as it was
  -- except that a byte array inside an array or a struct comes back as its base64 text. The bytes
  -- of a parameter's byte array are below 256 and the fields of each struct are listed in the order
  -- of their names.
  pub get_parameters-array :
      (ps : List Parameter)
      → All IsReadable ps
      → get_parameters J (W.array (map (parameter_to_json W) ps)) ≡ ok (map received ps)
  unfolding get_parameters
  get_parameters-array ps h = rw (L.get_array _, each_parameter-map ps h) refl
