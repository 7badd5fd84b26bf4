-- ===== src/Serialization/Defined.antt =====
-- How the reading of parameters ends: the fuel is enough for every value, and undefined behaviour
-- is met only where a parameter has no name.
use dora_foxglove.Prelude.{
  ℕ, zero, suc, ◌<◌, ◌≤◌, ◌≡◌, refl, ◌≢◌, Bool, true, false, List, [], ◌∷◌, Option, none, some,
  String, Result, ok, err, ◌>>=◌, arith, All,
}
use dora_foxglove.Prelude.Texts.{bytes_of}
use dora_foxglove.Base64
use dora_foxglove.Base64.{decode, invalid_length, invalid_padding, invalid_character, past_end}
use dora_foxglove.Base64.Decoding.{Ends, decode-Ends}
use dora_foxglove.Server.Types.{
  Exn, ParameterValue, not_set, bool, integer, double, string, byte_array, array, struct,
}
use dora_foxglove.Server.Payload.{JsonLib, Kind, Failure, thrown, undefined, out_of_fuel}
use dora_foxglove.Serialization.{
  decoded, throws, as_text, text_at, values_from_json, fields_from_json, value_of, value_from_json,
  value_member, is_byte_array, revived, parameter_from_json, each_parameter, get_parameters,
}
use dora_foxglove.Serialization.Laws.{IsNested}

-- A reading that does not end in the failure.
abbrev pub Avoids : {A : Type 0} → Failure → Result Failure A → Type 0
Avoids f r = r ≢ err f

-- What no exception is.
abbrev IsSilent : Failure → Type 0
IsSilent (thrown e) = ⊥
IsSilent _ = Unit {0}

module _ {A B : Type 0} (f : Failure) where
  Avoids->>= :
      (m : Result Failure A) (k : A → Result Failure B)
      → Avoids f m
      → ((a : A) → m ≡ ok a → Avoids f (k a))
      → Avoids f (m >>= k)
  Avoids->>= (ok a) k h g = g a refl
  Avoids->>= (err e) k h g = λ e'. h (cc e')

module _ {A : Type 0} (f : Failure) (silent : IsSilent f) where
  Avoids-throws : (r : Result Exn A) → Avoids f (throws r)
  Avoids-throws (ok a) = λ e. cc e
  Avoids-throws (err x) = silent_throws x f silent
    where
      silent_throws : (x : Exn) (g : Failure) → IsSilent g → Avoids {A = A} g (err (thrown x))
      silent_throws x (thrown y) s = elim s [ ]
      silent_throws x undefined s = λ e. cc e
      silent_throws x out_of_fuel s = λ e. cc e

  Avoids-ok : (a : A) → Avoids f (ok a)
  Avoids-ok a = λ e. cc e

throws-ok : {A : Type 0} (r : Result Exn A) {a : A} → throws r ≡ ok a → r ≡ ok a
throws-ok (ok a) e = cc e
throws-ok (err x) e = cc e

decoded-Avoids :
    (n : ℕ) (f : Failure) (silent : IsSilent f) (r : Result Base64.Error (List ℕ))
    → Ends n r
    → Avoids f (decoded r)
decoded-Avoids n f silent (ok bytes) h = λ e. cc e
decoded-Avoids n f silent (err invalid_length) h = Avoids-throws f silent (err _)
decoded-Avoids n f silent (err invalid_padding) h = Avoids-throws f silent (err _)
decoded-Avoids n f silent (err invalid_character) h = Avoids-throws f silent (err _)
decoded-Avoids n f silent (err past_end) h = elim h [ ]

module _ (J : JsonLib) (f : Failure) (silent : IsSilent f) where
  values_from_json-Avoids :
      (from : J.Json → Result Failure ParameterValue) (bound : ℕ)
      → ((j : J.Json) → J.depth j < bound → Avoids f (from j))
      → (js : List J.Json) → All (λ j. J.depth j < bound) js
      → Avoids f (values_from_json J from js)
  unfolding values_from_json
  values_from_json-Avoids from bound step [] h = λ e. cc e
  values_from_json-Avoids from bound step (j ∷ js) h =
      Avoids->>= f _ _ (step j h.0)
        λ v e. Avoids->>= f _ _ (values_from_json-Avoids from bound step js h.1) λ vs e' e''. cc e''

  fields_from_json-Avoids :
      (from : J.Json → Result Failure ParameterValue) (bound : ℕ)
      → ((j : J.Json) → J.depth j < bound → Avoids f (from j))
      → (ms : List (String × J.Json)) → All (λ m. J.depth m.1 < bound) ms
      → Avoids f (fields_from_json J from ms)
  unfolding fields_from_json
  fields_from_json-Avoids from bound step [] h = λ e. cc e
  fields_from_json-Avoids from bound step ((name, j) ∷ ms) h =
      Avoids->>= f _ _ (step j h.0)
        λ v e. Avoids->>= f _ _ (fields_from_json-Avoids from bound step ms h.1) λ vs e' e''. cc e''

  module _ (N : IsNested J) where
    value_of-Avoids :
        (from : J.Json → Result Failure ParameterValue) (j : J.Json) (k : Kind)
        → ((v : J.Json) → J.depth v < J.depth j → Avoids f (from v))
        → Avoids f (value_of J from j k)
    unfolding value_of
    value_of-Avoids from j Kind.string step =
        Avoids->>= f _ _ (Avoids-throws f silent (J.get_string j)) λ a e e'. cc e'
    value_of-Avoids from j Kind.boolean step =
        Avoids->>= f _ _ (Avoids-throws f silent (J.get_bool j)) λ a e e'. cc e'
    value_of-Avoids from j Kind.number_integer step =
        Avoids->>= f _ _ (Avoids-throws f silent (J.get_i64 j)) λ a e e'. cc e'
    value_of-Avoids from j Kind.number_unsigned step =
        Avoids->>= f _ _ (Avoids-throws f silent (J.get_i64 j)) λ a e e'. cc e'
    value_of-Avoids from j Kind.number_float step =
        Avoids->>= f _ _ (Avoids-throws f silent (J.get_double j)) λ a e e'. cc e'
    value_of-Avoids from j Kind.object step =
        Avoids->>= f _ _ (Avoids-throws f silent (J.get_object j)) λ ms e.
          Avoids->>= f _ _
            (fields_from_json-Avoids from (J.depth j) step ms
              (N.object_deeper j ms (throws-ok (J.get_object j) e)))
            λ fs e' e''. cc e''
    value_of-Avoids from j Kind.array step =
        Avoids->>= f _ _ (Avoids-throws f silent (J.get_array j)) λ js e.
          Avoids->>= f _ _
            (values_from_json-Avoids from (J.depth j) step js
              (N.array_deeper j js (throws-ok (J.get_array j) e)))
            λ vs e' e''. cc e''
    value_of-Avoids from j Kind.null step = λ e. cc e
    value_of-Avoids from j Kind.binary step = λ e. cc e
    value_of-Avoids from j Kind.discarded step = λ e. cc e

    value_from_json-Avoids :
        (fuel : ℕ) (j : J.Json) → J.depth j < fuel → Avoids f (value_from_json J fuel j)
    unfolding value_from_json
    value_from_json-Avoids zero j h = absurd (omega arith)
    value_from_json-Avoids (suc fuel) j h =
        value_of-Avoids (value_from_json J fuel) j (J.kind j)
          λ v h'. value_from_json-Avoids fuel v (omega arith)

    revived-Avoids : (b : Bool) (v : ParameterValue) → Avoids f (revived J b v)
    revived-Avoids false v = λ e. cc e
    revived-Avoids true (string s) =
        Avoids->>= f _ _ (decoded-Avoids _ f silent _ (decode-Ends (bytes_of s)))
          λ bytes e e'. cc e'
    revived-Avoids true not_set = λ e. cc e
    revived-Avoids true (bool x) = λ e. cc e
    revived-Avoids true (integer n) = λ e. cc e
    revived-Avoids true (double d) = λ e. cc e
    revived-Avoids true (byte_array bytes) = λ e. cc e
    revived-Avoids true (array vs) = λ e. cc e
    revived-Avoids true (struct fs) = λ e. cc e

    value_member-Avoids :
        (j : J.Json) (name : String) (o : Option J.Json)
        → ((v : J.Json) → o ≡ some v → J.depth v ≤ J.depth j)
        → Avoids f (value_member J (suc (J.depth j)) j name o)
    unfolding value_member
    value_member-Avoids j name none h = λ e. cc e
    value_member-Avoids j name (some v) h =
        Avoids->>= f _ _ (value_from_json-Avoids (suc (J.depth j)) v (omega (arith, h v refl)))
          λ read e.
            Avoids->>= f (revived J (is_byte_array J (J.find j "type")) read) _
              (revived-Avoids _ read) λ w e' e''. cc e''

    -- A parameter that has a name.
    parameter_from_json-Avoids :
        (j : J.Json)
        → Avoids f (J.index j "name")
        → Avoids f (parameter_from_json J (suc (J.depth j)) j)
    unfolding parameter_from_json text_at as_text
    parameter_from_json-Avoids j named =
        Avoids->>= f _ _ (Avoids->>= f _ _ named λ v e. Avoids-throws f silent (J.get_string v))
          λ name e. value_member-Avoids j name (J.find j "value") λ v. N.find_deeper j v "value"

    each_parameter-Avoids :
        (js : List J.Json)
        → All (λ j. Avoids f (J.index j "name")) js
        → Avoids f (each_parameter J js)
    unfolding each_parameter
    each_parameter-Avoids [] h = λ e. cc e
    each_parameter-Avoids (j ∷ js) h =
        Avoids->>= f _ _ (parameter_from_json-Avoids j h.0)
          λ p e. Avoids->>= f _ _ (each_parameter-Avoids js h.1) λ ps e' e''. cc e''

module _ (J : JsonLib) (N : IsNested J) where
  -- The reading of parameters from any JSON value ends: the fuel that it is given, from the depth of
  -- the value, never runs out.
  pub get_parameters_ends : (j : J.Json) → get_parameters J j ≢ err out_of_fuel
  unfolding get_parameters
  get_parameters_ends j =
      Avoids->>= out_of_fuel _ _ (Avoids-throws out_of_fuel tt (J.get_array j))
        λ js e. each_parameter-Avoids J out_of_fuel tt N js (every js)
    where
      every : (js : List J.Json) → All (λ i. Avoids out_of_fuel (J.index i "name")) js
      every [] = tt
      every (i ∷ js) = (N.index_ends i "name", every js)

  -- The reading of the elements of an array as parameters meets no undefined behaviour if the
  -- lookup of the name meets none in any element: not in their values, however they are nested,
  -- and not in the decoding of base64.
  each_parameter_defined :
      (js : List J.Json)
      → All (λ i. J.index i "name" ≢ err undefined) js
      → each_parameter J js ≢ err undefined
  each_parameter_defined js h = each_parameter-Avoids J undefined tt N js h
