-- ===== src/Prelude/Texts.antt =====
-- Texts that the program only compares: names of topics, parameters, capabilities, operations.
use Prim.Native.Char.{Char, char, code, IsScalar}
use Prim.Native.Nat.{ℕ, ◌+◌, ◌/◌, ◌%◌, ◌<◌}
use mathlib.Core.Path.{◌≡◌, refl}
use native.Mathlib.Omega.{arith}
use Prim.Native.String.{String}
use mathlib.Core.Bool.{Bool, false, not, ◌||◌}
use dora_foxglove.Prelude.Tests.{ltb, if◌then◌else◌}
use dora_foxglove.Prelude.Lists.{All}
use mathlib.Core.List.{List, [], ◌∷◌, ◌++◌}
use text.Mathlib.Text.{◌==◌}
pub use text.Mathlib.Text.{◌==◌ as str_eq}
pub use text.Mathlib.TextEquality.{eq_iff}
pub use text.Mathlib.TextPositions.{eq_refl}

-- The code points of a text: its bytes, if it is ASCII.
abbrev pub codes : String → List ℕ
codes String.[] = []
codes (String.◌∷◌ c s) = code c ∷ codes s

-- The bytes of a std::string that holds the text, in UTF-8.
abbrev utf8_of : ℕ → List ℕ
utf8_of c =
    if ltb c 0x80
    then c ∷ []
    else if ltb c 0x800
    then (0xc0 + c / 64) ∷ (0x80 + c % 64) ∷ []
    else if ltb c 0x10000
    then (0xe0 + c / 4096) ∷ (0x80 + c / 64 % 64) ∷ (0x80 + c % 64) ∷ []
    else (0xf0 + c / 262144) ∷ (0x80 + c / 4096 % 64) ∷ (0x80 + c / 64 % 64) ∷ (0x80 + c % 64) ∷ []

unfoldable pub bytes_of : String → List ℕ
bytes_of String.[] = []
bytes_of (String.◌∷◌ c s) = utf8_of (code c) ++ bytes_of s

-- The text of bytes that are ASCII; the others are taken modulo 128.
pub ascii-IsScalar : (n : ℕ) → IsScalar (n % 128)
ascii-IsScalar n = ground arith

ascii : ℕ → Char
ascii n = char (n % 128) (ascii-IsScalar n)

unfoldable pub text_of : List ℕ → String
unfolding ascii
text_of [] = String.[]
text_of (b ∷ bs) = String.◌∷◌ (ascii b) (text_of bs)

abbrev pub IsAscii : ℕ → Type 0
IsAscii b = b < 128

pub bytes_of-text_of : (bs : List ℕ) → All IsAscii bs → bytes_of (text_of bs) ≡ bs
unfolding bytes_of text_of ascii
bytes_of-text_of [] h = refl
bytes_of-text_of (b ∷ bs) h = rw (bytes_of-text_of bs h.1) (ground arith)

-- `find(...) != end()` on a sequence or a set of texts.
unfoldable pub contains : List String → String → Bool
contains [] s = false
contains (t ∷ ts) s = t == s || contains ts s

-- `std::copy_if` with a test.
unfoldable pub filter_by {ℓ} : {A : Type ℓ} → (A → Bool) → List A → List A
filter_by p [] = []
filter_by p (x ∷ xs) = let rest = filter_by p xs in if p x then x ∷ rest else rest

-- A set of texts as a list with no text twice: insertion, removal, and reading one from a sequence.
unfoldable pub insert : String → List String → List String
unfolding contains
insert s set = if contains set s then set else s ∷ set

unfoldable pub insert_all : List String → List String → List String
unfolding insert
insert_all [] set = set
insert_all (s ∷ ss) set = insert s (insert_all ss set)

unfoldable pub to_set : List String → List String
unfolding insert_all
to_set ss = insert_all ss []

unfoldable pub remove_all : List String → List String → List String
unfolding filter_by contains
remove_all ss set = filter_by (λ t. not (contains ss t)) set
