-- ===== src/Utils/Letters.antt =====
-- Concrete stand-ins for base64 and the cipher of node, to run src/common/utils/encryption.util.ts on.
use Prim.Native.Char.{Char, char, code}
use text.Mathlib.TextBridge.{of_list, to_list, to_list-of_list}
use hr_saas_platform.Shared.{
  ℕ, zero, suc, ◌==◌, if◌then◌else◌, ◌≡◌, refl, ap, ◌∙◌, Option, none, some, String, List, [], ◌∷◌,
}

-- A coding of bytes in letters, for base64.
abbrev pub bumped : List ℕ → List ℕ
bumped [] = []
bumped (n ∷ bytes) = suc n ∷ bytes

abbrev pub from_letters : List Char → List ℕ
from_letters [] = []
from_letters (c ∷ letters) =
    let rest = from_letters letters in if code c == 97 then bumped rest else 0 ∷ rest

abbrev pub letters_of : ℕ → List Char → List Char
letters_of zero letters = char 98 tt ∷ letters
letters_of (suc n) letters = char 97 tt ∷ letters_of n letters

abbrev pub to_letters : List ℕ → List Char
to_letters [] = []
to_letters (b ∷ bytes) = letters_of b (to_letters bytes)

from_letters-letters_of :
    (n : ℕ) (letters : List Char) → from_letters (letters_of n letters) ≡ n ∷ from_letters letters
from_letters-letters_of zero letters = refl
from_letters-letters_of (suc n) letters = ap bumped (from_letters-letters_of n letters)

from_letters-to_letters : (bytes : List ℕ) → from_letters (to_letters bytes) ≡ bytes
from_letters-to_letters [] = refl
from_letters-to_letters (b ∷ bytes) =
    from_letters-letters_of b (to_letters bytes) ∙ ap (λ l. b ∷ l) (from_letters-to_letters bytes)

abbrev pub written : List ℕ → String
written bytes = of_list (to_letters bytes)

abbrev pub read : String → List ℕ
read s = from_letters (to_list s)

pub read-written : (bytes : List ℕ) → read (written bytes) ≡ bytes
read-written bytes =
    ap from_letters (to_list-of_list (to_letters bytes)) ∙ from_letters-to_letters bytes

pub read-empty : read "" ≡ []
read-empty = ap from_letters (to_list-of_list [])

abbrev pub twelve : List ℕ
twelve = 1 ∷ 2 ∷ 3 ∷ 4 ∷ 5 ∷ 6 ∷ 7 ∷ 8 ∷ 9 ∷ 10 ∷ 11 ∷ 12 ∷ []

abbrev pub sixteen : List ℕ
sixteen = 0 ∷ 0 ∷ 0 ∷ 0 ∷ twelve

-- A cipher for the one text of the test, whose ciphertext is the key.
abbrev pub cipher : ℕ → List ℕ → String → List ℕ × List ℕ
cipher key iv text = (key ∷ [], sixteen)

abbrev pub decipher : ℕ → List ℕ → List ℕ → List ℕ → Option String
decipher key iv tag [] = none
decipher key iv tag (c ∷ bytes) = if c == key then some "75000.00" else none
