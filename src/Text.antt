-- ===== src/Text.antt =====
-- Text as the list of its code points, with the operations of Python's `str` that the program
-- calls: `strip`, `lower`, `==`, `<`, `isspace`, `isdigit`, `isalpha` and the decimal print of a
-- number. `lower`, `is_alpha` and `is_python_digit` are those of Python on ASCII and Latin-1.
pub mod Strip
use Prim.Native.Char.{code}
use core_desappsii.Base.{
  ℕ, zero, suc, ◌+◌, ◌/◌, ◌%◌, String, ◌≡◌, refl, Bool, true, false, ◌&&◌, ◌||◌, not, List, [], ◌∷◌,
  ◌++◌, arith, leb, ltb, ◌==◌, if◌then◌else◌, is_empty, Option, none, some,
}

abbrev pub Text : Type 0
Text = List ℕ

-- A literal of the source.
unfoldable pub lit : String → Text
lit String.[] = []
lit (String.◌∷◌ c s) = code c ∷ lit s

unfoldable pub text_eq : Text → Text → Bool
text_eq [] [] = true
text_eq [] (y ∷ ys) = false
text_eq (x ∷ xs) [] = false
text_eq (x ∷ xs) (y ∷ ys) = x == y && text_eq xs ys

-- `==` of two nullable texts.
abbrev pub option_text_eq : Option Text → Option Text → Bool
option_text_eq none none = true
option_text_eq none (some b) = false
option_text_eq (some a) none = false
option_text_eq (some a) (some b) = text_eq a b

-- `<=` on texts, by code points.
unfoldable pub text_le : Text → Text → Bool
text_le [] ys = true
text_le (x ∷ xs) [] = false
text_le (x ∷ xs) (y ∷ ys) = ltb x y || (x == y && text_le xs ys)

-- The code points that `str.isspace` accepts.
unfoldable pub is_space : ℕ → Bool
is_space c =
    (leb 9 c && leb c 13)
    || (leb 28 c && leb c 32)
    || c == 0x85
    || c == 0xa0
    || c == 0x1680
    || (leb 0x2000 c && leb c 0x200a)
    || c == 0x2028
    || c == 0x2029
    || c == 0x202f
    || c == 0x205f
    || c == 0x3000

unfoldable pub lstrip : Text → Text
lstrip [] = []
lstrip (c ∷ cs) = if is_space c then lstrip cs else c ∷ cs

unfoldable pub rstrip : Text → Text
rstrip [] = []
rstrip (c ∷ cs) = let rest = rstrip cs in if is_space c && is_empty rest then [] else c ∷ rest

unfoldable pub strip : Text → Text
unfolding lstrip rstrip is_space
strip s = rstrip (lstrip s)

unfoldable pub lower_code : ℕ → ℕ
lower_code c =
    if (leb 65 c && leb c 90) || (leb 0xc0 c && leb c 0xde && not (c == 0xd7)) then c + 32 else c

unfoldable pub lower : Text → Text
unfolding lower_code
lower [] = []
lower (c ∷ cs) = lower_code c ∷ lower cs

unfoldable pub is_digit : ℕ → Bool
is_digit c = leb 48 c && leb c 57

-- The code points that `str.isdigit` accepts, with the superscripts.
unfoldable pub is_python_digit : ℕ → Bool
unfolding is_digit
is_python_digit c = is_digit c || c == 0xb2 || c == 0xb3 || c == 0xb9

-- The code points that `str.isalpha` accepts.
unfoldable pub is_alpha : ℕ → Bool
is_alpha c =
    (leb 65 c && leb c 90)
    || (leb 97 c && leb c 122)
    || c == 0xaa
    || c == 0xb5
    || c == 0xba
    || (leb 0xc0 c && leb c 0xff && not (c == 0xd7) && not (c == 0xf7))

-- The decimal digits of `n`, by fuel: a number has fewer digits than its successor.
unfoldable pub digits : ℕ → ℕ → Text
digits zero n = []
digits (suc fuel) n =
    let front = digits fuel (n / 10) in
    if ltb n 10 then (48 + n) ∷ [] else front ++ (48 + n % 10) ∷ []

-- `str(n)`
unfoldable pub show : ℕ → Text
unfolding digits
show n = digits (suc n) n

pub text_eq-eq : (a b : Text) → text_eq a b ≡ true → a ≡ b
unfolding text_eq
text_eq-eq [] [] h = refl
text_eq-eq [] (y ∷ ys) h = cc
text_eq-eq (x ∷ xs) [] h = cc
text_eq-eq (x ∷ xs) (y ∷ ys) h = ground (arith, text_eq-eq xs ys)

pub text_eq_refl : (a : Text) → text_eq a a ≡ true
unfolding text_eq
text_eq_refl [] = refl
text_eq_refl (x ∷ xs) = ground (arith, text_eq_refl xs)

-- Lowering twice is lowering once.
pub lower-lower : (a : Text) → lower (lower a) ≡ lower a
unfolding lower
lower-lower [] = refl
lower-lower (c ∷ cs) = ground (arith, lower-lower cs)

spaced : strip (lit "  a b \n") ≡ lit "a b"
unfolding strip lit
spaced = refl

lowered : lower (lit "Obras 9") ≡ lit "obras 9"
unfolding lower lit
lowered = refl

shown : show 1205 ≡ lit "1205"
unfolding show lit
shown = refl
