-- ===== src/Prelude/Bytes.antt =====
-- Go strings as their bytes, and what the code uses of the packages strings and bytes.
use Prim.Native.Nat.{ℕ, ◌+◌}
use Prim.Native.Char.{code}
use Prim.Native.String.{String}
use mathlib.Core.Path.{◌≡◌, refl}
use mathlib.Core.Logic.{◌↔◌}
use mathlib.Core.Bool.{Bool, true, false, ◌&&◌, ◌||◌}
use mathlib.Core.List.{List, [], ◌∷◌, map, reverse}
use native.Mathlib.Omega.{arith}
use docker_plugin_gce_pd.Prelude.Tests.{ltb, leb, ◌==◌, if◌then◌else◌}

abbrev pub Bytes : Type 0
Bytes = List ℕ

-- A literal. The code points of an ASCII text are its bytes.
abbrev pub codes : String → Bytes
codes String.[] = []
codes (String.◌∷◌ c s) = code c ∷ codes s

-- `a == b` on strings.
unfoldable pub str_eq : Bytes → Bytes → Bool
str_eq [] [] = true
str_eq [] (b ∷ bs) = false
str_eq (a ∷ as') [] = false
str_eq (a ∷ as') (b ∷ bs) = a == b && str_eq as' bs

pub str_eq_refl : (a : Bytes) → str_eq a a ≡ true
unfolding str_eq
str_eq_refl [] = refl
str_eq_refl (a ∷ as') = ground (arith, str_eq_refl as')

pub str_eq→eq : (a b : Bytes) → str_eq a b ≡ true → a ≡ b
unfolding str_eq
str_eq→eq [] [] h = refl
str_eq→eq [] (b ∷ bs) h = ground arith
str_eq→eq (a ∷ as') [] h = ground arith
str_eq→eq (a ∷ as') (b ∷ bs) h = ground (arith, str_eq→eq as' bs)

pub str_eq_iff : (a b : Bytes) → (str_eq a b ≡ true) ↔ (a ≡ b)
str_eq_iff a b = (str_eq→eq a b, λ e. ground (arith, str_eq_refl a))

-- `a < b` on strings: lexicographic, by bytes.
unfoldable pub str_lt : Bytes → Bytes → Bool
str_lt as' [] = false
str_lt [] (b ∷ bs) = true
str_lt (a ∷ as') (b ∷ bs) = ltb a b || (a == b && str_lt as' bs)

pub str_lt_trans : (a b c : Bytes) → str_lt a b ≡ true → str_lt b c ≡ true → str_lt a c ≡ true
unfolding str_lt
str_lt_trans a [] c h k = ground arith
str_lt_trans a (y ∷ b) [] h k = ground arith
str_lt_trans [] (y ∷ b) (z ∷ c) h k = refl
str_lt_trans (x ∷ a) (y ∷ b) (z ∷ c) h k = ground (arith, str_lt_trans a b c)

-- Two strings neither of which is less are equal.
pub str_lt_connected : (a b : Bytes) → str_lt a b ≡ false → str_eq a b ≡ false → str_lt b a ≡ true
unfolding str_lt str_eq
str_lt_connected [] [] h k = ground arith
str_lt_connected [] (y ∷ b) h k = ground arith
str_lt_connected (x ∷ a) [] h k = refl
str_lt_connected (x ∷ a) (y ∷ b) h k = ground (arith, str_lt_connected a b)

pub str_lt_irrefl : (a : Bytes) → str_lt a a ≡ false
unfolding str_lt
str_lt_irrefl [] = refl
str_lt_irrefl (x ∷ a) = ground (arith, str_lt_irrefl a)

-- `strings.ToLower` on a byte; on bytes below 128 it is that of Go.
unfoldable pub lower_byte : ℕ → ℕ
lower_byte c = if leb b'A' c && leb c b'Z' then c + 32 else c

unfoldable pub to_lower : Bytes → Bytes
unfolding lower_byte
to_lower = map lower_byte

-- White space: `unicode.IsSpace` on ASCII, which TrimSpace and Fields use.
unfoldable pub is_space : ℕ → Bool
is_space c = (leb 9 c && leb c 13) || c == 32

unfoldable pub trim_left : Bytes → Bytes
unfolding is_space
trim_left [] = []
trim_left (c ∷ cs) = let rest = trim_left cs in if is_space c then rest else c ∷ cs

unfoldable pub trim_space : Bytes → Bytes
unfolding trim_left
trim_space s = reverse (trim_left (reverse (trim_left s)))

-- Adds a byte in front of the first piece.
abbrev pub onto_first : ℕ → List Bytes → List Bytes
onto_first c [] = (c ∷ []) ∷ []
onto_first c (p ∷ ps) = (c ∷ p) ∷ ps

-- `strings.Split(s, sep)` for a separator of one byte.
unfoldable pub split : ℕ → Bytes → List Bytes
split sep [] = [] ∷ []
split sep (c ∷ cs) = let rest = split sep cs in if c == sep then [] ∷ rest else onto_first c rest

-- `strings.TrimLeft(s, cut)` and `strings.TrimRight(s, cut)` for a cut set of one byte.
unfoldable pub trim_left_byte : ℕ → Bytes → Bytes
trim_left_byte b [] = []
trim_left_byte b (c ∷ cs) = let rest = trim_left_byte b cs in if c == b then rest else c ∷ cs

unfoldable pub trim_right_byte : ℕ → Bytes → Bytes
unfolding trim_left_byte
trim_right_byte b s = reverse (trim_left_byte b (reverse s))
