-- ===== src/Relay/Code.antt =====
-- internal/relay/code.go: the codes by which a helper finds a share. A text is the list of its bytes
-- in UTF-8, which need not be valid.
pub mod Format
use remote_assist_tool.Base.{
  ℕ, zero, suc, ◌+◌, ◌-◌, Bool, not, ◌||◌, ◌&&◌, ltb, Option, none, some, List, [], ◌∷◌, ◌++◌,
  length, take, drop, get_or, leb, ◌==◌, if◌then◌else◌,
}
use remote_assist_tool.Base.Int.{ℤ, pos, negsuc}

abbrev pub Bytes : Type 0
Bytes = List ℕ

-- "ABCDEFGHJKMNPQRSTUVWXYZabcdefghjkmnpqrstuvwxyz23456789"
abbrev pub charset : Bytes
charset =
    65 ∷ 66 ∷ 67 ∷ 68 ∷ 69 ∷ 70 ∷ 71 ∷ 72 ∷ 74 ∷ 75 ∷ 77 ∷ 78 ∷ 80 ∷ 81 ∷ 82 ∷ 83 ∷ 84 ∷ 85 ∷ 86
    ∷ 87 ∷ 88 ∷ 89 ∷ 90 ∷ 97 ∷ 98 ∷ 99 ∷ 100 ∷ 101 ∷ 102 ∷ 103 ∷ 104 ∷ 106 ∷ 107 ∷ 109 ∷ 110 ∷ 112
    ∷ 113 ∷ 114 ∷ 115 ∷ 116 ∷ 117 ∷ 118 ∷ 119 ∷ 120 ∷ 121 ∷ 122 ∷ 50 ∷ 51 ∷ 52 ∷ 53 ∷ 54 ∷ 55 ∷ 56
    ∷ 57 ∷ []

abbrev pub default_code_length : ℕ
default_code_length = 10

pub record CodeManager : Type 0 where
  pub code_length : ℕ

unfoldable pub new_code_manager : ℤ → CodeManager
new_code_manager (negsuc n) = record { code_length = default_code_length }
new_code_manager (pos zero) = record { code_length = default_code_length }
new_code_manager (pos (suc n)) = record { code_length = suc n }

abbrev pub append_char : Option ℕ → Option Bytes → Option Bytes
append_char none rest = none
append_char (some num) none = none
append_char (some num) (some rest) = some (get_or charset num 0 ∷ rest)

-- The bytes from position i on; `draws i` is what rand.Int answers for position i.
unfoldable pub fill_code : ℕ → ℕ → (ℕ → Option ℕ) → Option Bytes
fill_code zero i draws = some []
fill_code (suc left) i draws = append_char (draws i) (fill_code left (i + 1) draws)

unfoldable pub generate_code : ℕ → (ℕ → Option ℕ) → Option Bytes
generate_code length draws = fill_code length 0 draws

unfoldable pub generate : CodeManager → (ℕ → Option ℕ) → Option Bytes
generate cm draws = generate_code cm.code_length draws

abbrev pub is_separator : ℕ → Bool
is_separator r = r == 45 || r == 32 || r == 95

abbrev between : ℕ → ℕ → ℕ → Bool
between low high b = leb low b && leb b high

abbrev is_tail : ℕ → Bool
is_tail b = between 128 191 b

-- The bytes of the character of UTF-8 that starts with `b`, which is not ASCII, and goes on in
-- `rest`; 1 where there is none. A byte that is missing is 0.
unfoldable pub rune_width : ℕ → Bytes → ℕ
rune_width b rest =
    let c = get_or rest 0 0 in
    let d = get_or rest 1 0 in
    let e = get_or rest 2 0 in
    if between 194 223 b && is_tail c
    then 2
    else if ((b == 224 && between 160 191 c)
          || (b == 237 && between 128 159 c)
          || ((between 225 236 b || between 238 239 b) && is_tail c))
        && is_tail d
    then 3
    else if ((b == 240 && between 144 191 c)
          || (b == 244 && between 128 143 c)
          || (between 241 243 b && is_tail c))
        && is_tail d
        && is_tail e
    then 4
    else 1

-- `left` bytes of a character are still to come. A byte that starts no character becomes U+FFFD.
unfoldable pub normalize_from : ℕ → Bytes → Bytes
unfolding rune_width
normalize_from left [] = []
normalize_from (suc left) (b ∷ rest) = b ∷ normalize_from left rest
normalize_from zero (b ∷ rest) =
    let plain = normalize_from 0 rest in
    let more = normalize_from (rune_width b rest - 1) rest in
    if ltb b 128
    then if is_separator b then plain else b ∷ plain
    else if rune_width b rest == 1
    then 239 ∷ 191 ∷ 189 ∷ plain
    else b ∷ more

unfoldable pub normalize_code : Bytes → Bytes
unfolding normalize_from
normalize_code code = normalize_from 0 code

unfoldable pub format_code : Bytes → Bytes
format_code code = if leb (length code) 4 then code else take 4 code ++ (45 ∷ drop 4 code)
