-- ===== src/Agent/Truncate.antt =====
-- internal/agent/tools/truncate.go: texts cut to a budget at character boundaries. A text is the list
-- of its bytes, and a budget is not negative.
pub mod Budget
pub mod Boundary
use remote_assist_tool.Base.{
  ℕ, zero, suc, ◌+◌, ◌-◌, ◌/◌, ◌%◌, Bool, true, false, not, ◌&&◌, List, [], ◌∷◌, ◌++◌, length, take,
  drop, get_or, ltb, leb, if◌then◌else◌,
}

abbrev pub Bytes : Type 0
Bytes = List ℕ

-- utf8.RuneStart: not 10xxxxxx
abbrev pub rune_start : ℕ → Bool
rune_start b = not (leb 128 b && ltb b 192)

-- `for i > 0 && !utf8.RuneStart(s[i])`
unfoldable pub down_loop : Bytes → ℕ → ℕ
down_loop s zero = zero
down_loop s (suc i) =
    let rest = down_loop s i in if rune_start (get_or s (suc i) 0) then suc i else rest

unfoldable pub align_down : Bytes → ℕ → ℕ
unfolding down_loop
align_down s i = if leb (length s) i then length s else down_loop s i

-- `for i < len(s) && !utf8.RuneStart(s[i])`; a round takes one from what is left of the text.
unfoldable pub up_loop : ℕ → Bytes → ℕ → ℕ
up_loop zero s i = i
up_loop (suc left) s i =
    let rest = up_loop left s (i + 1) in if rune_start (get_or s i 0) then i else rest

unfoldable pub align_up : Bytes → ℕ → ℕ
unfolding up_loop
align_up s zero = zero
align_up s (suc i) =
    if leb (length s) (suc i) then length s else up_loop (length s - suc i) s (suc i)

unfoldable pub truncate_head : Bytes → ℕ → Bytes
unfolding align_down
truncate_head s max = if leb (length s) max then s else take (align_down s max) s

unfoldable pub truncate_tail : Bytes → ℕ → Bytes
unfolding align_up
truncate_tail s max = if leb (length s) max then s else drop (align_up s (length s - max)) s

abbrev pub trunc_marker_reserve : ℕ
trunc_marker_reserve = 96

-- The decimal digits of a number; more fuel than digits changes nothing.
unfoldable pub digits : ℕ → ℕ → Bytes
digits zero n = []
digits (suc fuel) n =
    let rest = digits fuel (n / 10) in
    if ltb n 10 then (48 + n) ∷ [] else rest ++ (48 + n % 10) ∷ []

abbrev pub marker_before : Bytes
marker_before = 10 ∷ 46 ∷ 46 ∷ 46 ∷ 91 ∷ 228 ∷ 184 ∷ 173 ∷ 233 ∷ 151 ∷ 180 ∷ 32 ∷ []

abbrev pub marker_after : Bytes
marker_after =
    32 ∷ 229 ∷ 173 ∷ 151 ∷ 232 ∷ 138 ∷ 130 ∷ 229 ∷ 183 ∷ 178 ∷ 231 ∷ 156 ∷ 129 ∷ 231 ∷ 149 ∷ 165
    ∷ 239 ∷ 188 ∷ 155 ∷ 233 ∷ 156 ∷ 128 ∷ 232 ∷ 166 ∷ 129 ∷ 229 ∷ 174 ∷ 140 ∷ 230 ∷ 149 ∷ 180 ∷ 232
    ∷ 190 ∷ 147 ∷ 229 ∷ 135 ∷ 186 ∷ 232 ∷ 175 ∷ 183 ∷ 232 ∷ 176 ∷ 131 ∷ 233 ∷ 171 ∷ 152 ∷ 32 ∷ 109
    ∷ 97 ∷ 120 ∷ 95 ∷ 111 ∷ 117 ∷ 116 ∷ 112 ∷ 117 ∷ 116 ∷ 95 ∷ 98 ∷ 121 ∷ 116 ∷ 101 ∷ 115 ∷ 93 ∷ 46
    ∷ 46 ∷ 46 ∷ 10 ∷ []

-- fmt.Sprintf of the number of bytes left out, an int64 of at most 19 digits.
unfoldable pub marker : ℕ → Bytes
unfolding digits
marker n = marker_before ++ (digits 19 n ++ marker_after)

unfoldable pub head_cut : Bytes → ℕ → ℕ
unfolding align_down
head_cut s max = align_down s ((max - trunc_marker_reserve) / 2)

unfoldable pub tail_cut : Bytes → ℕ → ℕ
unfolding align_up
tail_cut s max =
    let budget = max - trunc_marker_reserve in align_up s (length s - (budget - budget / 2))

unfoldable pub truncate_middle : Bytes → ℕ → Bytes × Bool
unfolding truncate_head head_cut tail_cut marker
truncate_middle s max =
    if leb (length s) max
    then (s, false)
    else if leb max trunc_marker_reserve
    then (truncate_head s max, true)
    else (
      take (head_cut s max) s
          ++ (marker (tail_cut s max - head_cut s max) ++ drop (tail_cut s max) s),
      true,
    )
