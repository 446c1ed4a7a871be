-- ===== src/Examples/Truncation.antt =====
-- Truncation at concrete texts.
use remote_assist_tool.Base.{
  ◌≤◌, ◌≡◌, ◌⊎◌, refl, true, false, [], ◌∷◌, ◌++◌, arith, length, replicate,
}
use remote_assist_tool.Agent.Truncate.{
  Bytes, align_down, down_loop, align_up, up_loop, truncate_head, truncate_tail, truncate_middle,
}
use remote_assist_tool.Agent.Truncate.Budget.{length-truncate_middle}
use remote_assist_tool.Agent.Truncate.Boundary.{IsCut, truncate_middle_cuts}

-- Two letters around a character of three bytes.
abbrev mixed : Bytes
mixed = 97 ∷ 228 ∷ 184 ∷ 173 ∷ 98 ∷ []

head_inside : truncate_head mixed 3 ≡ 97 ∷ []
unfolding truncate_head align_down down_loop
head_inside = refl

tail_inside : truncate_tail mixed 3 ≡ 98 ∷ []
unfolding truncate_tail align_up up_loop
tail_inside = refl

abbrev long_text : Bytes
long_text = replicate 100 97 ++ mixed

length-truncate_middle_example : length (truncate_middle long_text 100).0 ≤ 100
length-truncate_middle_example = length-truncate_middle long_text 100 (ground arith)

truncate_middle_cuts_example :
    (length long_text ≤ 100) × (truncate_middle long_text 100 ≡ (long_text, false))
    ⊎ ((truncate_middle long_text 100).1 ≡ true) × IsCut long_text (truncate_middle long_text 100).0
truncate_middle_cuts_example = truncate_middle_cuts long_text 100
