-- ===== src/Examples/Codes.antt =====
-- Codes from a source of randomness that counts.
use remote_assist_tool.Base.{ℕ, ◌%◌, ◌≡◌, refl, Option, some, [], ◌∷◌, arith, length}
use remote_assist_tool.Base.Int.{pos}
use remote_assist_tool.Relay.Code.{
  Bytes, new_code_manager, generate, generate_code, fill_code, normalize_code, format_code,
}
use remote_assist_tool.Relay.Code.Format.{IsRandom, generate_reads_back}

abbrev counting : ℕ → Option ℕ
counting i = some (i % 54)

counting-IsRandom : IsRandom counting
counting-IsRandom i = (i % 54, refl, ground arith)

six_chars : generate (new_code_manager (pos 6)) counting ≡ some (65 ∷ 66 ∷ 67 ∷ 68 ∷ 69 ∷ 70 ∷ [])
unfolding generate generate_code fill_code new_code_manager
six_chars = refl

six_shown : format_code (65 ∷ 66 ∷ 67 ∷ 68 ∷ 69 ∷ 70 ∷ []) ≡ 65 ∷ 66 ∷ 67 ∷ 68 ∷ 45 ∷ 69 ∷ 70 ∷ []
unfolding format_code
six_shown = refl

generate_reads_back_example :
    (code : Bytes) × (generate (new_code_manager (pos 0)) counting ≡ some code)
    × (length code ≡ 10)
    × (normalize_code (format_code code) ≡ code)
generate_reads_back_example = generate_reads_back (pos 0) counting counting-IsRandom
