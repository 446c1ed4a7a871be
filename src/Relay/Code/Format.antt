-- ===== src/Relay/Code/Format.antt =====
-- Codes of internal/relay/code.go, shown and typed in again.
use remote_assist_tool.Base.{
  ℕ, zero, suc, ◌+◌, ◌<◌, ◌≡◌, arith, refl, ap, sym, Bool, true, false, Option, some, [], ◌∷◌, ◌++◌,
  length, take, drop, get_or, take-append-drop, leb, ltb, if◌then◌else◌, Bool-cases, inl, inr, ◌∙◌,
  if_true, if_false, not, ◌||◌,
}
use remote_assist_tool.Base.Int.{ℤ, pos, negsuc, pos_part}
use remote_assist_tool.Relay.Code.{
  Bytes, charset, new_code_manager, fill_code, generate_code, generate, is_separator,
  normalize_from, normalize_code, format_code,
}

abbrev pub all_ascii : Bytes → Bool
all_ascii [] = true
all_ascii (b ∷ bs) = if ltb b 128 then all_ascii bs else false

all_ascii-cons :
    (b : ℕ) (bs : Bytes) → all_ascii (b ∷ bs) ≡ true → (ltb b 128 ≡ true) × (all_ascii bs ≡ true)
all_ascii-cons b bs h = elim (Bool-cases (ltb b 128)) [
  | inl small ↦ (small, sym (if_true (ltb b 128) (all_ascii bs) false small) ∙ h)
  | inr large ↦ absurd (ground (arith, sym (if_false (ltb b 128) (all_ascii bs) false large) ∙ h))
]

all_ascii-take : (n : ℕ) (bs : Bytes) → all_ascii bs ≡ true → all_ascii (take n bs) ≡ true
all_ascii-take zero bs h = refl
all_ascii-take (suc n) [] h = refl
all_ascii-take (suc n) (b ∷ bs) h =
    let both = all_ascii-cons b bs h in
    if_true (ltb b 128) (all_ascii (take n bs)) false both.0 ∙ all_ascii-take n bs both.1

normalize_code_ascii :
    (b : ℕ) (rest : Bytes)
    → ltb b 128 ≡ true
    → normalize_code (b ∷ rest)
      ≡ (if is_separator b then normalize_code rest else b ∷ normalize_code rest)
unfolding normalize_code normalize_from
normalize_code_ascii b rest small = if_true (ltb b 128) _ _ small

-- What is left of ASCII.
unfoldable kept : Bytes → Bytes
kept [] = []
kept (b ∷ bs) = if is_separator b then kept bs else b ∷ kept bs

normalize_code-append :
    (xs ys : Bytes) → all_ascii xs ≡ true → normalize_code (xs ++ ys) ≡ kept xs ++ normalize_code ys
unfolding kept
normalize_code-append [] ys h = refl
normalize_code-append (x ∷ xs) ys h =
    let both = all_ascii-cons x xs h in
    let rest = normalize_code-append xs ys both.1 in
    normalize_code_ascii x (xs ++ ys) both.0 ∙ elim (Bool-cases (is_separator x)) [
      | inl sep ↦ rw sep rest
      | inr plain ↦ rw plain (ap (λ r. x ∷ r) rest)
    ]

-- The hyphen put in for display is taken out again, unless it is put into a character.
pub normalize_code-format_code :
    (code : Bytes)
    → all_ascii (take 4 code) ≡ true
    → normalize_code (format_code code) ≡ normalize_code code
unfolding format_code
normalize_code-format_code code ascii = elim (Bool-cases (leb (length code) 4)) [
  | inl short ↦ rw short refl
  | inr long ↦ rw long (
      normalize_code-append (take 4 code) (45 ∷ drop 4 code) ascii
      ∙ ap (λ r. kept (take 4 code) ++ r) (normalize_code_ascii 45 (drop 4 code) refl)
      ∙ sym (normalize_code-append (take 4 code) (drop 4 code) ascii)
      ∙ ap normalize_code (take-append-drop 4 code))
]

-- What rand.Int promises: a number below its bound, as long as the source of randomness does not
-- fail.
abbrev pub IsRandom : (ℕ → Option ℕ) → Type 0
IsRandom draws = (i : ℕ) → (num : ℕ) × (draws i ≡ some num) × (num < length charset)

-- A code of length n with nothing in it that normalizeCode takes out.
abbrev pub IsFilled : ℕ → Option Bytes → Type 0
IsFilled n result =
    (code : Bytes) × (result ≡ some code)
    × (length code ≡ n)
    × (normalize_code code ≡ code)
    × (all_ascii code ≡ true)

abbrev all_plain : Bytes → Bool
all_plain [] = true
all_plain (c ∷ cs) = if is_separator c || not (ltb c 128) then false else all_plain cs

all_plain-cons :
    (c : ℕ) (cs : Bytes)
    → all_plain (c ∷ cs) ≡ true
    → (is_separator c ≡ false) × (ltb c 128 ≡ true) × (all_plain cs ≡ true)
all_plain-cons c cs h = elim (Bool-cases (is_separator c || not (ltb c 128))) [
  | inl bad ↦ absurd (ground (arith, sym (if_true _ false (all_plain cs) bad) ∙ h))
  | inr good ↦
      (ground (arith, good), ground (arith, good), sym (if_false _ false (all_plain cs) good) ∙ h)
]

all_plain-get_or :
    (cs : Bytes) (i : ℕ)
    → all_plain cs ≡ true
    → i < length cs
    → (is_separator (get_or cs i 0) ≡ false) × (ltb (get_or cs i 0) 128 ≡ true)
all_plain-get_or [] i h b = absurd (ground (arith, b))
all_plain-get_or (c ∷ cs) zero h b = let all = all_plain-cons c cs h in (all.0, all.1)
all_plain-get_or (c ∷ cs) (suc i) h b =
    all_plain-get_or cs i (all_plain-cons c cs h).2 (ground (arith, b))

normalize_code-plain :
    (c : ℕ) (cs : Bytes)
    → is_separator c ≡ false
    → ltb c 128 ≡ true
    → normalize_code cs ≡ cs
    → normalize_code (c ∷ cs) ≡ c ∷ cs
normalize_code-plain c cs p small h =
    normalize_code_ascii c cs small
    ∙ if_false (is_separator c) (normalize_code cs) (c ∷ normalize_code cs) p
    ∙ ap (λ r. c ∷ r) h

fill_code-IsFilled :
    (draws : ℕ → Option ℕ) → IsRandom draws → (left i : ℕ) → IsFilled left (fill_code left i draws)
unfolding fill_code normalize_code normalize_from
fill_code-IsFilled draws h zero i = ([], refl, refl, refl, refl)
fill_code-IsFilled draws h (suc left) i =
    let num = h i in
    let rest = fill_code-IsFilled draws h left (i + 1) in
    let good = all_plain-get_or charset num.0 refl num.2 in
    (
      get_or charset num.0 0 ∷ rest.0,
      rw (num.1) (rw (rest.1) refl),
      ap suc rest.2,
      normalize_code-plain (get_or charset num.0 0) rest.0 good.0 good.1 rest.3,
      if_true (ltb (get_or charset num.0 0) 128) (all_ascii rest.0) false good.1 ∙ rest.4,
    )

-- A size that is not positive stands for 10.
abbrev pub code_size : ℤ → ℕ
code_size size = if ltb 0 (pos_part size) then pos_part size else 10

code_length-size : (size : ℤ) → (new_code_manager size).code_length ≡ code_size size
unfolding new_code_manager
code_length-size (pos zero) = refl
code_length-size (pos (suc n)) = ground arith
code_length-size (negsuc n) = refl

-- If the source of randomness never fails and its numbers are below the bound asked for, then
-- Generate returns a code of the manager's length, 10 where NewCodeManager was given a length that is not positive, and what
-- FormatCode makes of the code is read back as the code by normalizeCode.
pub generate_reads_back :
    (size : ℤ) (draws : ℕ → Option ℕ)
    → IsRandom draws
    → (code : Bytes) × (generate (new_code_manager size) draws ≡ some code)
      × (length code ≡ code_size size)
      × (normalize_code (format_code code) ≡ code)
unfolding generate generate_code new_code_manager
generate_reads_back size draws h =
    let made = fill_code-IsFilled draws h (new_code_manager size).code_length 0 in
    (
      made.0,
      made.1,
      made.2 ∙ code_length-size size,
      normalize_code-format_code made.0 (all_ascii-take 4 made.0 made.4) ∙ made.3,
    )
