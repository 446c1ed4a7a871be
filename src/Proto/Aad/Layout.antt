-- ===== src/Proto/Aad/Layout.antt =====
-- Layouts with length prefixes can be taken apart in one way (internal/proto/aad.go).
use remote_assist_tool.Base.{
  ℕ, ◌%◌, ◌<◌, ◌≡◌, refl, ap, sym, ◌∙◌, arith, [], ◌∷◌, ◌++◌, length, length-append,
}
use mathlib.Core.List.{append_assoc}
use remote_assist_tool.Proto.Aad.{Bytes, put_uint32, put_uint64, add_string}

pub append_split :
    (xs ys us vs : Bytes) → length xs ≡ length ys → xs ++ us ≡ ys ++ vs → (xs ≡ ys) × (us ≡ vs)
append_split [] [] us vs h e = (refl, e)
append_split [] (y ∷ ys) us vs h e = absurd (ground (arith, h))
append_split (x ∷ xs) [] us vs h e = absurd (ground (arith, h))
append_split (x ∷ xs) (y ∷ ys) us vs h e =
    let heads : x ≡ y = cc e in
    let tails : xs ++ us ≡ ys ++ vs = cc e in
    let (p, q) = append_split xs ys us vs (ground (arith, h)) tails in (cc (heads, p), q)

pub append_split_end :
    (xs ys us vs : Bytes) → length us ≡ length vs → xs ++ us ≡ ys ++ vs → (xs ≡ ys) × (us ≡ vs)
append_split_end xs ys us vs h e =
    append_split xs ys us vs
      (ground (arith, h, ap length e, length-append xs us, length-append ys vs)) e

pub put_uint32-inj :
    (v w : ℕ) → v < 4294967296 → w < 4294967296 → put_uint32 v ≡ put_uint32 w → v ≡ w
unfolding put_uint32
put_uint32-inj v w h k e = ground (arith, h, k, e)

pub put_uint64-inj :
    (v w : ℕ)
    → v < 18446744073709551616
    → w < 18446744073709551616
    → put_uint64 v ≡ put_uint64 w
    → v ≡ w
unfolding put_uint64 put_uint32
put_uint64-inj v w h k e = ground (arith, h, k, e)

pub four : (v : ℕ) → length (put_uint32 v) ≡ 4
unfolding put_uint32
four v = refl

pub eight : (v : ℕ) → length (put_uint64 v) ≡ 8
unfolding put_uint64 put_uint32
eight v = refl

-- A text and what follows it, behind prefixes of one length.
pub string_cancel :
    (xs ys s t u v : Bytes)
    → length xs ≡ length ys
    → length s < 4294967296
    → length t < 4294967296
    → add_string xs s ++ u ≡ add_string ys t ++ v
    → (xs ≡ ys) × (s ≡ t) × (u ≡ v)
unfolding add_string
string_cancel xs ys s t u v h a b e =
    let m = length s % 4294967296 in
    let n = length t % 4294967296 in
    let flat : (xs ++ put_uint32 m) ++ (s ++ u) ≡ (ys ++ put_uint32 n) ++ (t ++ v) =
      sym (append_assoc (xs ++ put_uint32 m) s u) ∙ e ∙ append_assoc (ys ++ put_uint32 n) t v in
    let (front, back) =
      append_split (xs ++ put_uint32 m) (ys ++ put_uint32 n) (s ++ u) (t ++ v)
        (ground (
          arith,
          h,
          length-append xs (put_uint32 m),
          length-append ys (put_uint32 n),
          four m,
          four n,
        ))
        flat in
    let (p, q) = append_split xs ys (put_uint32 m) (put_uint32 n) h front in
    let same : m ≡ n = put_uint32-inj m n (ground arith) (ground arith) q in
    let (r, w) = append_split s t u v (ground (arith, same, a, b)) back in (p, r, w)
