-- ===== src/P2p/Udp/Header.antt =====
-- internal/p2p/stun_server.go: the header of a relayed packet.
use remote_assist_tool.Base.{
  ℕ, ◌%◌, ◌≤◌, ◌<◌, ◌≡◌, refl, ap, sym, ◌∙◌, arith, ◌||◌, not, List, [], ◌∷◌, ◌++◌, Option, none,
  some, length, take, drop, take-append-drop, length-take, ltb, ◌==◌, if◌then◌else◌,
}

abbrev pub Bytes : Type 0
Bytes = List ℕ

abbrev pub relay_marker : ℕ
relay_marker = 255

abbrev pub max_session_id_len : ℕ
max_session_id_len = 64

-- byte(len(sessionID)) wraps around.
unfoldable pub make_relay_header : Bytes → Bytes
make_relay_header session_id = relay_marker ∷ length session_id % 256 ∷ session_id

unfoldable pub parse_relay_header : Bytes → Option (Bytes × Bytes)
parse_relay_header [] = none
parse_relay_header (m ∷ []) = none
parse_relay_header (m ∷ sid_len ∷ rest) =
    if not (m == relay_marker)
    then none
    else if sid_len == 0 || ltb max_session_id_len sid_len
    then none
    else if ltb (length rest) sid_len
    then none
    else some (take sid_len rest, drop sid_len rest)

take-length-append :
    (xs ys : Bytes) → (take (length xs) (xs ++ ys) ≡ xs) × (drop (length xs) (xs ++ ys) ≡ ys)
take-length-append [] ys = (refl, refl)
take-length-append (x ∷ xs) ys = let (a, b) = take-length-append xs ys in (ap (λ zs. x ∷ zs) a, b)

length-prefix : (xs ys : Bytes) → length xs ≤ length (xs ++ ys)
length-prefix [] ys = ground arith
length-prefix (x ∷ xs) ys = ground (arith, length-prefix xs ys)

-- A packet that the tunnel wraps for the relay is read back as it was, for every ID of 1 to 64 bytes.
pub parse_relay_header-make :
    (sid payload : Bytes)
    → 0 < length sid
    → length sid ≤ 64
    → parse_relay_header (make_relay_header sid ++ payload) ≡ some (sid, payload)
unfolding parse_relay_header make_relay_header
parse_relay_header-make sid payload h k =
    let n = length sid in
    let small : n % 256 ≡ n = ground (arith, k) in
    let (a, b) = take-length-append sid payload in
    let inside = length-prefix sid payload in rw small (ground (arith, h, k, a, b, inside))

-- What the parser accepts is the header that makeRelayHeader writes for an ID of 1 to 64 bytes,
-- followed by the payload.
pub parse_relay_header_exact :
    (packet sid payload : Bytes)
    → parse_relay_header packet ≡ some (sid, payload)
    → (packet ≡ make_relay_header sid ++ payload) × (0 < length sid) × (length sid ≤ 64)
unfolding parse_relay_header make_relay_header
parse_relay_header_exact [] sid payload e = absurd (ground (arith, e))
parse_relay_header_exact (m ∷ []) sid payload e = absurd (ground (arith, e))
parse_relay_header_exact (m ∷ n ∷ rest) sid payload e =
    let ids : take n rest ≡ sid = ground (arith, e) in
    let pay : drop n rest ≡ payload = ground (arith, e) in
    let len : length sid ≡ n = ap length (sym ids) ∙ ground (arith, length-take n rest, e) in
    let whole : sid ++ payload ≡ rest = rw (sym ids) (rw (sym pay) (take-append-drop n rest)) in
    let byte : length sid % 256 ≡ n = ground (arith, e, len) in
    let mark : m ≡ 255 = ground (arith, e) in
    (cc (mark, byte, whole), ground (arith, e, len), ground (arith, e, len))
