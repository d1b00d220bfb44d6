-- ===== src/Bridge/Hostname.antt =====
-- `extractHostname` of infra/android/bridge.go. The loop runs on the bytes from `offset` on; its fuel
-- is their number, of which each round uses up at least one.
use localdns_go.Prelude.{
  ℕ, zero, suc, ◌+◌, ◌≤◌, ◌<◌, ◌≡◌, refl, sym, ap, ◌∙◌, false, List, [], ◌∷◌, ◌++◌, length, take,
  drop, All, ltb, ◌==◌, if◌then◌else◌, arith, length-append, length-drop, take-length-append,
  drop-length-append, append_assoc,
}
use localdns_go.Prelude.Words.{Bytes}

-- "."
abbrev pub dot : ℕ
dot = 46

-- the loop over `query[offset:]`
unfoldable pub read_labels : ℕ → Bytes → List Bytes
read_labels zero b = []
read_labels (suc fuel) [] = []
read_labels (suc fuel) (n ∷ rest) =
    let label = take n rest in
    let later = read_labels fuel (drop n rest) in
    if n == 0 then [] else if ltb (length rest) n then [] else label ∷ later

-- `labels[0]`, and the others with a dot in front
abbrev pub join_labels : List Bytes → Bytes
join_labels [] = []
join_labels (l ∷ []) = l
join_labels (l ∷ l' ∷ ls) = l ++ dot ∷ join_labels (l' ∷ ls)

unfoldable pub extract_hostname : Bytes → Bytes
unfolding read_labels
extract_hostname query =
    if ltb (length query) 13
    then []
    else let b = drop 12 query in join_labels (read_labels (length b) b)

-- RFC 1035, 3.1: a name is a sequence of labels, each with its length in front.
abbrev pub encode_labels : List Bytes → Bytes
encode_labels [] = []
encode_labels (l ∷ ls) = length l ∷ (l ++ encode_labels ls)

-- A label is not empty.
abbrev pub IsLabel : Bytes → Type 0
IsLabel l = 0 < length l

-- What ends the name: the root, or the end of the message.
abbrev pub EndsName : Bytes → Type 0
EndsName [] = Unit
EndsName (n ∷ rest) = n ≡ 0

-- With as much fuel as there are bytes, more makes no difference.
pub read_labels_enough :
    (f g : ℕ) (b : Bytes) → length b ≤ f → length b ≤ g → read_labels f b ≡ read_labels g b
unfolding read_labels
read_labels_enough zero zero b p q = refl
read_labels_enough zero (suc g) [] p q = refl
read_labels_enough (suc f) zero [] p q = refl
read_labels_enough zero (suc g) (n ∷ b) p q = absurd (omega arith)
read_labels_enough (suc f) zero (n ∷ b) p q = absurd (omega arith)
read_labels_enough (suc f) (suc g) [] p q = refl
read_labels_enough (suc f) (suc g) (n ∷ b) p q =
    let shorter : length (drop n b) ≤ length b = omega (arith, length-drop n b) in
    rw (read_labels_enough f g (drop n b) (omega arith) (omega arith)) refl

read_labels-encode :
    (f : ℕ) (ls : List Bytes) (rest : Bytes)
    → length (encode_labels ls ++ rest) ≤ f
    → All IsLabel ls
    → EndsName rest
    → read_labels f (encode_labels ls ++ rest) ≡ ls
unfolding read_labels
read_labels-encode zero [] rest h p e = refl
read_labels-encode (suc f) [] [] h p e = refl
read_labels-encode (suc f) [] (n ∷ rest) h p e = rw e refl
read_labels-encode zero (l ∷ ls) rest h p e = absurd (omega arith)
read_labels-encode (suc f) (l ∷ ls) rest h p e =
    let tail = encode_labels ls ++ rest in
    let whole : (l ++ encode_labels ls) ++ rest ≡ l ++ tail =
      append_assoc l (encode_labels ls) rest in
    let size : length (l ++ tail) ≡ length l + length tail = length-append l tail in
    let nonzero : (length l == 0) ≡ false = ground (arith, p.0) in
    let inside : ltb (length (l ++ tail)) (length l) ≡ false = ground (arith, size) in
    rw whole (
      rw (nonzero, inside, take-length-append l tail, drop-length-append l tail)
        (ap (λ t. l ∷ t)
          (read_labels-encode f ls rest (omega (arith, h, ap length whole, size)) p.1 e)))

-- The name of a query with a header of twelve bytes: for labels that are not empty, with the root or
-- the end of the message behind them, the host name is the labels with dots between them. Whatever
-- follows the root, and whatever the header holds, makes no difference.
pub extract_hostname-encode :
    (header : Bytes) (ls : List Bytes) (rest : Bytes)
    → length header ≡ 12
    → All IsLabel ls
    → EndsName rest
    → 0 < length (encode_labels ls ++ rest)
    → extract_hostname (header ++ (encode_labels ls ++ rest)) ≡ join_labels ls
unfolding extract_hostname
extract_hostname-encode header ls rest size labels end some =
    let b = encode_labels ls ++ rest in
    let long : ltb (length (header ++ b)) 13 ≡ false = ground (arith, length-append header b) in
    let behind : drop 12 (header ++ b) ≡ b =
      ap (λ n. drop n (header ++ b)) (sym size) ∙ drop-length-append header b in
    rw long
      (rw behind (ap join_labels (read_labels-encode (length b) ls rest (omega arith) labels end)))
