-- ===== src/Dns/Wire.antt =====
-- tun/dns.rs: queries and answers on the wire. A place in a buffer is what stands behind it.
use mirage_android.Prelude.{
  ℕ, zero, suc, ◌+◌, ◌*◌, ◌/◌, ◌%◌, ◌^◌, ◌&&◌, ◌||◌, Option, none, some, List, [], ◌∷◌, ◌++◌,
  if◌then◌else◌, Text, length, take, drop, ltb, ◌==◌, bit_and, bit_or,
}
use mirage_android.Data.Texts.{dot, trim_end_matches, to_ascii_lowercase}
use mirage_android.Data.Numerals.{split, ◌>>=◌}

-- `to_be_bytes` of 16 bits, and `from_be_bytes`.
abbrev pub be16 : ℕ → Text
be16 n = n / 256 % 256 ∷ n % 256 ∷ []

abbrev pub be32 : ℕ → Text
be32 n = n / 2 ^ 24 % 256 ∷ n / 2 ^ 16 % 256 ∷ n / 2 ^ 8 % 256 ∷ n % 256 ∷ []

-- The word at the start, if there are two bytes.
abbrev pub word : Text → ℕ
word [] = 0
word (a ∷ []) = 0
word (a ∷ b ∷ rest) = a * 256 + b

abbrev pub label_bytes : Text → Text
label_bytes [] = []
label_bytes (c ∷ cs) = length (c ∷ cs) % 256 ∷ (c ∷ cs)

unfoldable pub encode_labels : List Text → Text
encode_labels [] = []
encode_labels (label ∷ labels) = label_bytes label ++ encode_labels labels

unfoldable pub build_a_query : Text → ℕ → Text
unfolding encode_labels split trim_end_matches
build_a_query domain id =
    be16 id
    ++ (0x01 ∷ 0x00 ∷ 0 ∷ 1 ∷ 0 ∷ 0 ∷ 0 ∷ 0 ∷ 0 ∷ 0 ∷ [])
    ++ encode_labels (split dot (trim_end_matches dot domain))
    ++ (0 ∷ 0 ∷ 1 ∷ 0 ∷ 1 ∷ [])

-- `skip_dns_name`; the fuel is the number of steps before the guard against loops.
unfoldable pub skip_name_loop : ℕ → Text → Option Text
skip_name_loop zero rest = none
skip_name_loop (suc fuel) [] = none
skip_name_loop (suc fuel) (len ∷ rest) =
    let further = skip_name_loop fuel (drop len rest) in
    if len == 0
    then some rest
    else if bit_and len 0xC0 == 0xC0
    then if ltb (length rest) 1 then none else some (drop 1 rest)
    else if ltb (length rest) len
    then none
    else further

unfoldable pub skip_dns_name : Text → Option Text
unfolding skip_name_loop
skip_dns_name rest = skip_name_loop 129 rest

-- One record behind its name: an address, the place of the next record, or an error.
abbrev pub take_record : (Text → Option Text) → Text → Option Text
take_record next r =
    let rdlen = word (drop 8 r) in
    let rd = drop 10 r in
    let further = next (drop rdlen rd) in
    if ltb (length r) 10
    then none
    else if ltb (length rd) rdlen
    then none
    else if word r == 1 && rdlen == 4
    then some (take 4 rd)
    else further

unfoldable pub answer_loop : ℕ → Text → Option Text
unfolding skip_dns_name
answer_loop zero rest = none
answer_loop (suc count) rest = skip_dns_name rest >>= λ r. take_record (answer_loop count) r

unfoldable pub parse_a_answer : Text → ℕ → Option Text
unfolding answer_loop
parse_a_answer buf qname_len =
    let ancount = word (drop 6 buf) in
    if ltb (length buf) 12
    then none
    else if ancount == 0
    then none
    else answer_loop (if ltb ancount 16 then ancount else 16) (drop (12 + qname_len + 4) buf)

abbrev pub has_address : Option Text → ℕ
has_address none = 0
has_address (some ip) = 1

abbrev pub answer_record : ℕ → Option Text → Text
answer_record qtype none = []
answer_record qtype (some ip) =
    (0xC0 ∷ 0x0C ∷ []) ++ be16 qtype ++ (0 ∷ 1 ∷ []) ++ be32 1 ++ (0 ∷ 4 ∷ []) ++ ip

-- The TTL is `DNS_RESPONSE_TTL`, one second.
unfoldable pub build_response : Text → Text → ℕ → Option Text → ℕ → ℕ → Option Text
build_response query domain qtype a_record question_len rcode =
    if ltb (length query) 12 || (ltb question_len 13 || ltb (length query) question_len)
    then none
    else some (
        take 2 query
        ++ (0x81 ∷ bit_or 0x80 (bit_and rcode 0x0F) ∷ [])
        ++ (0 ∷ 1 ∷ [])
        ++ (0 ∷ has_address a_record ∷ [])
        ++ (0 ∷ 0 ∷ 0 ∷ 0 ∷ [])
        ++ drop 12 (take question_len query)
        ++ answer_record qtype a_record)

-- The labels from a place on, how many bytes they take, and what follows.
unfoldable pub parse_labels : ℕ → Text → Option (List Text × ℕ × Text)
parse_labels zero rest = none
parse_labels (suc fuel) [] = none
parse_labels (suc fuel) (len ∷ rest) =
    let more = parse_labels fuel (drop len rest) in
    if len == 0
    then some ([], 1, rest)
    else if ltb 63 len || ltb (length rest) len
    then none
    else more >>= λ (labels, size, rest'). some (take len rest ∷ labels, 1 + len + size, rest')

-- `push(b as char)`: a byte from 128 on becomes two bytes of UTF-8.
abbrev pub push_char : ℕ → Text → Text
push_char b rest = if ltb b 128 then b ∷ rest else (0xC0 + b / 64) ∷ (0x80 + b % 64) ∷ rest

unfoldable pub latin : Text → Text
latin [] = []
latin (b ∷ bs) = push_char b (latin bs)

unfoldable pub join_labels : List Text → Text
unfolding latin
join_labels [] = []
join_labels (label ∷ []) = latin label
join_labels (label ∷ next ∷ labels) = latin label ++ (dot ∷ join_labels (next ∷ labels))

unfoldable pub parse_query : Text → Option (Text × ℕ × ℕ)
unfolding parse_labels join_labels to_ascii_lowercase
parse_query buf =
    let qdcount = word (drop 4 buf) in
    if ltb (length buf) 12
    then none
    else if ltb qdcount 1
    then none
    else parse_labels (length buf) (drop 12 buf) >>= λ (labels, size, rest).
        if ltb (length rest) 4
        then none
        else some (to_ascii_lowercase (join_labels labels), word rest, 12 + size + 4)
