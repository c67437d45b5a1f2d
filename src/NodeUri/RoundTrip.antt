-- ===== src/NodeUri/RoundTrip.antt =====
-- node_uri.rs: an address that is written with escapes is read back.
use mirage_android.Prelude.{
  ℕ, ◌^◌, ◌<◌, ◌≡◌, refl, sym, ap, ◌∙◌, true, false, none, some, [], ◌∷◌, ◌++◌, arith, ◌-◌, text_eq,
  Text, length, ◌==◌, All,
}
use mathlib.Core.List.{append_assoc}
use mirage_android.Data.Texts.{bytes, trim, trim_end}
use mirage_android.Data.Numerals.{split, split_once, rsplit_once, strip_prefix, parse_unsigned}
use mirage_android.Sniffer.Tls.{is_utf8}
use mirage_android.NodeUri.Parse.{ok, percent_decode, Query, take_pairs, parse}
use mirage_android.NodeUri.Escapes.{
  percent_encode, decode-encode, Lacks, rsplit_once-append, split_once-append, split-single,
  is_plain, IsPlain, IsUnreserved, IsDecimal, unreserved-IsPlain, decimal-IsPlain, encode-IsPlain,
  Plain-Lacks, Lacks-append, trim_end_plain, trim_end-append, ascii_step, AreAscii-append,
  IsPlain-AreAscii, unreserved-IsPlain, decimal-IsPlain, trim_slash,
}

-- A text of bytes that a `String` can hold.
abbrev pub IsString : Text → Type 0
IsString s = All (λ c. c < 256) s × (is_utf8 s ≡ true)

pub percent_decode-encode : (s : Text) → IsString s → percent_decode (percent_encode s) ≡ ok s
unfolding percent_decode
percent_decode-encode s (b, utf8) = rw (decode-encode s b, utf8) refl

trim_end-equals : (s : Text) → IsPlain s → trim_end (b'=' ∷ s) ≡ b'=' ∷ s
unfolding trim_end
trim_end-equals [] h = refl
trim_end-equals (x ∷ xs) h = rw (trim_end_plain (x ∷ xs) h) (ascii_step b'=' x xs (omega arith))

no_bracket :
    (host port : Text) → IsUnreserved host → strip_prefix (b'[' ∷ []) (host ++ (b':' ∷ port)) ≡ none
unfolding strip_prefix
no_bracket [] port h = refl
no_bracket (x ∷ xs) port (h, hs) = ground arith

positive_test : (n : ℕ) → 0 < n → (n == 0) ≡ false
positive_test n h = ground arith

-- `mirage://password@host:port?sni=name`.
unfoldable pub node_uri : Text → Text → Text → Text → Text
node_uri password host port sni =
    bytes "mirage://"
    ++ (percent_encode password
        ++ (b'@' ∷ (host ++ (b':' ∷ (port ++ (b'?' ∷ (bytes "sni=" ++ percent_encode sni)))))))

module _ (password host port sni : Text) (n : ℕ) (password_text : IsString password)
    (sni_text : IsString sni) (host_bytes : IsUnreserved host) (port_digits : IsDecimal port) where
  password-IsPlain : IsPlain (percent_encode password)
  password-IsPlain = encode-IsPlain password password_text.0

  sni-IsPlain : IsPlain (percent_encode sni)
  sni-IsPlain = encode-IsPlain sni sni_text.0

  abbrev query : Text
  query = bytes "sni=" ++ percent_encode sni

  abbrev tail : Text
  tail = host ++ (b':' ∷ (port ++ (b'?' ∷ query)))

  query-Lacks : (c : ℕ) → is_plain c ≡ false → (b'=' == c) ≡ false → Lacks c query
  query-Lacks c special equals =
      Lacks-append c (bytes "sni") (b'=' ∷ percent_encode sni)
        (Plain-Lacks c (bytes "sni") special (refl, (refl, (refl, tt))))
        (equals, Plain-Lacks c (percent_encode sni) special sni-IsPlain)

  end_trimmed : trim_end (node_uri password host port sni) ≡ node_uri password host port sni
  unfolding node_uri
  end_trimmed =
      let host_ascii = IsPlain-AreAscii host (unreserved-IsPlain host host_bytes) in
      let port_ascii = IsPlain-AreAscii port (decimal-IsPlain port port_digits) in
      let front_ascii =
        AreAscii-append (bytes "mirage://") (percent_encode password) (ground arith)
          (IsPlain-AreAscii (percent_encode password) password-IsPlain) in
      let e₁ =
        trim_end-append (bytes "?sni") b'=' (percent_encode sni) (ground arith)
          (trim_end-equals (percent_encode sni) sni-IsPlain) in
      let e₂ = trim_end-append (b':' ∷ port) b'?' query (omega arith, port_ascii) e₁ in
      let e₃ =
        trim_end-append (b'@' ∷ host) b':' (port ++ (b'?' ∷ query)) (omega arith, host_ascii) e₂ in
      trim_end-append (bytes "mirage://" ++ percent_encode password) b'@' tail front_ascii e₃

  uri_trimmed : trim (node_uri password host port sni) ≡ node_uri password host port sni
  unfolding trim node_uri
  uri_trimmed = end_trimmed

  at_split :
      rsplit_once b'@' (percent_encode password ++ (b'@' ∷ tail))
      ≡ some (percent_encode password, tail)
  at_split = rsplit_once-append b'@' (percent_encode password) tail (
      Lacks-append b'@' host (b':' ∷ (port ++ (b'?' ∷ query)))
        (Plain-Lacks b'@' host refl (unreserved-IsPlain host host_bytes))
        (
          refl,
          Lacks-append b'@' port (b'?' ∷ query)
              (Plain-Lacks b'@' port refl (decimal-IsPlain port port_digits))
              (refl, query-Lacks b'@' refl refl),
        ))

  query_split : split_once b'?' tail ≡ some (host ++ (b':' ∷ port), query)
  query_split =
      ap (split_once b'?') (sym (append_assoc host (b':' ∷ port) (b'?' ∷ query)))
      ∙ split_once-append b'?' (host ++ (b':' ∷ port)) query (
          Lacks-append b'?' host (b':' ∷ port)
            (Plain-Lacks b'?' host refl (unreserved-IsPlain host host_bytes))
            (refl, Plain-Lacks b'?' port refl (decimal-IsPlain port port_digits)))

  port_split : rsplit_once b':' (host ++ (b':' ∷ port)) ≡ some (host, port)
  port_split =
      rsplit_once-append b':' host port
        (Plain-Lacks b':' port refl (decimal-IsPlain port port_digits))

  query_read :
      (usize_max : ℕ) (q : Query)
      → take_pairs usize_max q (split b'&' query) ≡ ok (record q { sni = sni })
  unfolding take_pairs text_eq
  query_read usize_max q =
      let one = split-single b'&' query (query-Lacks b'&' refl refl) in
      let pair =
        split_once-append b'=' (bytes "sni") (percent_encode sni) (refl, (refl, (refl, tt))) in
      rw (one, pair, percent_decode-encode sni sni_text) refl

node_uri_rest :
    (password host port sni : Text)
    → strip_prefix (bytes "mirage://") (node_uri password host port sni)
      ≡ some (
          percent_encode password
          ++ (b'@' ∷ (host ++ (b':' ∷ (port ++ (b'?' ∷ (bytes "sni=" ++ percent_encode sni)))))))
unfolding strip_prefix node_uri
node_uri_rest password host port sni = refl

-- An address that is put together from a password and a server name (any strings that are not
-- empty, escaped), a host of unreserved letters that is not empty, and the decimal digits of a
-- port from 1 to 65535 is parsed into just these parts, whatever the size of a usize is, without a
-- pool size or a choice of udp_mux.
pub parse-node_uri :
    (usize_max : ℕ) (password host port sni : Text) (n : ℕ)
    → IsString password
    → IsString sni
    → 0 < length password
    → 0 < length sni
    → 0 < length host
    → IsUnreserved host
    → IsDecimal port
    → parse_unsigned (2 ^ 16 - 1) port ≡ some n
    → 0 < n
    → parse usize_max (node_uri password host port sni)
      ≡ ok (record {
        password = password;
        host = host;
        port = n;
        sni = sni;
        pool_size = none;
        udp_mux = none;
      })
unfolding parse
parse-node_uri usize_max password host port sni n password_text sni_text some_password some_sni
      some_host host_bytes port_digits value positive =
    let texts =
      uri_trimmed password host port sni n password_text sni_text host_bytes port_digits in
    let at = at_split password host port sni n password_text sni_text host_bytes port_digits in
    let mark = query_split password host port sni n password_text sni_text host_bytes port_digits in
    let colon = port_split password host port sni n password_text sni_text host_bytes port_digits in
    let read = query_read password host port sni n password_text sni_text host_bytes port_digits in
    rw
      (
        texts,
        node_uri_rest password host port sni,
        at,
        mark,
        no_bracket host port host_bytes,
        colon,
        trim_slash port port_digits,
        value,
        positive_test n positive,
        read usize_max (record { sni = []; pool_size = none; udp_mux = none }),
        percent_decode-encode password password_text,
        positive_test (length password) some_password,
        positive_test (length host) some_host,
        positive_test (length sni) some_sni,
      )
      refl
