-- ===== src/Tests/Nodes.antt =====
-- Addresses of nodes at concrete inputs.
use mirage_android.Prelude.{◌∷◌, [], ◌-◌, ◌^◌, ◌≡◌, refl, none, some, arith, Text, text_eq}
use mirage_android.Data.Texts.{bytes, trim}
use mirage_android.Data.Numerals.{parse_unsigned}
use mirage_android.Data.Lossy.{from_utf8_lossy, lossy_loop}
use mirage_android.Sniffer.Tls.{is_utf8}
use mirage_android.NodeUri.Parse.{ok, parse}
use mirage_android.NodeUri.RoundTrip.{IsString, node_uri, parse-node_uri}

abbrev secret : Text
secret = bytes "p@ /"

abbrev front : Text
front = bytes "a.cn"

secret-IsString : IsString secret
unfolding is_utf8 from_utf8_lossy text_eq lossy_loop
secret-IsString = (ground arith, refl)

front-IsString : IsString front
unfolding is_utf8 from_utf8_lossy text_eq lossy_loop
front-IsString = (ground arith, refl)

port_read : parse_unsigned (2 ^ 16 - 1) (bytes "443") ≡ some 443
unfolding parse_unsigned
port_read = refl

-- An ideographic space in front and a no-break space behind.
trimmed : trim (0xE3 ∷ 0x80 ∷ 0x80 ∷ 97 ∷ 0xC2 ∷ 0xA0 ∷ []) ≡ 97 ∷ []
unfolding trim
trimmed = refl

parse-node_uri_example :
    parse (2 ^ 32 - 1) (node_uri secret (bytes "1.2.3.4") (bytes "443") front)
    ≡ ok (record {
      password = secret;
      host = bytes "1.2.3.4";
      port = 443;
      sni = front;
      pool_size = none;
      udp_mux = none;
    })
parse-node_uri_example =
    parse-node_uri (2 ^ 32 - 1) secret (bytes "1.2.3.4") (bytes "443") front 443 secret-IsString
      front-IsString (omega arith) (omega arith) (omega arith) (ground arith) (ground arith)
      port_read (omega arith)
