-- ===== src/Tests/Datagrams.antt =====
-- Frames of datagrams at concrete inputs.
use mirage_android.Prelude.{
  ◌^◌, ◌<◌, arith, ◌≡◌, refl, none, some, [], ◌∷◌, Text, length, ◌++◌, take, drop,
}
use mirage_android.Data.Texts.{bytes}
use mirage_android.Udp.Frames.{build_frame, parse_udp_frame_payload}
use mirage_android.Udp.Checksum.{checksum, fold_carry, fold_carry_enough}
use mirage_android.Dns.Wire.{be16, be32}
use mirage_android.Data.Numerals.{ipv4}
use mirage_android.Udp.Frames.{be128}
use mirage_android.Udp.Packets.{
  build_ipv4_udp, build_ipv6_udp, build_ipv4_udp_checksums, build_ipv6_udp-checksum,
}
use mirage_android.Udp.RoundTrip.{parse_udp_frame_payload-build_frame}

abbrev payload : Text
payload = 1 ∷ 2 ∷ 3 ∷ []

abbrev frame : Text
frame = 0 ∷ 11 ∷ 0x03 ∷ 4 ∷ (bytes "a.cn" ++ (0x01 ∷ 0xBB ∷ payload))

frame_built : build_frame (some (bytes "a.cn")) none 443 payload ≡ some frame
unfolding build_frame
frame_built = refl

parse_udp_frame_payload-build_frame_example :
    parse_udp_frame_payload (frame ++ (9 ∷ 9 ∷ [])) ≡ some (payload, length frame)
parse_udp_frame_payload-build_frame_example =
    parse_udp_frame_payload-build_frame (some (bytes "a.cn")) none 443 payload frame (9 ∷ 9 ∷ [])
      frame_built

abbrev front : Text
front = 0x45 ∷ 0 ∷ 0xC0 ∷ 0xA8 ∷ []

abbrev behind_field : Text
behind_field = 0xFF ∷ 0xFE ∷ 7 ∷ []

fold_carry_enough_example :
    (fold_carry 5 0xFFFFFFFF ≡ fold_carry 2 0xFFFFFFFF) × (fold_carry 2 0xFFFFFFFF < 2 ^ 16)
fold_carry_enough_example = fold_carry_enough 3 0xFFFFFFFF (omega arith)

build_ipv4_udp_checksums_example :
    (checksum (take 20 (build_ipv4_udp (ipv4 8 8 8 8) 53 (ipv4 10 0 0 2) 4000 payload)) ≡ 0)
    × (checksum (
          (be32 (ipv4 8 8 8 8) ++ (be32 (ipv4 10 0 0 2) ++ (0 ∷ 17 ∷ be16 11)))
          ++ drop 20 (build_ipv4_udp (ipv4 8 8 8 8) 53 (ipv4 10 0 0 2) 4000 payload))
        ≡ 0)
    × (length (build_ipv4_udp (ipv4 8 8 8 8) 53 (ipv4 10 0 0 2) 4000 payload) ≡ 31)
build_ipv4_udp_checksums_example =
    build_ipv4_udp_checksums (ipv4 8 8 8 8) 53 (ipv4 10 0 0 2) 4000 payload
      (omega arith, (omega arith, (omega arith, tt))) (omega arith)

build_ipv6_udp-checksum_example :
    (checksum (
        (be128 1 ++ (be128 2 ++ (be32 11 ++ (0 ∷ 0 ∷ 0 ∷ 17 ∷ []))))
        ++ drop 40 (build_ipv6_udp 1 53 2 4000 payload))
      ≡ 0)
    × (take 2 (drop 46 (build_ipv6_udp 1 53 2 4000 payload))
        ≡ be16 (
            checksum (
              (be128 1 ++ (be128 2 ++ (be32 11 ++ (0 ∷ 0 ∷ 0 ∷ 17 ∷ []))))
              ++ (be16 53 ++ (be16 4000 ++ (be16 11 ++ (be16 0 ++ payload)))))))
    × (take 32 (drop 8 (build_ipv6_udp 1 53 2 4000 payload)) ≡ be128 1 ++ be128 2)
    × (length (build_ipv6_udp 1 53 2 4000 payload) ≡ 51)
build_ipv6_udp-checksum_example =
    build_ipv6_udp-checksum 1 53 2 4000 payload (omega arith, (omega arith, (omega arith, tt)))
      (omega arith)
