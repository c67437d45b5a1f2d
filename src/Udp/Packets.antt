-- ===== src/Udp/Packets.antt =====
-- tun/udp.rs: the packets that carry a datagram back to the client, and their checksums.
use mirage_android.Prelude.{
  ℕ, ◌+◌, ◌-◌, ◌/◌, ◌%◌, ◌^◌, ◌<◌, ◌≡◌, refl, sym, [], ◌∷◌, ◌++◌, arith, Option, none, some, Text,
  length, take, drop, length-append,
}
use mathlib.Core.List.{append_assoc}
use mirage_android.Dns.Wire.{be16, be32}
use mirage_android.Net.Address.{IpAddr, v4, v6}
use mirage_android.Udp.Frames.{be128}
use mirage_android.Udp.Checksum.{checksum, checksum_verifies, AreBytes}

abbrev pub ip_front : ℕ → Text
ip_front total = 0x45 ∷ 0x00 ∷ (be16 total ++ (be16 0 ++ (be16 0 ++ (64 ∷ 17 ∷ []))))

-- The header up to the UDP header, with its checksum.
abbrev pub ip_header : ℕ → ℕ → ℕ → ℕ → Text
ip_header total src dst sum = ip_front total ++ (be16 sum ++ (be32 src ++ be32 dst))

abbrev pub udp_front : ℕ → ℕ → ℕ → Text
udp_front src_port dst_port udp_len = be16 src_port ++ (be16 dst_port ++ be16 udp_len)

abbrev pub udp_part : ℕ → ℕ → ℕ → Text → Text
udp_part src_port dst_port sum payload =
    udp_front src_port dst_port (8 + length payload) ++ (be16 sum ++ payload)

-- What the checksum covers in front of the datagram.
abbrev pub pseudo : ℕ → ℕ → ℕ → Text
pseudo src dst udp_len = be32 src ++ (be32 dst ++ (0 ∷ 17 ∷ be16 udp_len))

unfoldable pub build_ipv4_udp : ℕ → ℕ → ℕ → ℕ → Text → Text
build_ipv4_udp src src_port dst dst_port payload =
    let udp_len : ℕ = 8 + length payload in
    let ip_csum : ℕ = checksum (ip_header (20 + udp_len) src dst 0) in
    let csum : ℕ = checksum (pseudo src dst udp_len ++ udp_part src_port dst_port 0 payload) in
    ip_header (20 + udp_len) src dst ip_csum ++ udp_part src_port dst_port csum payload

be16-AreBytes : (n : ℕ) (rest : Text) → AreBytes rest → AreBytes (be16 n ++ rest)
be16-AreBytes n rest h = (omega arith, (omega arith, h))

be32-AreBytes : (n : ℕ) (rest : Text) → AreBytes rest → AreBytes (be32 n ++ rest)
be32-AreBytes n rest h = (omega arith, (omega arith, (omega arith, (omega arith, h))))

ip_front-AreBytes : (total : ℕ) → AreBytes (ip_front total)
ip_front-AreBytes total = (
  omega arith,
  (
    omega arith,
    be16-AreBytes total (be16 0 ++ (be16 0 ++ (64 ∷ 17 ∷ []))) (
        be16-AreBytes 0 (be16 0 ++ (64 ∷ 17 ∷ []))
          (be16-AreBytes 0 (64 ∷ 17 ∷ []) (omega arith, (omega arith, tt)))),
  ),
)

udp_front-AreBytes : (s d n : ℕ) → AreBytes (udp_front s d n)
udp_front-AreBytes s d n =
    be16-AreBytes s (be16 d ++ be16 n) (be16-AreBytes d (be16 n) (be16-AreBytes n [] tt))

pseudo-AreBytes : (s d n : ℕ) (rest : Text) → AreBytes rest → AreBytes (pseudo s d n ++ rest)
pseudo-AreBytes s d n rest h = be32-AreBytes s (be32 d ++ (0 ∷ 17 ∷ be16 n) ++ rest) (
    be32-AreBytes d ((0 ∷ 17 ∷ be16 n) ++ rest)
      (omega arith, (omega arith, be16-AreBytes n rest h)))

ip_header_verifies :
    (total src dst : ℕ)
    → checksum (ip_header total src dst (checksum (ip_header total src dst 0))) ≡ 0
ip_header_verifies total src dst =
    checksum_verifies (ip_front total) (be32 src ++ be32 dst) (ip_front-AreBytes total)
      (be32-AreBytes src (be32 dst) (be32-AreBytes dst [] tt)) (omega arith) (omega arith)

udp_part_verifies :
    (front : Text) (src_port dst_port : ℕ) (payload : Text)
    → AreBytes (front ++ udp_front src_port dst_port (8 + length payload))
    → length front % 2 ≡ 0
    → AreBytes payload
    → length front + length payload < 2 ^ 16 - 8
    → checksum (
        front
        ++ udp_part src_port dst_port
            (checksum (front ++ udp_part src_port dst_port 0 payload))
            payload)
      ≡ 0
udp_part_verifies front src_port dst_port payload bytes even bytes_p short =
    let head : Text = udp_front src_port dst_port (8 + length payload) in
    let assoc : (rest : Text) → (front ++ head) ++ rest ≡ front ++ (head ++ rest) =
      λ rest. append_assoc front head rest in
    let size : length (front ++ head) ≡ length front + 6 = length-append front head in
    let sum : ℕ = checksum (front ++ udp_part src_port dst_port 0 payload) in
    rw (sym (assoc (be16 sum ++ payload)), sym (assoc (be16 0 ++ payload)))
      (checksum_verifies (front ++ head) payload bytes bytes_p (omega arith) (omega arith))

-- For a payload of bytes that is shorter than 65514, both checksums of an IPv4 reply are right:
-- the sum over the finished header is zero, and so is the sum over the pseudo header of RFC 768
-- (protocol 17) and the finished datagram; and the packet is 28 bytes longer than its payload.
pub build_ipv4_udp_checksums :
    (src src_port dst dst_port : ℕ) (payload : Text)
    → AreBytes payload
    → length payload < 2 ^ 16 - 22
    → (checksum (take 20 (build_ipv4_udp src src_port dst dst_port payload)) ≡ 0)
      × (checksum (
            (be32 src ++ (be32 dst ++ (0 ∷ 17 ∷ be16 (8 + length payload))))
            ++ drop 20 (build_ipv4_udp src src_port dst dst_port payload))
          ≡ 0)
      × (length (build_ipv4_udp src src_port dst dst_port payload) ≡ 28 + length payload)
unfolding build_ipv4_udp
build_ipv4_udp_checksums src src_port dst dst_port payload bytes short =
    let udp_len : ℕ = 8 + length payload in
    (
      ip_header_verifies (20 + (8 + length payload)) src dst,
      udp_part_verifies (pseudo src dst udp_len) src_port dst_port payload
          (pseudo-AreBytes src dst udp_len (udp_front src_port dst_port udp_len)
            (udp_front-AreBytes src_port dst_port udp_len))
          refl bytes (omega arith),
      omega arith,
    )

-- The header of an IPv6 packet.
abbrev pub ip6_header : ℕ → ℕ → ℕ → Text
ip6_header udp_len src dst =
    0x60 ∷ 0 ∷ 0 ∷ 0 ∷ (be16 udp_len ++ (17 ∷ 64 ∷ (be128 src ++ be128 dst)))

abbrev pub pseudo6 : ℕ → ℕ → ℕ → Text
pseudo6 src dst udp_len = be128 src ++ (be128 dst ++ (be32 udp_len ++ (0 ∷ 0 ∷ 0 ∷ 17 ∷ [])))

unfoldable pub build_ipv6_udp : ℕ → ℕ → ℕ → ℕ → Text → Text
build_ipv6_udp src src_port dst dst_port payload =
    let udp_len : ℕ = 8 + length payload in
    let csum : ℕ = checksum (pseudo6 src dst udp_len ++ udp_part src_port dst_port 0 payload) in
    ip6_header udp_len src dst ++ udp_part src_port dst_port csum payload

-- Both ends are of one family.
unfoldable pub build_reply_ip : IpAddr → ℕ → IpAddr → ℕ → Text → Option Text
build_reply_ip (v4 s) src_port (v4 d) dst_port payload =
    some (build_ipv4_udp s src_port d dst_port payload)
build_reply_ip (v6 s) src_port (v6 d) dst_port payload =
    some (build_ipv6_udp s src_port d dst_port payload)
build_reply_ip (v4 s) src_port (v6 d) dst_port payload = none
build_reply_ip (v6 s) src_port (v4 d) dst_port payload = none

be128-AreBytes : (n : ℕ) (rest : Text) → AreBytes rest → AreBytes (be128 n ++ rest)
be128-AreBytes n rest h =
    be32-AreBytes (n / 2 ^ 96) (be32 (n / 2 ^ 64) ++ (be32 (n / 2 ^ 32) ++ (be32 n ++ rest))) (
      be32-AreBytes (n / 2 ^ 64) (be32 (n / 2 ^ 32) ++ (be32 n ++ rest))
        (be32-AreBytes (n / 2 ^ 32) (be32 n ++ rest) (be32-AreBytes n rest h)))

pseudo6-AreBytes : (s d n : ℕ) (rest : Text) → AreBytes rest → AreBytes (pseudo6 s d n ++ rest)
pseudo6-AreBytes s d n rest h = be128-AreBytes s (be128 d ++ (be32 n ++ (0 ∷ 0 ∷ 0 ∷ 17 ∷ rest))) (
    be128-AreBytes d (be32 n ++ (0 ∷ 0 ∷ 0 ∷ 17 ∷ rest)) (
      be32-AreBytes n (0 ∷ 0 ∷ 0 ∷ 17 ∷ rest)
        (omega arith, (omega arith, (omega arith, (omega arith, h))))))

-- For a payload of bytes that is shorter than 65488, the sum over the pseudo header of RFC 8200
-- (next header 17) and the finished datagram of an IPv6 reply is zero, its checksum field holds
-- the checksum of both with a field of zero (as it comes out, zero too, which IPv6 does not
-- allow), the source and then the destination stand behind the first eight bytes, and the packet
-- is 48 bytes longer than its payload.
pub build_ipv6_udp-checksum :
    (src src_port dst dst_port : ℕ) (payload : Text)
    → AreBytes payload
    → length payload < 2 ^ 16 - 48
    → (checksum (
          (be128 src ++ (be128 dst ++ (be32 (8 + length payload) ++ (0 ∷ 0 ∷ 0 ∷ 17 ∷ []))))
          ++ drop 40 (build_ipv6_udp src src_port dst dst_port payload))
        ≡ 0)
      × (take 2 (drop 46 (build_ipv6_udp src src_port dst dst_port payload))
          ≡ be16 (
              checksum (
                (be128 src ++ (be128 dst ++ (be32 (8 + length payload) ++ (0 ∷ 0 ∷ 0 ∷ 17 ∷ []))))
                ++ (be16 src_port
                    ++ (be16 dst_port ++ (be16 (8 + length payload) ++ (be16 0 ++ payload)))))))
      × (take 32 (drop 8 (build_ipv6_udp src src_port dst dst_port payload))
          ≡ be128 src ++ be128 dst)
      × (length (build_ipv6_udp src src_port dst dst_port payload) ≡ 48 + length payload)
unfolding build_ipv6_udp
build_ipv6_udp-checksum src src_port dst dst_port payload bytes short =
    let udp_len : ℕ = 8 + length payload in
    (
      udp_part_verifies (pseudo6 src dst udp_len) src_port dst_port payload
          (pseudo6-AreBytes src dst udp_len (udp_front src_port dst_port udp_len)
            (udp_front-AreBytes src_port dst_port udp_len))
          refl bytes (omega arith),
      refl,
      refl,
      omega arith,
    )
