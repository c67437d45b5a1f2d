-- ===== src/Net/Address.antt =====
-- direct.rs, geo.rs: addresses, the fake-IP test, the private ranges.
use mirage_android.Prelude.{
  ℕ, ◌-◌, ◌*◌, ◌/◌, ◌%◌, ◌^◌, Bool, false, ◌&&◌, ◌||◌, if◌then◌else◌, ◌==◌, bit_and,
}
use mirage_android.Data.Numerals.{ipv4}

-- A 32-bit or a 128-bit word.
pub data IpAddr : Type 0 where
  v4 : ℕ → IpAddr
  v6 : ℕ → IpAddr

-- `==` on addresses.
unfoldable pub ip_eq : IpAddr → IpAddr → Bool
ip_eq (v4 a) (v4 b) = a == b
ip_eq (v4 a) (v6 b) = false
ip_eq (v6 a) (v4 b) = false
ip_eq (v6 a) (v6 b) = a == b

unfoldable pub is_fake_ip : IpAddr → Bool
is_fake_ip (v4 u) = bit_and u 0xFFFE0000 == 0xC6120000
is_fake_ip (v6 u) = false

-- The clauses of `is_private_ip` on a 32-bit word.
unfoldable pub is_private_v4 : ℕ → Bool
is_private_v4 u =
    bit_and u 0xFF000000 == 0x0A000000
    || (bit_and u 0xFFF00000 == 0xAC100000
        || (bit_and u 0xFFFF0000 == 0xC0A80000
            || (bit_and u 0xFF000000 == 0x7F000000
                || (bit_and u 0xFFFF0000 == 0xA9FE0000
                    || (bit_and u 0xFFC00000 == 0x64400000
                        || (bit_and u 0xF0000000 == 0xE0000000
                            || (bit_and u 0xF0000000 == 0xF0000000
                                || bit_and u 0xFF000000 == 0)))))))

-- `segments()[i]`, from the left.
unfoldable pub segment : ℕ → ℕ → ℕ
segment u i = u / 2 ^ (16 * (7 - i)) % 2 ^ 16

-- The IPv4 address in the last two segments of an IPv4-mapped address.
unfoldable pub mapped_v4 : ℕ → ℕ
unfolding segment
mapped_v4 u =
    ipv4 (segment u 6 / 256) (bit_and (segment u 6) 0xFF) (segment u 7 / 256)
      (bit_and (segment u 7) 0xFF)

unfoldable pub is_mapped : ℕ → Bool
unfolding segment
is_mapped u =
    segment u 0 == 0
    && (segment u 1 == 0
        && (segment u 2 == 0 && (segment u 3 == 0 && (segment u 4 == 0 && segment u 5 == 0xFFFF))))

-- The recursive call is on an IPv4 address, so it is written out.
unfoldable pub is_private_v6 : ℕ → Bool
unfolding segment is_mapped mapped_v4 is_fake_ip is_private_v4
is_private_v6 u =
    u == 1
    || (u == 0
        || (bit_and (segment u 0) 0xFFC0 == 0xFE80
            || (bit_and (segment u 0) 0xFE00 == 0xFC00
                || (bit_and (segment u 0) 0xFF00 == 0xFF00
                    || (is_mapped u
                        && (if is_fake_ip (v4 (mapped_v4 u))
                            then false
                            else is_private_v4 (mapped_v4 u)))))))

abbrev private_address : IpAddr → Bool
private_address (v4 u) = is_private_v4 u
private_address (v6 u) = is_private_v6 u

unfoldable pub is_private_ip : IpAddr → Bool
unfolding is_fake_ip is_private_v4 is_private_v6
is_private_ip ip = if is_fake_ip ip then false else private_address ip
