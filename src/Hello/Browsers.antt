-- ===== src/Hello/Browsers.antt =====
-- crypto/tls_raw.rs: the messages of the imitated browsers.
use mirage_android.Prelude.{
  ℕ, zero, suc, ◌+◌, ◌-◌, List, [], ◌∷◌, ◌++◌, if◌then◌else◌, Text, length, ltb,
}
use mirage_android.Data.Texts.{bytes}
use mirage_android.Dns.Wire.{be16}
use mirage_android.Hello.Parts.{
  Draws, ext, sni_ext, assemble, counted16, words, concat, mlkem768_valid_encap_key,
}

abbrev pub chromium_ciphers : List ℕ
chromium_ciphers =
    0x1301 ∷ 0x1302 ∷ 0x1303 ∷ 0xC02B ∷ 0xC02F ∷ 0xC02C ∷ 0xC030 ∷ 0xCCA9 ∷ 0xCCA8 ∷ 0xC013 ∷ 0xC014
    ∷ 0x009C ∷ 0x009D ∷ 0x002F ∷ 0x0035 ∷ []

abbrev pub chromium_groups : List ℕ
chromium_groups = 0x11EC ∷ 0x001D ∷ 0x0017 ∷ 0x0018 ∷ []

abbrev pub sigalgs : Text
sigalgs =
    0x00 ∷ 0x16 ∷ 0x09 ∷ 0x04 ∷ 0x09 ∷ 0x05 ∷ 0x09 ∷ 0x06 ∷ 0x04 ∷ 0x03 ∷ 0x08 ∷ 0x04 ∷ 0x04 ∷ 0x01
    ∷ 0x05 ∷ 0x03 ∷ 0x08 ∷ 0x05 ∷ 0x05 ∷ 0x01 ∷ 0x08 ∷ 0x06 ∷ 0x06 ∷ 0x01 ∷ []

abbrev pub alpn : Text
alpn = 0x00 ∷ 0x0c ∷ 0x02 ∷ (bytes "h2" ++ (0x08 ∷ bytes "http/1.1"))

abbrev pub alps : Text
alps = 0x00 ∷ 0x03 ∷ 0x02 ∷ bytes "h2"

abbrev pub cert_compress : Text
cert_compress = 0x02 ∷ 0x00 ∷ 0x02 ∷ []

abbrev pub status_request : Text
status_request = 0x01 ∷ 0x00 ∷ 0x00 ∷ 0x00 ∷ 0x00 ∷ []

abbrev pub ec_point_formats : Text
ec_point_formats = 0x01 ∷ 0x00 ∷ []

abbrev pub psk_modes : Text
psk_modes = 0x01 ∷ 0x01 ∷ []

-- The share of X25519MLKEM768.
abbrev pub hybrid_share : Draws → Text
hybrid_share d = be16 0x11EC ++ (be16 1216 ++ (mlkem768_valid_encap_key d ++ d.fill 1 32))

abbrev pub x25519_share : Draws → Text
x25519_share d = be16 0x001D ++ (be16 32 ++ d.fill 2 32)

abbrev pub grease_share : ℕ → Text
grease_share g = be16 g ++ (be16 1 ++ (0x00 ∷ []))

-- A GREASE ECH extension with a payload of so many bytes.
abbrev pub ech_body : Draws → ℕ → ℕ → Text
ech_body d aead payload =
    0x00
    ∷ (be16 0x0001
        ++ (be16 aead
            ++ (d.fill 3 1 ++ (be16 32 ++ (d.fill 4 32 ++ (be16 payload ++ d.fill 5 payload))))))

-- `build_okhttp`, its extensions in their order.
unfoldable pub okhttp_before : Draws → List Text
okhttp_before d = ext d.g_first [] ∷ []

unfoldable pub okhttp_after : Draws → List Text
okhttp_after d =
    ext 0x0017 []
    ∷ ext 0xff01 (0x00 ∷ [])
    ∷ ext 0x000a (counted16 (words (d.g_groups ∷ 0x001d ∷ 0x0017 ∷ 0x0018 ∷ [])))
    ∷ ext 0x000b ec_point_formats
    ∷ ext 0x0023 []
    ∷ ext 0x0010 alpn
    ∷ ext 0x0005 status_request
    ∷ ext 0x000d (
        0x00
        ∷ 0x10
        ∷ words (0x0403 ∷ 0x0804 ∷ 0x0401 ∷ 0x0503 ∷ 0x0805 ∷ 0x0501 ∷ 0x0806 ∷ 0x0601 ∷ []))
    ∷ ext 0x0012 []
    ∷ ext 0x0033 (counted16 (grease_share d.g_key_share ++ x25519_share d))
    ∷ ext 0x002d psk_modes
    ∷ ext 0x002b (10 ∷ words (d.g_versions ∷ 0x0304 ∷ 0x0303 ∷ 0x0302 ∷ 0x0301 ∷ []))
    ∷ ext 0x001b cert_compress
    ∷ ext d.g_last (0x00 ∷ [])
    ∷ []

abbrev pub zeros : ℕ → Text
zeros zero = []
zeros (suc n) = 0 ∷ zeros n

abbrev pub grease_ciphers : Draws → Text
grease_ciphers d = words (d.g_cipher ∷ chromium_ciphers)

-- The padding that brings a message of so many bytes to 512.
abbrev pub okhttp_padding : ℕ → Text
okhttp_padding payload =
    if ltb (payload + 4) 512 then ext 0x0015 (zeros (512 - payload - 4)) else []

unfoldable pub build_okhttp : Draws → Text → Text → Text → Text
build_okhttp d sni session_id client_random =
    let exts_bytes = concat (okhttp_before d) ++ (sni_ext sni ++ concat (okhttp_after d)) in
    let trial = assemble session_id client_random (grease_ciphers d) exts_bytes in
    assemble session_id client_random (grease_ciphers d)
      (exts_bytes ++ okhttp_padding (length trial - 5))

abbrev pub firefox_ciphers : List ℕ
firefox_ciphers =
    0x1301 ∷ 0x1303 ∷ 0x1302 ∷ 0xc02b ∷ 0xc02f ∷ 0xcca9 ∷ 0xcca8 ∷ 0xc02c ∷ 0xc030 ∷ 0xc00a ∷ 0xc013
    ∷ 0xc014 ∷ 0x009c ∷ 0x009d ∷ 0x002f ∷ 0x0035 ∷ []

-- `build_firefox`: the name stands first.
unfoldable pub firefox_after : Draws → List Text
firefox_after d =
    ext 0x0017 []
    ∷ ext 0xff01 (0x00 ∷ [])
    ∷ ext 0x000a
        (counted16 (words (0x11ec ∷ 0x001d ∷ 0x0017 ∷ 0x0018 ∷ 0x0019 ∷ 0x0100 ∷ 0x0101 ∷ [])))
    ∷ ext 0x000b ec_point_formats
    ∷ ext 0x0023 []
    ∷ ext 0x0010 alpn
    ∷ ext 0x0005 status_request
    ∷ ext 0x0022 (0x00 ∷ 0x08 ∷ words (0x0403 ∷ 0x0503 ∷ 0x0603 ∷ 0x0203 ∷ []))
    ∷ ext 0x0012 []
    ∷ ext 0x0033 (
        counted16 (
          hybrid_share d ++ (x25519_share d ++ (be16 0x0017 ++ (be16 65 ++ (0x04 ∷ d.fill 6 64))))))
    ∷ ext 0x002b (0x04 ∷ 0x03 ∷ 0x04 ∷ 0x03 ∷ 0x03 ∷ [])
    ∷ ext 0x000d (
        0x00
        ∷ 0x16
        ∷ words (
            0x0403 ∷ 0x0503 ∷ 0x0603 ∷ 0x0804 ∷ 0x0805 ∷ 0x0806 ∷ 0x0401 ∷ 0x0501 ∷ 0x0601 ∷ 0x0203
            ∷ 0x0201 ∷ []))
    ∷ ext 0x002d psk_modes
    ∷ ext 0x001c (0x40 ∷ 0x01 ∷ [])
    ∷ ext 0x001b (0x06 ∷ words (0x0001 ∷ 0x0002 ∷ 0x0003 ∷ []))
    ∷ ext 0xfe0d (ech_body d d.aead 239)
    ∷ []

unfoldable pub build_firefox : Draws → Text → Text → Text → Text
build_firefox d sni session_id client_random =
    assemble session_id client_random (words firefox_ciphers)
      (sni_ext sni ++ concat (firefox_after d))

-- `build_chromium`, the extensions between the first and the last before they are shuffled.
unfoldable pub chromium_middle : Draws → Text → List Text
chromium_middle d sni =
    ext 0x002b (6 ∷ words (d.g_versions ∷ 0x0304 ∷ 0x0303 ∷ []))
    ∷ ext 0xfe0d (ech_body d 0x0001 208)
    ∷ ext 0x000b ec_point_formats
    ∷ ext 0x0017 []
    ∷ ext 0x000a (counted16 (words (d.g_groups ∷ chromium_groups)))
    ∷ ext 0x002d psk_modes
    ∷ ext 0x0023 []
    ∷ ext 0xff01 (0x00 ∷ [])
    ∷ ext 0x0010 alpn
    ∷ ext 0x0005 status_request
    ∷ ext 0x0012 []
    ∷ sni_ext sni
    ∷ ext 0x44cd alps
    ∷ ext 0x000d sigalgs
    ∷ ext 0x0033 (counted16 (grease_share d.g_key_share ++ (hybrid_share d ++ x25519_share d)))
    ∷ ext 0x001b cert_compress
    ∷ []

abbrev pub set_at : List Text → ℕ → Text → List Text
set_at [] i v = []
set_at (x ∷ xs) zero v = v ∷ xs
set_at (x ∷ xs) (suc i) v = x ∷ set_at xs i v

abbrev pub text_at : List Text → ℕ → Text
text_at [] i = []
text_at (x ∷ xs) zero = x
text_at (x ∷ xs) (suc i) = text_at xs i

unfoldable pub swap : List Text → ℕ → ℕ → List Text
swap xs i j = set_at (set_at xs i (text_at xs j)) j (text_at xs i)

-- `for i in (1..len).rev()`, from the greatest place down.
unfoldable pub shuffle : Draws → ℕ → List Text → List Text
unfolding swap
shuffle d zero xs = xs
shuffle d (suc i) xs = shuffle d i (swap xs (suc i) (d.below (1000 + i) (suc i + 1)))

unfoldable pub build_chromium : Draws → Text → Text → Text → Text
build_chromium d sni session_id client_random =
    let middle = chromium_middle d sni in
    assemble session_id client_random (grease_ciphers d) (
      ext d.g_first []
      ++ (concat (shuffle d (length middle - 1) middle) ++ ext d.g_last (0x00 ∷ [])))

pub data Profile : Type 0 where
  chromium firefox ok_http : Profile

unfoldable pub build_with_profile : Draws → Profile → Text → Text → Text → Text
unfolding build_chromium build_firefox build_okhttp
build_with_profile d chromium sni session_id client_random =
    build_chromium d sni session_id client_random
build_with_profile d firefox sni session_id client_random =
    build_firefox d sni session_id client_random
build_with_profile d ok_http sni session_id client_random =
    build_okhttp d sni session_id client_random
