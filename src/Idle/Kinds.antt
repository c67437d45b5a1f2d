-- ===== src/Idle/Kinds.antt =====
-- tun/adaptive_idle.rs, attribution.rs: the kinds of traffic and the tests on ports, addresses and names.
use mirage_android.Prelude.{
  ℕ, Bool, false, List, [], ◌∷◌, map, if◌then◌else◌, Text, any, ◌==◌, bit_and, contains, number_key,
}
use mirage_android.Data.Texts.{bytes, dot, is_under, trim_end_matches, contains_text}
use mirage_android.Net.Address.{IpAddr, v4, v6}
use mirage_android.Idle.Names.{cdn_suffixes, im_suffixes}

pub data TrafficCategory : Type 0 where
  interactive : TrafficCategory
  media_cdn : TrafficCategory
  push_im : TrafficCategory
  general_api : TrafficCategory

abbrev pub default_idle_secs : TrafficCategory → ℕ
default_idle_secs interactive = 300
default_idle_secs media_cdn = 10
default_idle_secs push_im = 900
default_idle_secs general_api = 30

-- In seconds.
unfoldable pub idle_timeout : TrafficCategory → Bool → ℕ
idle_timeout interactive is_active = 300
idle_timeout media_cdn is_active = if is_active then 10 else 15
idle_timeout push_im is_active = 900
idle_timeout general_api is_active = if is_active then 30 else 15

pub data CloseReason : Type 0 where
  client_closed : CloseReason
  server_closed : CloseReason
  idle_timeout_hit : CloseReason
  error : CloseReason

unfoldable pub is_interactive_port : ℕ → Bool
unfolding contains
is_interactive_port p = contains (22 ∷ 23 ∷ 3389 ∷ []) p

unfoldable pub is_im_or_push_port : ℕ → Bool
unfolding contains
is_im_or_push_port p = contains (14000 ∷ 5228 ∷ 5229 ∷ 5230 ∷ 5222 ∷ 5223 ∷ []) p

-- The masks and networks of the address blocks.
abbrev im_blocks : List (ℕ × ℕ)
im_blocks =
    (0xFFFE0000, 0xB7020000)
    ∷ (0xFFFC0000, 0xB7040000)
    ∷ (0xFFF80000, 0x78E80000)
    ∷ (0xFFF80000, 0x78F00000)
    ∷ (0xFFFF0000, 0x0E110000)
    ∷ (0xFFFE0000, 0x0E120000)
    ∷ (0xFFFF0000, 0x0ED70000)
    ∷ (0xFFFE0000, 0x71600000)
    ∷ (0xFFFF0000, 0x716C0000)
    ∷ (0xFFFF0000, 0x81E20000)
    ∷ (0xFFFE0000, 0x771C0000)
    ∷ (0xFFFE0000, 0x65200000)
    ∷ (0xFFF00000, 0x2B800000)
    ∷ (0xFFFF0000, 0x966D0000)
    ∷ (0xFFFF0000, 0xA20E0000)
    ∷ []

unfoldable pub is_tencent_or_im_ip : IpAddr → Bool
unfolding any
is_tencent_or_im_ip (v4 u) = any (λ block. bit_and u (block.0) == block.1) im_blocks
is_tencent_or_im_ip (v6 u) = false

unfoldable pub is_image_or_media_cdn : Text → Bool
unfolding any is_under trim_end_matches cdn_suffixes
is_image_or_media_cdn host = any (is_under (trim_end_matches dot host)) cdn_suffixes

unfoldable pub is_push_or_im_service : Text → Bool
unfolding any is_under trim_end_matches im_suffixes
is_push_or_im_service host = any (is_under (trim_end_matches dot host)) im_suffixes

unfoldable pub im_packages : List Text
im_packages = map bytes (
    "tencent.mm" ∷ "tencent.mobileqq" ∷ "tencent.tim" ∷ "alibaba.android.rimet" ∷ "ss.android.lark"
    ∷ "larksuite" ∷ "telegram" ∷ "whatsapp" ∷ "discord" ∷ "signal" ∷ "line" ∷ "slack" ∷ "matrix"
    ∷ "element" ∷ "teams" ∷ "skype" ∷ "google.android.talk" ∷ "google.android.gms" ∷ [])

-- The lower case of Unicode text is an argument.
unfoldable pub is_im_or_push_package : (Text → Text) → Text → Bool
unfolding any contains_text im_packages
is_im_or_push_package to_lowercase pkg = any (contains_text (to_lowercase pkg)) im_packages
