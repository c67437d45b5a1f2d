-- ===== src/Tests/Nets.antt =====
-- Addresses and blocks at concrete inputs.
use mirage_android.Prelude.{refl, some, Text, ◌-◌, ◌/◌, ◌^◌, ◌≡◌, ◌↔◌, true, arith, any}
use mirage_android.Data.Numerals.{ipv4}
use mirage_android.Net.Address.{v4, is_private_ip}
use mirage_android.Net.Cidr.{new_v4, contains_v4, contains_v4-new_v4}
use mirage_android.Data.Texts.{bytes}
use mirage_android.Net.Domains.{default_router_ip_for_domain}
use mirage_android.Net.Private.{is_private_ip-ranges}

contains_v4-new_v4_example :
    (contains_v4 (new_v4 (ipv4 10 1 2 3) 8) (ipv4 10 200 0 1) ≡ true)
    ↔ (ipv4 10 200 0 1 / 2 ^ (32 - 8) ≡ ipv4 10 1 2 3 / 2 ^ (32 - 8))
contains_v4-new_v4_example =
    contains_v4-new_v4 (ipv4 10 1 2 3) 8 (ipv4 10 200 0 1) (omega arith) (omega arith) (omega arith)

is_private_ip-ranges_example : is_private_ip (v4 (ipv4 172 31 0 1)) ≡ true
unfolding any
is_private_ip-ranges_example = is_private_ip-ranges (ipv4 172 31 0 1) (omega arith)

abbrev router_page : Text
router_page = bytes "Www.miwifi.com."

router_page_answer : default_router_ip_for_domain router_page ≡ some (v4 (ipv4 192 168 31 1))
unfolding default_router_ip_for_domain
router_page_answer = refl
