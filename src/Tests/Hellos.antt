-- ===== src/Tests/Hellos.antt =====
-- Client hellos and the server's answers at concrete inputs.
use mirage_android.Prelude.{
  ℕ, zero, suc, ◌≡◌, refl, true, some, [], ◌∷◌, ◌++◌, arith, Text, length, text_eq, contains,
}
use mirage_android.Data.Texts.{bytes, clean_domain}
use mirage_android.Data.Lossy.{from_utf8_lossy, lossy_loop}
use mirage_android.Hello.Parts.{Draws, IsDraws}
use mirage_android.Hello.Browsers.{chromium, build_with_profile}
use mirage_android.Sniffer.Tls.{is_utf8, parse_tls_sni}
use mirage_android.Sniffer.Profiles.{parse_tls_sni-build_with_profile}

abbrev filled : ℕ → Text
filled zero = []
filled (suc n) = 7 ∷ filled n

length-filled : (n : ℕ) → length (filled n) ≡ n
length-filled zero = refl
length-filled (suc n) = omega (arith, length-filled n)

abbrev drawn : Draws
drawn = record {
  fill = λ call n. filled n;
  below = λ call n. 0;
  g_cipher = 0x0A0A;
  g_first = 0x0A0A;
  g_last = 0x1A1A;
  g_versions = 0x2A2A;
  g_groups = 0x3A3A;
  g_key_share = 0x4A4A;
  aead = 1;
}

drawn-IsDraws : IsDraws drawn
unfolding contains
drawn-IsDraws = record {
  length-fill = λ call n. length-filled n;
  below-lt = λ call n h. h;
  first_grease = refl;
  last_grease = refl;
  ends_differ = ground arith;
}

host_utf8 : is_utf8 (bytes "a.Cn") ≡ true
unfolding is_utf8 from_utf8_lossy text_eq lossy_loop
host_utf8 = refl

parse_tls_sni-build_with_profile_example :
    parse_tls_sni
      (build_with_profile drawn chromium (bytes "a.Cn") (filled 32) (filled 32) ++ (1 ∷ 2 ∷ []))
    ≡ some (clean_domain (bytes "a.Cn"))
parse_tls_sni-build_with_profile_example =
    parse_tls_sni-build_with_profile drawn chromium (bytes "a.Cn") (filled 32) (filled 32)
      (1 ∷ 2 ∷ []) drawn-IsDraws (omega arith) host_utf8 refl refl
