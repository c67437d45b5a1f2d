-- ===== src/Tests/Resolvers.antt =====
-- The resolver's cache and its messages at concrete inputs.
use mirage_android.Prelude.{
  ◌≤◌, ◌≡◌, refl, true, Option, none, some, [], ◌∷◌, arith, Text, text_key, length, All,
}
use mirage_android.Data.Maps.{Map, get, IsMap, same_refl}
use mirage_android.Data.Texts.{bytes, dot, clean_domain, trim_end_matches}
use mirage_android.Data.Numerals.{ipv4, split}
use mirage_android.Net.Address.{v4}
use mirage_android.Dns.Cache.{
  Cached, direct_cache_max, GivesKey, insert_direct_cache, is_dynamic_direct_domain,
  direct_dns_lookup, insert_direct_cache-lookup,
}
use mirage_android.Dns.Wire.{build_a_query, parse_query, build_response, parse_a_answer}
use mirage_android.Dns.RoundTrip.{IsLabel, parse_query-build_a_query}
use mirage_android.Dns.Answers.{parse_a_answer-build_response}

abbrev first_key : Map Text Cached → Option Text
first_key [] = none
first_key ((d, c) ∷ m) = some d

gives_key : GivesKey first_key
unfolding get
gives_key [] h = absurd (omega arith)
gives_key ((d, c) ∷ m) h = (d, c, refl, rw (same_refl d) refl)

abbrev name : Text
name = bytes "Www.Example.cn."

abbrev cache : Map Text Cached
cache = insert_direct_cache first_key 5 name (ipv4 1 0 1 1) true []

same_name : clean_domain (bytes "www.EXAMPLE.cn") ≡ clean_domain name
unfolding clean_domain
same_name = refl

insert_direct_cache-lookup_example :
    IsMap cache
    × (length cache ≤ direct_cache_max)
    × (is_dynamic_direct_domain 900 (bytes "www.EXAMPLE.cn") cache ≡ some true)
    × (direct_dns_lookup 900 (bytes "www.EXAMPLE.cn") cache ≡ some (v4 (ipv4 1 0 1 1)))
insert_direct_cache-lookup_example =
    insert_direct_cache-lookup first_key 5 900 name (bytes "www.EXAMPLE.cn") (ipv4 1 0 1 1) true []
      gives_key tt (omega arith) same_name (omega arith)

labels_fit : All IsLabel (split dot (trim_end_matches dot name))
unfolding split trim_end_matches
labels_fit = (
  (omega arith, omega arith, (omega arith, (omega arith, (omega arith, tt)))),
  (
    (
      omega arith,
      omega arith,
      (
        omega arith,
        (
          omega arith,
          (omega arith, (omega arith, (omega arith, (omega arith, (omega arith, tt))))),
        ),
      ),
    ),
    ((omega arith, omega arith, (omega arith, (omega arith, tt))), tt),
  ),
)

parse_query-build_a_query_example :
    parse_query (build_a_query name 7) ≡ some (clean_domain name, 1, length (build_a_query name 7))
parse_query-build_a_query_example = parse_query-build_a_query name 7 labels_fit

query_read : parse_query (build_a_query name 7) ≡ some (bytes "www.example.cn", 1, 32)
unfolding parse_query build_a_query
query_read = refl

abbrev query : Text
query = build_a_query (bytes "a.cn") 7

query_long : 12 ≤ length query
unfolding build_a_query
query_long = omega arith

query_fits : 22 ≤ length query
unfolding build_a_query
query_fits = omega arith

parse_a_answer-build_response_example :
    (answer empty : Text) × (build_response query (bytes "a.cn") 1 (some (1 ∷ 0 ∷ 1 ∷ 1 ∷ [])) 22 0
      ≡ some answer)
    × (build_response query (bytes "a.cn") 28 none 22 0 ≡ some empty)
    × (parse_a_answer answer 6 ≡ some (1 ∷ 0 ∷ 1 ∷ 1 ∷ []))
    × (parse_a_answer empty 6 ≡ none)
parse_a_answer-build_response_example =
    parse_a_answer-build_response query (bytes "a.cn") (1 ∷ 0 ∷ 1 ∷ 1 ∷ []) 22 0 query_long
      (omega arith) query_fits refl
