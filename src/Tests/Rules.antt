-- ===== src/Tests/Rules.antt =====
-- Conditions and ports from text, at concrete inputs.
use mirage_android.Prelude.{◌≡◌, refl, some, [], ◌∷◌, Text}
use mirage_android.Data.Texts.{bytes}
use mirage_android.Router.Rules.{domain_suffix}
use mirage_android.Router.Parse.{parse_ports, ArePorts, parse_ports-ArePorts, parse_condition_kind}
use mirage_android.Tests.Geos.{plain_engine}

abbrev ports_text : Text
ports_text = bytes "80, 443,8000-8080,9-1,x"

ports_read : parse_ports ports_text ≡ (80 ∷ 443 ∷ [], (8000, 8080) ∷ [])
unfolding parse_ports
ports_read = refl

parse_ports-ArePorts_example : ArePorts (parse_ports ports_text)
parse_ports-ArePorts_example = parse_ports-ArePorts ports_text

nonsense_is_suffix :
    parse_condition_kind plain_engine (bytes "nonsense") (bytes "Example.COM")
    ≡ some (domain_suffix (bytes "example.com"))
unfolding parse_condition_kind
nonsense_is_suffix = refl
