-- ===== src/Handshake/Templates.antt =====
-- crypto/handshake_cache.rs: the test of a template, its adaptation to a client, and the last resort.
use mirage_android.Prelude.{
  ℕ, zero, suc, ◌+◌, ◌-◌, ◌*◌, ◌%◌, ◌^◌, Bool, true, false, Option, none, some, List, [], ◌∷◌, ◌++◌,
  if◌then◌else◌, Text, length, take, drop, ltb, leb, ◌==◌, ◌&&◌, ◌||◌,
}
use mirage_android.Dns.Wire.{be16}
use mirage_android.Hello.Parts.{be24}

-- Which types of records were seen: ServerHello, ChangeCipherSpec, encrypted data.
pub record Seen : Type 0 where
  pub sh : Bool
  pub ccs : Bool
  pub enc : Bool

unfoldable pub mark : ℕ → Seen → Seen
mark ct s =
    if ct == 0x16
    then record s { sh = true }
    else if ct == 0x14
    then record s { ccs = true }
    else if ct == 0x17
    then record s { enc = true }
    else s

-- All of them, and no byte left over.
abbrev pub at_end : Text → Seen → Bool
at_end [] s = s.sh && s.ccs && s.enc
at_end (b ∷ bs) s = false

-- The `while pos + 5 <= t.len()` loop.
unfoldable pub record_loop : ℕ → Text → Seen → Bool
unfolding mark
record_loop (suc fuel) (ct ∷ v₁ ∷ v₀ ∷ a ∷ b ∷ rest) s =
    let len : ℕ = a * 256 + b in
    let more = record_loop fuel (drop len rest) (mark ct s) in
    if ltb (length rest) len then false else more
record_loop _ t s = at_end t s

abbrev pub unseen : Seen
unseen = record { sh = false; ccs = false; enc = false }

unfoldable pub template_is_complete : Text → Bool
unfolding record_loop
template_is_complete t = record_loop (length t) t unseen

abbrev pub clamped : ℕ → ℕ → ℕ
clamped top n = if ltb top n then top else n

-- A length that changes by as much as the session id does; it does not fall below zero.
abbrev pub resized : ℕ → ℕ → ℕ → ℕ → ℕ
resized top old new_sid old_sid = clamped top (old + new_sid - old_sid)

-- The session id of a message, from its length on, and what follows it.
abbrev pub with_sid : Text → Text → (ℕ → Text → Text) → Text
with_sid flight [] k = flight
with_sid flight (sid_len ∷ more) k = if ltb (length more) sid_len then flight else k sid_len more

-- The client's session id and fresh random bytes are put in, and the two lengths corrected.
unfoldable pub patch_server_hello : Text → Text → Text → Text
patch_server_hello new_random (t₀ ∷ v₁ ∷ v₀ ∷ l₁ ∷ l₀ ∷ h₀ ∷ h₁ ∷ h₂ ∷ h₃ ∷ w₁ ∷ w₀ ∷ body) sid =
    let flight : Text = t₀ ∷ v₁ ∷ v₀ ∷ l₁ ∷ l₀ ∷ h₀ ∷ h₁ ∷ h₂ ∷ h₃ ∷ w₁ ∷ w₀ ∷ body in
    if t₀ == 0x16
    then with_sid flight (drop 32 body) (λ sid_len more.
      let record_len = resized (2 ^ 16 - 1) (l₁ * 256 + l₀) (length sid) sid_len in
      let hs_len = resized (2 ^ 24 - 1) (h₁ * 2 ^ 16 + h₂ * 2 ^ 8 + h₃) (length sid) sid_len in
      t₀
      ∷ v₁
      ∷ v₀
      ∷ (be16 record_len
          ++ (h₀
              ∷ (be24 hs_len
                  ++ (w₁ ∷ w₀ ∷ (new_random ++ (length sid % 256 ∷ (sid ++ drop sid_len more))))))))
    else flight
patch_server_hello new_random flight sid = flight

abbrev pub sid_at : Text → Option Text
sid_at [] = none
sid_at (sid_len ∷ rest) = if ltb (length rest) sid_len then none else some (take sid_len rest)

unfoldable pub get_session_id : Text → Option Text
get_session_id client_hello = sid_at (drop 43 client_hello)

-- The pairs of bytes; an odd last byte is left out.
abbrev pub pairs : Text → List ℕ
pairs [] = []
pairs (a ∷ []) = []
pairs (a ∷ b ∷ rest) = (a * 256 + b) ∷ pairs rest

abbrev pub has : List ℕ → ℕ → Bool
has [] w = false
has (x ∷ xs) w = x == w || has xs w

abbrev pub preferred : List ℕ → ℕ
preferred offered =
    if has offered 0x1302
    then 0x1302
    else if has offered 0x1301
    then 0x1301
    else if has offered 0x1303
    then 0x1303
    else 0x1301

abbrev pub offered_in : Text → List ℕ
offered_in (a ∷ b ∷ rest) = pairs (take (a * 256 + b) rest)
offered_in _ = []

abbrev pub behind_sid : Text → Text
behind_sid [] = []
behind_sid (sid_len ∷ rest) = drop sid_len rest

-- The cipher suite, by the server's preference among those that the client offers.
unfoldable pub pick_cipher : Text → ℕ
pick_cipher client_hello = preferred (offered_in (behind_sid (drop 43 client_hello)))

-- The random bytes of the last resort, and how long its encrypted part is.
pub record Filler : Type 0 where
  pub random : Text
  pub key_share : Text
  pub flight : Text

abbrev pub fallback_exts : Filler → Text
fallback_exts r =
    0x00 ∷ 0x2b ∷ 0x00 ∷ 0x02 ∷ 0x03 ∷ 0x04 ∷ 0x00 ∷ 0x33 ∷ 0x00 ∷ 0x24 ∷ 0x00 ∷ 0x1d ∷ 0x00 ∷ 0x20
    ∷ r.key_share

abbrev pub fallback_body : Filler → Text → Text → Text
fallback_body r client_hello sid =
    0x03
    ∷ 0x03
    ∷ (r.random
        ++ (length sid % 256
            ∷ (sid
                ++ (be16 (pick_cipher client_hello)
                    ++ (0x00 ∷ (be16 (length (fallback_exts r)) ++ fallback_exts r))))))

-- A record of a type, with its length.
abbrev pub tls_record : ℕ → Text → Text
tls_record ct body = ct ∷ 0x03 ∷ 0x03 ∷ (be16 (length body) ++ body)

unfoldable pub fallback_server_hello : Filler → Text → Text → Text
fallback_server_hello r client_hello sid =
    let body = fallback_body r client_hello sid in
    tls_record 0x16 (0x02 ∷ (be24 (length body) ++ body))
    ++ (tls_record 0x14 (0x01 ∷ []) ++ tls_record 0x17 r.flight)

-- The random bytes of the ServerHello are replaced, where it has some.
unfoldable pub override_random : Option Text → Text → Text
override_random (some pk) (t₀ ∷ flight) =
    if leb 42 (length flight) && t₀ == 0x16
    then t₀ ∷ (take 10 flight ++ (pk ++ drop 42 flight))
    else t₀ ∷ flight
override_random _ flight = flight

-- What a call finds outside: whether another task is filling the cache, and the templates that it
-- leaves or that are fetched.
pub record Outside : Type 0 where
  pub warming : Bool
  pub templates : List Text
  pub filler : Filler
  pub drawn : ℕ
  pub new_random : Text

abbrev pub element : List Text → ℕ → Text
element [] i = []
element (x ∷ xs) zero = x
element (x ∷ xs) (suc i) = element xs i

abbrev pub sid_of : Option Text → Text
sid_of none = []
sid_of (some sid) = sid

abbrev pub warmed : Outside → Text → Text → List Text → List Text
warmed o client_hello sid (t ∷ ts) = t ∷ ts
warmed o client_hello sid [] =
    if o.warming
    then o.templates
    else if length o.templates == 0
    then fallback_server_hello o.filler client_hello sid ∷ []
    else o.templates

abbrev pub answered : Outside → Text → Text → List Text → Text
answered o client_hello sid [] = fallback_server_hello o.filler client_hello sid
answered o client_hello sid (t ∷ ts) =
    patch_server_hello o.new_random (element (t ∷ ts) (o.drawn % length (t ∷ ts))) sid

-- The cache after a call, and the answer.
unfoldable pub get_server_hello_pfs : Outside → List Text → Text → Option Text → List Text × Text
get_server_hello_pfs o cache client_hello override =
    let sid = sid_of (get_session_id client_hello) in
    let cache' = warmed o client_hello sid cache in
    (cache', override_random override (answered o client_hello sid cache'))
