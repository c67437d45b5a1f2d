-- ===== src/Pool/Answer.antt =====
-- proxy/pool.rs with crypto/handshake_cache.rs: the client reads what the server answers.
use mirage_android.Prelude.{
  ℕ, suc, ◌+◌, ◌*◌, ◌/◌, ◌%◌, ◌^◌, ◌≤◌, ◌<◌, ◌≡◌, refl, ap, subst, ◌∙◌, Bool, true, false, List, [],
  ◌∷◌, ◌++◌, arith, if◌then◌else◌, Text, length, take, drop, ltb, ltb-ge, leb, ◌==◌, text_eq,
  length-append, take-append, drop-append,
}
use mathlib.Core.List.{append_assoc}
use mirage_android.Dns.Wire.{be16}
use mirage_android.Hello.Parts.{be24}
use mirage_android.Handshake.Templates.{
  mark, Filler, tls_record, fallback_server_hello, fallback_body, fallback_exts, pick_cipher, has,
  offered_in, behind_sid,
}
use mirage_android.Pool.Flight.{
  Found, ok, read_loop, read_server_handshake, noted, captured, checked, all_seen, not_found,
  no_random, suite_of,
}

-- A record at the front is read, and the loop ends or goes on behind it.
read_loop-tls_record :
    (fuel ct : ℕ) (closes : Bool) (body rest : Text) (f : Found)
    → length body < 2 ^ 16
    → (ct == 0x15) ≡ false
    → read_loop (suc fuel) closes (tls_record ct body ++ rest) f ≡ (
        if all_seen (noted ct body f).seen
        then (checked (noted ct body f).handshake, rest)
        else read_loop fuel closes rest (noted ct body f))
unfolding read_loop
read_loop-tls_record fuel ct closes body rest f h e =
    let size : length body / 256 % 256 * 256 + length body % 256 ≡ length body = omega arith in
    let fits : ltb (length (body ++ rest)) (length body) ≡ false =
      ltb-ge (length (body ++ rest)) (length body) (omega (arith, length-append body rest)) in
    rw (size, fits, e, take-append body rest, drop-append body rest) refl

if_below : (n : ℕ) (b : Bool) (x y : ℕ) → x < n → y < n → (if b then x else y) < n
if_below n true x y hx hy = hx
if_below n false x y hx hy = hy

pick_cipher_bound : (client_hello : Text) → pick_cipher client_hello < 2 ^ 16
unfolding pick_cipher
pick_cipher_bound client_hello =
    let offered : List ℕ = offered_in (behind_sid (drop 43 client_hello)) in
    if_below (2 ^ 16) (has offered 0x1302) 0x1302 _ (omega arith) (
      if_below (2 ^ 16) (has offered 0x1301) 0x1301 _ (omega arith)
        (if_below (2 ^ 16) (has offered 0x1303) 0x1303 0x1301 (omega arith) (omega arith)))

module _ (r : Filler) (client_hello sid : Text) (random_size : length r.random ≡ 32)
    (key_share_size : length r.key_share ≡ 32) (sid_fits : length sid ≤ 255)
    (flight_fits : length r.flight < 2 ^ 16) where
  abbrev suite : ℕ
  suite = pick_cipher client_hello

  abbrev back : Text
  back = be16 suite ++ (0x00 ∷ (be16 (length (fallback_exts r)) ++ fallback_exts r))

  abbrev hello : Text
  hello =
      0x02 ∷ (be24 (length (fallback_body r client_hello sid)) ++ fallback_body r client_hello sid)

  behind_random :
      drop 32 (r.random ++ (length sid % 256 ∷ (sid ++ back))) ≡ length sid % 256 ∷ (sid ++ back)
  behind_random =
      subst
        (λ (n : ℕ).
          drop n (r.random ++ (length sid % 256 ∷ (sid ++ back)))
          ≡ length sid % 256 ∷ (sid ++ back))
        random_size (drop-append r.random (length sid % 256 ∷ (sid ++ back)))

  random_read : take 32 (r.random ++ (length sid % 256 ∷ (sid ++ back))) ≡ r.random
  random_read =
      subst (λ (n : ℕ). take n (r.random ++ (length sid % 256 ∷ (sid ++ back))) ≡ r.random)
        random_size (take-append r.random (length sid % 256 ∷ (sid ++ back)))

  suite_read : suite_of (length sid % 256 ∷ (sid ++ back)) 0x1301 ≡ suite
  suite_read =
      let small : length sid % 256 ≡ length sid = omega arith in
      let bound = pick_cipher_bound client_hello in rw (small, drop-append sid back) (omega arith)

  -- The ServerHello tells its random bytes and the cipher suite.
  hello-captured :
      captured hello not_found ≡ record { server_random = r.random; cipher_suite = suite }
  hello-captured =
      let long : leb 38 (length hello) ≡ true =
        ground (arith, length-append r.random (length sid % 256 ∷ (sid ++ back))) in
      rw (long, random_read, behind_random, suite_read) refl

  hello_size : length hello < 2 ^ 16
  hello_size =
      omega
        (arith, length-append r.random (length sid % 256 ∷ (sid ++ back)), length-append sid back)

  -- A client that reads the flight that a server makes up (random bytes and key share of 32 bytes
  -- each, the random bytes not all zero, a session id of at most 255 bytes, an encrypted part
  -- below 2^16) accepts it, with the random bytes and the cipher suite that the server chose, and
  -- leaves what follows the flight unread, whether the stream closes or falls silent after it.
  pub read_server_handshake-fallback_server_hello :
      (closes : Bool) (more : Text)
      → text_eq r.random no_random ≡ false
      → read_server_handshake closes (fallback_server_hello r client_hello sid ++ more)
        ≡ (ok (record { server_random = r.random; cipher_suite = pick_cipher client_hello }), more)
  unfolding read_server_handshake fallback_server_hello mark
  read_server_handshake-fallback_server_hello closes more fresh =
      let rest : Text = tls_record 0x14 (0x01 ∷ []) ++ (tls_record 0x17 r.flight ++ more) in
      let parts : fallback_server_hello r client_hello sid ++ more ≡ tls_record 0x16 hello ++ rest =
        append_assoc (tls_record 0x16 hello)
          (tls_record 0x14 (0x01 ∷ []) ++ tls_record 0x17 r.flight) more
        ∙ ap (λ t. tls_record 0x16 hello ++ t)
            (append_assoc (tls_record 0x14 (0x01 ∷ [])) (tls_record 0x17 r.flight) more) in
      let n : ℕ = length (hello ++ rest) in
      ap (λ t. read_loop (length t) closes t not_found) parts
      ∙ read_loop-tls_record (suc (suc (suc (suc n)))) 0x16 closes hello rest not_found hello_size
          refl
      ∙ read_loop-tls_record (suc (suc (suc n))) 0x14 closes (0x01 ∷ [])
          (tls_record 0x17 r.flight ++ more) (noted 0x16 hello not_found) (omega arith) refl
      ∙ read_loop-tls_record (suc (suc n)) 0x17 closes r.flight more
          (noted 0x14 (0x01 ∷ []) (noted 0x16 hello not_found)) flight_fits refl
      ∙ rw (hello-captured, fresh) refl
