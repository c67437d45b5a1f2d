-- ===== src/Handshake/Cache.antt =====
-- crypto/handshake_cache.rs: `get_server_hello_pfs` with the cache that it keeps.
use mirage_android.Prelude.{
  ℕ, zero, suc, ◌+◌, ◌/◌, ◌%◌, ◌^◌, ◌≤◌, ◌<◌, ◌≡◌, refl, sym, ap, ◌∙◌, Bool, true, false, Option,
  List, [], ◌∷◌, ◌++◌, arith, if◌then◌else◌, Text, length, drop, ◌==◌, length-append, drop-append,
  All,
}
use mathlib.Core.List.{append_assoc}
use mirage_android.Dns.Wire.{be16}
use mirage_android.Hello.Parts.{be24}
use mirage_android.Handshake.Templates.{
  template_is_complete, Filler, fallback_server_hello, pick_cipher, fallback_body, fallback_exts,
  tls_record, Outside, get_server_hello_pfs, override_random, answered, warmed, element,
  get_session_id, sid_of,
}
use mirage_android.Handshake.Complete.{IsTemplate, fallback_complete}
use mirage_android.Handshake.Answers.{IsOverride, adapted_complete, override_fields_complete}

-- The random bytes that are drawn for the fallback have their sizes.
pub record IsFiller (r : Filler) : Type 0 where
  pub random : length r.random ≡ 32
  pub key_share : length r.key_share ≡ 32
  pub flight : length r.flight < 2 ^ 16

-- What a call draws and finds outside.
pub record IsOutside (o : Outside) : Type 0 where
  pub templates : All IsTemplate o.templates
  pub filler : IsFiller o.filler
  pub new_random : length o.new_random ≡ 32

either_way {ℓ κ} :
    {A : Type ℓ} (P : A → Type κ) (b : Bool) {x y : A} → P x → P y → P (if b then x else y)
either_way P true hx hy = hx
either_way P false hx hy = hy

element-All {κ} :
    (P : Text → Type κ) (t : Text) (ts : List Text) (i : ℕ)
    → All P (t ∷ ts)
    → i < length (t ∷ ts)
    → P (element (t ∷ ts) i)
element-All P t ts zero h less = h.0
element-All P t [] (suc i) h less = absurd (omega arith)
element-All P t (u ∷ us) (suc i) h less = element-All P u us i h.1 (omega arith)

module _ (r : Filler) (client_hello sid : Text) (h : IsFiller r) (sid_fits : length sid ≤ 255) where
  abbrev back : Text
  back =
      be16 (pick_cipher client_hello)
      ++ (0x00 ∷ (be16 (length (fallback_exts r)) ++ fallback_exts r))

  abbrev hello : Text
  hello =
      0x02 ∷ (be24 (length (fallback_body r client_hello sid)) ++ fallback_body r client_hello sid)

  abbrev behind : Text
  behind = tls_record 0x14 (0x01 ∷ []) ++ tls_record 0x17 r.flight

  hello_size : length hello ≡ 90 + length sid
  hello_size =
      let random = h.random in
      let share = h.key_share in
      omega
        (arith, length-append r.random (length sid % 256 ∷ (sid ++ back)), length-append sid back)

  pub fallback-IsTemplate : IsTemplate (fallback_server_hello r client_hello sid)
  unfolding fallback_server_hello
  fallback-IsTemplate = record {
    version = (3, 3);
    lengths = (length hello / 256 % 256, length hello % 256);
    head = (
      2,
      length (fallback_body r client_hello sid) / 2 ^ 16 % 256,
      length (fallback_body r client_hello sid) / 2 ^ 8 % 256,
      length (fallback_body r client_hello sid) % 256,
    );
    hello_version = (3, 3);
    body = (r.random ++ (length sid % 256 ∷ (sid ++ back))) ++ behind;
    sid_len = length sid % 256;
    more = (sid ++ back) ++ behind;
    shape = refl;
    session =
        ap (drop 32) (append_assoc r.random (length sid % 256 ∷ (sid ++ back)) behind)
        ∙ ap (λ (n : ℕ). drop n (r.random ++ (length sid % 256 ∷ ((sid ++ back) ++ behind))))
            (sym h.random)
        ∙ drop-append r.random (length sid % 256 ∷ ((sid ++ back) ++ behind));
    inside = let size = hello_size in omega arith;
    room = let size = hello_size in omega arith;
    complete = fallback_complete r client_hello sid h.random h.key_share sid_fits h.flight;
  }

  fallback_override_complete :
      (override : Option Text)
      → IsOverride override
      → template_is_complete (override_random override (fallback_server_hello r client_hello sid))
        ≡ true
  unfolding fallback_server_hello
  fallback_override_complete override fits =
      let size = hello_size in
      override_fields_complete r.random sid h.random sid_fits override 3 3
        (length hello / 256 % 256) (length hello % 256) 2
        (length (fallback_body r client_hello sid) / 2 ^ 16 % 256)
        (length (fallback_body r client_hello sid) / 2 ^ 8 % 256)
        (length (fallback_body r client_hello sid) % 256) 3 3
        ((r.random ++ (length sid % 256 ∷ (sid ++ back))) ++ behind) fits (omega arith)
        (fallback_complete r client_hello sid h.random h.key_share sid_fits h.flight)

module _ (o : Outside) (client_hello : Text) (override : Option Text) (h : IsOutside o)
    (fits : IsOverride override) where
  warmed-IsTemplate :
      (sid : Text) (cache : List Text)
      → length sid ≤ 255
      → All IsTemplate cache
      → All IsTemplate (warmed o client_hello sid cache)
  warmed-IsTemplate sid (t ∷ ts) sid_fits all = all
  warmed-IsTemplate sid [] sid_fits all =
      let last = fallback-IsTemplate o.filler client_hello sid h.filler sid_fits in
      let left = h.templates in
      either_way (All IsTemplate) o.warming left
        (either_way (All IsTemplate) (length o.templates == 0) (last, tt) left)

  answered_complete :
      (sid : Text) (cache : List Text)
      → length sid ≤ 255
      → All IsTemplate cache
      → template_is_complete (override_random override (answered o client_hello sid cache)) ≡ true
  answered_complete sid [] sid_fits all =
      fallback_override_complete o.filler client_hello sid h.filler sid_fits override fits
  answered_complete sid (t ∷ ts) sid_fits all =
      let i : ℕ = o.drawn % length (t ∷ ts) in
      let less : i < length (t ∷ ts) = omega arith in
      adapted_complete o.new_random sid h.new_random sid_fits (element (t ∷ ts) i) override
        (element-All IsTemplate t ts i all less) fits

  -- If the cached templates and those that are fetched are complete flights with a session id
  -- inside a first record of type 0x16 that is at least 255 bytes short of the greatest, the
  -- random parts have their sizes, and the client's session id has at most 255 bytes: the answer
  -- to a client is a complete flight (whole records, of all three types), and the cache stays as
  -- it was required to be.
  pub get_server_hello_pfs-template_is_complete :
      (cache : List Text)
      → All IsTemplate cache
      → length (sid_of (get_session_id client_hello)) ≤ 255
      → let (cache', answer) = get_server_hello_pfs o cache client_hello override in
        All IsTemplate cache' × (template_is_complete answer ≡ true)
  unfolding get_server_hello_pfs
  get_server_hello_pfs-template_is_complete cache all sid_fits =
      let sid : Text = sid_of (get_session_id client_hello) in
      let all' = warmed-IsTemplate sid cache sid_fits all in
      (all', answered_complete sid (warmed o client_hello sid cache) sid_fits all')
