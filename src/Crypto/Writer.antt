-- ===== src/Crypto/Writer.antt =====
-- crypto/aead.rs: `CryptoWriter`, which cuts data into records and seals them.
use mirage_android.Prelude.{
  ℕ, zero, suc, ◌+◌, ◌-◌, ◌^◌, Bool, true, false, Option, none, some, List, [], ◌∷◌, ◌++◌,
  if◌then◌else◌, Text, length, take, drop, get_elem?, ltb, ◌==◌, ◌||◌,
}
use mirage_android.Dns.Wire.{be16}
use mirage_android.Crypto.Cipher.{
  Cipher, chacha20_poly1305, same_cipher, AeadKey, Primitives, expand_key, format_nonce, write_info,
}

-- The random numbers: the place of a draw, and what is drawn between two numbers or among
-- the three sizes of the throughput buckets.
pub data Bucket : Type 0 where
  low middle high : Bucket

pub record Rng : Type 0 where
  pub usize : ℕ → ℕ → ℕ → ℕ
  pub f64 : ℕ → Bucket

abbrev pub limit_of : Bucket → ℕ
limit_of low = 16384
limit_of middle = 8192
limit_of high = 4096

-- The state of a `CryptoWriter`; `draws` is that of its random number generator.
pub record CryptoWriter : Type 0 where
  pub cipher : AeadKey
  pub nonce : ℕ
  pub master : Text
  pub cipher_kind : Cipher
  pub is_initiator : Bool
  pub draws : ℕ
  pub padding : Bool
  pub records_sent : ℕ
  pub scheme : List (ℕ × ℕ)

unfoldable pub new_writer : Primitives → Text → Bool → Bool → List (ℕ × ℕ) → CryptoWriter
new_writer p master is_initiator padding scheme = record {
  cipher = expand_key p master (write_info is_initiator) chacha20_poly1305;
  nonce = 0;
  master = master;
  cipher_kind = chacha20_poly1305;
  is_initiator = is_initiator;
  draws = 0;
  padding = padding;
  records_sent = 0;
  scheme = scheme;
}

-- Only a change to another cipher than the first is taken.
unfoldable pub rekey : Primitives → Cipher → CryptoWriter → CryptoWriter
rekey p cipher w =
    if same_cipher cipher w.cipher_kind || same_cipher cipher chacha20_poly1305
    then w
    else record w {
      cipher = expand_key p w.master (write_info w.is_initiator) cipher;
      cipher_kind = cipher;
      nonce = 0;
    }

-- A record before it is sealed.
pub record Sealed : Type 0 where
  pub key : AeadKey
  pub count : ℕ
  pub text : Text

-- The bytes of a record: the header and the sealed text.
unfoldable pub wire : Primitives → Sealed → Text
wire p r =
    let body = p.seal r.key (format_nonce r.count) r.text in
    0x17 ∷ 0x03 ∷ 0x03 ∷ (be16 (length body) ++ body)

abbrev pub zeros : ℕ → Text
zeros zero = []
zeros (suc n) = 0 ∷ zeros n

-- How much of the data goes into the next record, and the record's length, or zero for no padding.
pub record Plan : Type 0 where
  pub taken : ℕ
  pub target : ℕ

abbrev pub shaped : ℕ → ℕ → Plan
shaped remaining target = record {
  taken = if ltb (target - 1) remaining then target - 1 else remaining;
  target = target;
}

abbrev pub in_bucket : ℕ → Bucket → Plan
in_bucket remaining b = record {
  taken = if ltb (limit_of b) remaining then limit_of b else remaining;
  target = 0;
}

abbrev pub plan_at : Rng → ℕ → ℕ → Option (ℕ × ℕ) → Plan
plan_at rng draws remaining (some (lo, hi)) = shaped remaining (rng.usize draws lo hi)
plan_at rng draws remaining none = in_bucket remaining (rng.f64 draws)

unfoldable pub next_plan : Rng → CryptoWriter → ℕ → Plan
next_plan rng w remaining =
    plan_at rng w.draws remaining (if w.padding then get_elem? w.scheme w.records_sent else none)

-- The data, the content type, and zeros up to the target.
unfoldable pub inner_text : Text → ℕ → ℕ → Text
inner_text content kind target = content ++ (kind ∷ zeros (target - (length content + 1)))

unfoldable pub saturating_inc32 : ℕ → ℕ
saturating_inc32 n = if ltb n (2 ^ 32 - 1) then n + 1 else n

-- The record in `buffer`, counted and drawn.
unfoldable pub prepared : CryptoWriter → CryptoWriter
prepared w = record w { draws = w.draws + 1; records_sent = saturating_inc32 w.records_sent }

abbrev pub nonce_max : ℕ
nonce_max = 2 ^ 64 - 1

-- What a call gives: the writer, the records, and whether it succeeded.
pub record Sent : Type 0 where
  pub writer : CryptoWriter
  pub records : List Sealed
  pub ok : Bool

abbrev pub first_record : Sealed → Option Sent → Option Sent
first_record r none = none
first_record r (some s) = some (record s { records = r ∷ s.records })

-- The nonce is used once, then the counter moves on.
abbrev pub seal_next : CryptoWriter → Text → Sealed
seal_next w text = record { key = w.cipher; count = w.nonce; text = text }

-- The `while offset < plaintext.len()` loop over what is left; `none` is a lack of fuel.
unfoldable pub send_loop : Rng → ℕ → CryptoWriter → Text → Option Sent
send_loop rng fuel w [] = some (record { writer = w; records = []; ok = true })
send_loop rng zero w (b ∷ rest) = none
send_loop rng (suc fuel) w (b ∷ rest) =
    let plan = next_plan rng w (length (b ∷ rest)) in
    let text = inner_text (take plan.taken (b ∷ rest)) 0x17 plan.target in
    let w' = prepared w in
    let more =
      first_record (seal_next w' text)
        (send_loop rng fuel (record w' { nonce = w'.nonce + 1 }) (drop plan.taken (b ∷ rest))) in
    if w'.nonce == nonce_max then some (record { writer = w'; records = []; ok = false }) else more

-- Each round takes a byte or a place of the scheme.
unfoldable pub send_data : Rng → CryptoWriter → Text → Option Sent
send_data rng w plaintext = send_loop rng (length plaintext + length w.scheme) w plaintext

unfoldable pub send_close_notify : CryptoWriter → Sent
send_close_notify w =
    if w.nonce == nonce_max then record { writer = w; records = []; ok = false } else record {
      writer = record w { nonce = w.nonce + 1 };
      records = seal_next w (0x01 ∷ 0x00 ∷ 0x15 ∷ []) ∷ [];
      ok = true;
    }
