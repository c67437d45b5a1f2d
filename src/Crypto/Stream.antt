-- ===== src/Crypto/Stream.antt =====
-- crypto/aead.rs: what a writer sends, the reader at the other end receives.
use mirage_android.Prelude.{
  ℕ, zero, suc, ◌+◌, ◌*◌, ◌/◌, ◌%◌, ◌≤◌, ◌≡◌, refl, sym, ap, subst, ◌∙◌, true, false, not, Option,
  none, some, List, [], ◌∷◌, ◌++◌, arith, Text, length, take, drop, ltb, ◌==◌, ltb-ge,
  length-append, take-append, drop-append, length-take, take-drop,
}
use mathlib.Core.List.{append_assoc}
use mirage_android.Dns.Wire.{be16}
use mirage_android.Crypto.Cipher.{Primitives, IsAead, format_nonce}
use mirage_android.Crypto.Writer.{
  Rng, CryptoWriter, Sealed, Sent, Plan, nonce_max, wire, inner_text, prepared, next_plan,
  send_loop,
}
use mirage_android.Crypto.Reader.{
  CryptoReader, Received, got, failed, open_body, recv_data_to, recv_many, join,
  process_plaintext_mobile, finish,
}
use mirage_android.Crypto.Padding.{
  process_plaintext_mobile-inner_text, length-inner_text, take-inner_text,
}
use mirage_android.Crypto.Loop.{
  next_writer, record_of, first_record-some, nil_sent, no_fuel, scheme_kept, round-some,
}
use mirage_android.Crypto.Plans.{IsRng, IsScheme, next_plan-Fits}

-- The two ends of one direction of a tunnel.
pub record InSync (w : CryptoWriter) (r : CryptoReader) : Type 0 where
  pub same_key : w.cipher ≡ r.cipher
  pub same_nonce : w.nonce ≡ r.nonce
  pub same_master : w.master ≡ r.master
  pub same_kind : w.cipher_kind ≡ r.cipher_kind
  pub opposite : r.is_initiator ≡ not w.is_initiator

-- The bytes of records, in their order.
unfoldable pub wires : Primitives → List Sealed → Text
wires p [] = []
wires p (s ∷ ss) = wire p s ++ wires p ss

abbrev pub advanced : CryptoReader → CryptoReader
advanced r = record r { nonce = r.nonce + 1 }

open_sealed :
    (p : Primitives) (aead : IsAead p) (r : CryptoReader) (text rest : Text)
    → (r.nonce == nonce_max) ≡ false
    → open_body p r
        (length (p.seal r.cipher (format_nonce r.nonce) text))
        (p.seal r.cipher (format_nonce r.nonce) text ++ rest)
      ≡ finish text (advanced r) rest (process_plaintext_mobile text)
open_sealed p aead r text rest fresh =
    let body = p.seal r.cipher (format_nonce r.nonce) text in
    rw
      (
        fresh,
        take-append body rest,
        drop-append body rest,
        aead.unseal-seal r.cipher (format_nonce r.nonce) text,
      )
      refl

recv-header :
    (p : Primitives) (r : CryptoReader) (body rest : Text)
    → length body ≤ 16401
    → recv_data_to p r (0x17 ∷ 0x03 ∷ 0x03 ∷ (be16 (length body) ++ (body ++ rest)))
      ≡ open_body p r (length body) (body ++ rest)
unfolding recv_data_to
recv-header p r body rest short =
    let size : length body / 256 % 256 * 256 + length body % 256 ≡ length body = omega arith in
    let within : ltb 16401 (length body) ≡ false = ltb-ge 16401 (length body) short in
    let there : ltb (length (body ++ rest)) (length body) ≡ false =
      ltb-ge (length (body ++ rest)) (length body) (omega (arith, length-append body rest)) in
    rw (size, within, there) refl

-- One record of data is received as the data that went into it.
recv-wire :
    (p : Primitives) (aead : IsAead p) (r : CryptoReader) (data_in rest : Text) (target : ℕ)
    → (r.nonce == nonce_max) ≡ false
    → length data_in ≤ 16384
    → target ≤ 16385
    → recv_data_to p r (
        wire p (record { key = r.cipher; count = r.nonce; text = inner_text data_in 0x17 target })
        ++ rest)
      ≡ got (some data_in) (advanced r) rest
unfolding wire
recv-wire p aead r data_in rest target fresh short fits =
    let text = inner_text data_in 0x17 target in
    let body = p.seal r.cipher (format_nonce r.nonce) text in
    let size : length body ≤ 16401 = omega (
      arith,
      aead.length-seal r.cipher (format_nonce r.nonce) text,
      length-inner_text data_in 0x17 target,
    ) in
    recv-header p r body rest size
    ∙ open_sealed p aead r text rest fresh
    ∙ rw
        (
          process_plaintext_mobile-inner_text data_in 0x17 target (omega arith),
          take-inner_text data_in 0x17 target,
        )
        refl

next-InSync :
    (w : CryptoWriter) (r : CryptoReader) → InSync w r → InSync (next_writer w) (advanced r)
unfolding prepared
next-InSync w r s = ground arith

-- What the records of one call are received as.
abbrev pub Delivers : Primitives → CryptoReader → Text → Text → Sent → Type 0
Delivers p r text rest sent =
    (r' : CryptoReader) × (recv_many p (length sent.records) r (wires p sent.records ++ rest)
      ≡ some (text, r', rest))
    × InSync sent.writer r'

received_next : Primitives → ℕ → Received → Option (Text × CryptoReader × Text)
received_next p n (got (some t) r' rest) = join t (recv_many p n r' rest)
received_next p n (got none r' rest) = none
received_next p n (failed e r') = none

recv_many_next :
    (p : Primitives) (n : ℕ) (r : CryptoReader) (stream : Text)
    → recv_many p (suc n) r stream ≡ received_next p n (recv_data_to p r stream)
unfolding recv_many received_next
recv_many_next p n r stream = ground arith

recv_many-suc :
    (p : Primitives) (n : ℕ) (r r₁ r' : CryptoReader) (stream stream₁ front text rest : Text)
    → recv_data_to p r stream ≡ got (some front) r₁ stream₁
    → recv_many p n r₁ stream₁ ≡ some (text, r', rest)
    → recv_many p (suc n) r stream ≡ some (front ++ text, r', rest)
unfolding received_next
recv_many-suc p n r r₁ r' stream stream₁ front text rest e ih =
    recv_many_next p n r stream ∙ ap (received_next p n) e ∙ ap (join front) ih

abbrev received_record : CryptoReader → Text → ℕ → Sealed
received_record r front target = record {
  key = r.cipher;
  count = r.nonce;
  text = inner_text front 0x17 target;
}

Delivers-first :
    (p : Primitives) (aead : IsAead p) (rng : Rng) (w : CryptoWriter) (r : CryptoReader) (b : ℕ)
    (text rest : Text)
    → IsRng rng
    → IsScheme w.scheme
    → InSync w r
    → (w.nonce == nonce_max) ≡ false
    → (sent : Sent)
    → Delivers p
        (advanced r)
        (drop (next_plan rng w (length (b ∷ text))).taken (b ∷ text))
        rest
        sent
    → Delivers p r
        (b ∷ text)
        rest
        (record sent { records = record_of rng w (b ∷ text) ∷ sent.records })
unfolding wires
Delivers-first p aead rng w r b text rest random scheme sync fresh sent (r', received, sync') =
    let plan : Plan = next_plan rng w (length (b ∷ text)) in
    let front : Text = take plan.taken (b ∷ text) in
    let back : Text = drop plan.taken (b ∷ text) in
    let fits = (next_plan-Fits rng w (length text) random scheme).0 in
    let short : length front ≤ 16384 =
      omega (arith, length-take plan.taken (b ∷ text) fits.there, fits.taken_short) in
    let unused : (r.nonce == nonce_max) ≡ false = rw (sym sync.same_nonce) fresh in
    let same : record_of rng w (b ∷ text) ≡ received_record r front plan.target =
      cc (sync.same_key, sync.same_nonce) in
    let first =
      recv-wire p aead r front (wires p sent.records ++ rest) plan.target unused short
        fits.target_short in
    (
      r',
      rw (append_assoc (wire p (record_of rng w (b ∷ text))) (wires p sent.records) rest) (
          ap
            (λ t.
              recv_many p (suc (length sent.records)) r
                (wire p t ++ (wires p sent.records ++ rest)))
            same
          ∙ recv_many-suc p (length sent.records) r (advanced r) r'
              (wire p (received_record r front plan.target) ++ (wires p sent.records ++ rest))
              (wires p sent.records ++ rest) front back rest first received
          ∙ ap (λ t. some (t, r', rest)) (take-drop plan.taken (b ∷ text))),
      sync',
    )

nil-Delivers :
    (p : Primitives) (w : CryptoWriter) (r : CryptoReader) (rest : Text)
    → InSync w r
    → Delivers p r [] rest (record { writer = w; records = []; ok = true })
unfolding recv_many wires
nil-Delivers p w r rest sync = (r, refl, sync)

-- Where the loop ends well, the records are received as the data.
pub send_loop-Delivers :
    (p : Primitives) (aead : IsAead p) (rng : Rng) (fuel : ℕ) (w : CryptoWriter) (r : CryptoReader)
    (text rest : Text) (sent : Sent)
    → IsRng rng
    → IsScheme w.scheme
    → InSync w r
    → send_loop rng fuel w text ≡ some sent
    → sent.ok ≡ true
    → Delivers p r text rest sent
send_loop-Delivers p aead rng fuel w r [] rest sent random scheme sync e ok =
    subst (Delivers p r [] rest) (nil_sent rng fuel w sent e) (nil-Delivers p w r rest sync)
send_loop-Delivers p aead rng zero w r (b ∷ text) rest sent random scheme sync e ok =
    absurd (no_fuel rng w b text sent e)
send_loop-Delivers p aead rng (suc fuel) w r (b ∷ text) rest sent random scheme sync e ok =
    let (fresh, e') = round-some rng fuel w b text sent e ok in
    let (more, e'', same) = first_record-some (record_of rng w (b ∷ text)) _ sent e' in
    let ok' : more.ok ≡ true = ap (λ s. s.ok) same ∙ ok in
    subst (Delivers p r (b ∷ text) rest) same (
      Delivers-first p aead rng w r b text rest random scheme sync fresh more (
        send_loop-Delivers p aead rng fuel (next_writer w) (advanced r)
          (drop (next_plan rng w (length (b ∷ text))).taken (b ∷ text)) rest more random
          (rw (scheme_kept w) scheme) (next-InSync w r sync) e'' ok'))
