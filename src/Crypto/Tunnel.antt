-- ===== src/Crypto/Tunnel.antt =====
-- crypto/aead.rs: a direction of a tunnel between two ends that share a master key.
use mirage_android.Prelude.{
  ℕ, ◌+◌, ◌^◌, ◌≤◌, ◌<◌, ◌≡◌, refl, ap, Bool, true, false, not, Option, none, some, List, [], ◌∷◌,
  arith, if◌then◌else◌, Text, length,
}
use mathlib.Core.List.{append-nil}
use mirage_android.Data.Numerals.{◌>>=◌}
use mirage_android.Crypto.Cipher.{Cipher, Primitives, IsAead, write_info, read_info, derive_master}
use mirage_android.Crypto.Writer.{Rng, CryptoWriter, Sent, new_writer, rekey, send_data}
use mirage_android.Crypto.Reader.{CryptoReader, new_reader, rekey_reader, recv_many}
use mirage_android.Crypto.Plans.{IsRng, IsScheme}
use mirage_android.Crypto.Stream.{InSync, wires, send_loop-Delivers}
use mirage_android.Crypto.Rounds.{send_loop-some}

-- What the two ends do: a call of `send_data` and the receipt of its records, or a change of the
-- cipher at both ends.
pub data Event : Type 0 where
  message : Text → Event
  switch : Cipher → Event

abbrev pub if_ok : Sent → Option Sent
if_ok s = if s.ok then some s else none

-- The message as the other end receives it.
unfoldable pub deliver :
    Primitives
    → Rng
    → CryptoWriter
    → CryptoReader
    → Text
    → Option (Text × CryptoWriter × CryptoReader)
deliver p rng w r text = do
  sent ← send_data rng w text
  good ← if_ok sent
  (t, r', rest) ← recv_many p (length good.records) r (wires p good.records)
  some (t, good.writer, r')

unfoldable pub transfer :
    Primitives → Rng → CryptoWriter → CryptoReader → List Event → Option (List Text)
transfer p rng w r [] = some []
transfer p rng w r (message text ∷ es) = do
  (t, w', r') ← deliver p rng w r text
  more ← transfer p rng w' r' es
  some (t ∷ more)
transfer p rng w r (switch c ∷ es) = transfer p rng (rekey p c w) (rekey_reader p c r) es

-- A channel that neither loses nor reorders nor changes anything.
unfoldable pub messages : List Event → List Text
messages [] = []
messages (message text ∷ es) = text ∷ messages es
messages (switch c ∷ es) = messages es

-- A bound on the records, for a padding scheme of so many places.
abbrev pub records_bound : ℕ → List Event → ℕ
records_bound places [] = 0
records_bound places (message text ∷ es) = length text + places + records_bound places es
records_bound places (switch c ∷ es) = records_bound places es

same_info : (a b : Bool) → b ≡ not a → write_info a ≡ read_info b
unfolding write_info read_info
same_info true b e = rw e refl
same_info false b e = rw e refl

rekey-InSync :
    (p : Primitives) (c : Cipher) (w : CryptoWriter) (r : CryptoReader)
    → InSync w r
    → InSync (rekey p c w) (rekey_reader p c r)
unfolding rekey rekey_reader
rekey-InSync p c w r s = ground (arith, same_info w.is_initiator r.is_initiator)

rekey_keeps :
    (p : Primitives) (c : Cipher) (w : CryptoWriter)
    → ((rekey p c w).scheme ≡ w.scheme) × ((rekey p c w).nonce ≤ w.nonce)
unfolding rekey
rekey_keeps p c w = ground arith

new-InSync :
    (p : Primitives) (master : Text) (is_initiator padding : Bool) (scheme : List (ℕ × ℕ))
    → InSync
        (new_writer p master is_initiator padding scheme)
        (new_reader p master (not is_initiator))
unfolding new_writer new_reader
new-InSync p master is_initiator padding scheme =
    ground (arith, same_info is_initiator (not is_initiator))

-- A message is delivered while there are nonces.
deliver-some :
    (p : Primitives) (rng : Rng) (w : CryptoWriter) (r : CryptoReader) (text : Text)
    → IsAead p
    → IsRng rng
    → IsScheme w.scheme
    → length w.scheme < 2 ^ 32
    → InSync w r
    → w.nonce + (length text + length w.scheme) < 2 ^ 64
    → (w' : CryptoWriter) × (r' : CryptoReader) × (deliver p rng w r text ≡ some (text, w', r'))
      × InSync w' r'
      × (w'.scheme ≡ w.scheme)
      × (w'.nonce ≤ w.nonce + (length text + length w.scheme))
unfolding deliver send_data
deliver-some p rng w r text aead random scheme short sync counter =
    let fuel : ℕ = length text + length w.scheme in
    let (sent, e, ok, kept, count) =
      send_loop-some rng fuel w text random scheme short (omega arith) counter in
    let (r', received, sync') =
      send_loop-Delivers p aead rng fuel w r text [] sent random scheme sync e ok in
    let whole : recv_many p (length sent.records) r (wires p sent.records) ≡ some (text, r', []) =
      rw (append-nil (wires p sent.records)) at received in
    (sent.writer, r', rw (e, ok, whole) refl, sync', kept, count)

transfer-from :
    (p : Primitives) (rng : Rng) (w : CryptoWriter) (r : CryptoReader) (es : List Event)
    → IsAead p
    → IsRng rng
    → IsScheme w.scheme
    → length w.scheme < 2 ^ 32
    → InSync w r
    → w.nonce + records_bound (length w.scheme) es < 2 ^ 64
    → transfer p rng w r es ≡ some (messages es)
unfolding transfer messages
transfer-from p rng w r [] aead random scheme short sync counter = refl
transfer-from p rng w r (message text ∷ es) aead random scheme short sync counter =
    let (w', r', e, sync', kept, count) =
      deliver-some p rng w r text aead random scheme short sync (omega arith) in
    let bound : records_bound (length w'.scheme) es ≡ records_bound (length w.scheme) es =
      ap (λ places. records_bound (length places) es) kept in
    rw
      (
        e,
        transfer-from p rng w' r' es aead random (rw kept scheme) (rw kept short) sync'
            (omega arith),
      )
      refl
transfer-from p rng w r (switch c ∷ es) aead random scheme short sync counter =
    let (kept, count) = rekey_keeps p c w in
    let bound : records_bound (length (rekey p c w).scheme) es
        ≡ records_bound (length w.scheme) es =
      ap (λ places. records_bound (length places) es) kept in
    transfer-from p rng (rekey p c w) (rekey_reader p c r) es aead random (rw kept scheme)
      (rw kept short) (rekey-InSync p c w r sync) (omega arith)

-- The writer and the reader of a tunnel implement a channel of messages: for an AEAD algorithm
-- that opens what it seals and adds 16 bytes, random numbers between the bounds asked for, and a
-- padding scheme of fewer than 2^32 ranges up to 16385, any sequence of messages and of changes of
-- the cipher that both ends make is carried over unchanged, padded or not, whatever the ends are,
-- as long as the records (at most one for each byte and each place of the scheme in a message) are
-- fewer than 2^64.
pub transfer-messages :
    (p : Primitives) (rng : Rng) (password client_random server_random : Text)
    (is_initiator padding : Bool) (scheme : List (ℕ × ℕ)) (es : List Event)
    → IsAead p
    → IsRng rng
    → IsScheme scheme
    → length scheme < 2 ^ 32
    → records_bound (length scheme) es < 2 ^ 64
    → transfer p rng
        (new_writer p
          (derive_master p password client_random server_random)
          is_initiator
          padding
          scheme)
        (new_reader p (derive_master p password client_random server_random) (not is_initiator))
        es
      ≡ some (messages es)
unfolding new_writer
transfer-messages p rng password client_random server_random is_initiator padding scheme es aead
      random fits short counter =
    let master : Text = derive_master p password client_random server_random in
    transfer-from p rng (new_writer p master is_initiator padding scheme)
      (new_reader p master (not is_initiator)) es aead random fits short
      (new-InSync p master is_initiator padding scheme) (omega arith)
