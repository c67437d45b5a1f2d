-- ===== src/Lib.antt =====
-- Mirage-android: the decision core of the mobile proxy kernel (native/mirage-core/src).
--
-- The kernel takes the packets of a TUN device. Names are answered with addresses of a fake range,
-- and each connection is looked up there, routed, and given an idle timeout. The parts modelled:
--   * FakeIp (dns/fake_ip.rs): the mapper between domains and fake addresses. Its locks are explicit:
--     `lookup_or_assign` is the read and then `slow_path`, so the interleavings of threads are
--     sequences of steps (FakeIp/Reach). FakeIp/Persist is the cache file, FakeIp/Restore and
--     FakeIp/Lifecycle what loading it keeps.
--   * Net (direct.rs, direct_cn_domains.rs, geo.rs): addresses, CIDR blocks, tables of names.
--   * Geo (geo.rs): the tables of geosite.dat and geoip.dat. Geo/Wire reads protobuf fields, Geo/Files
--     the messages, Geo/Index the hashed matcher, Geo/Loaded what is loaded, Geo/Fuel, Runs and
--     Enough that the loops end.
--   * Router (direct.rs): Router/Rules has conditions and rules, Router/Parse reads them from
--     text, Router/Decide has the state (rules, default, mode, hits) and `route_decision_sourced`,
--     Router/Upstream `should_resolve_upstream`, Router/CnIp the domestic addresses. Router/Merge,
--     Search and Table are about the merged table; Order, Local and Leaks about the decision.
--   * Dns (tun/dns.rs): Dns/Cache has the cache that the router reads as learned domains, Dns/Wire the
--     messages.
--   * Idle (tun/adaptive_idle.rs, attribution.rs): Idle/Kinds has the tests, Idle/Profiles the store,
--     Idle/Classify and Idle/Learn its operations, Idle/Tuned, Store and Reach its invariant.
--   * Udp (tun/udp.rs): Udp/Frames has the frames of datagrams in a tunnel, Udp/RoundTrip
--     reads them back; Udp/Checksum is the Internet checksum, Udp/Packets the packets of replies.
--   * Crypto (crypto/cipher.rs, crypto/aead.rs): Crypto/Writer cuts data into records, pads and seals
--     them, Crypto/Reader opens them. Padding, Plans, Loop, Stream, Rounds and Tunnel carry the claims
--     on what arrives, Counting and Nonces those on the nonces.
--   * Hello (crypto/tls_raw.rs): the ClientHellos of three browsers. Sniffer (tun/sniffer.rs) finds the
--     server name in one.
--   * Handshake (crypto/handshake_cache.rs): Handshake/Templates has the server's flights and the cache
--     of them, Complete, Answers and Cache say that answers are complete. Pool (proxy/pool.rs):
--     Pool/Flight is the client's reading of a flight, Pool/Answer joins the two; Pool/Stats has the
--     statistics and the pause after failed authentications, Pool/Pauses their invariant.
--   * Auth (crypto/hello_auth.rs): Auth/Token and Auth/Replay are the session tokens and their
--     verification; Auth/Opening, Once and Runs are about them.
--   * Mux (proxy/udp_mux.rs): Mux/Frames has frames with the ids of flows, Mux/Demux the pump and the
--     table of flows. Frames are cut off the stream again in Mux/Chunks and Mux/Delivery; Mux/Flows has
--     the table's invariant.
--   * NodeUri (node_uri.rs): addresses of nodes. Escapes and RoundTrip are about what is written so.
-- The router reads the geo tables, the names and the resolver's cache (`World` of Router/Decide); the
-- leak guard of the resolver asks the router. Prelude and Data hold what the parts share: keys, maps,
-- text as bytes, 32-bit masks, number parsing, lossy UTF-8. Functions keep the names of the source.
--
-- Numbers are natural numbers; words wrap where the source's do (`% 2 ^ w`, `u32`, `u64`). A `HashMap`
-- is an association list with one entry for each key. What depends on a map's order is an argument
-- (`first_key` of Dns/Cache), except that the oldest profile is the first of the oldest in the list.
-- Poisoned locks are entered as the source enters them, so they do not show. Time is an argument.
-- The greatest usize is an argument of the parser of addresses; geo.rs is modelled for a usize of 64 bits.
-- `read_len_delim` takes the sum of a place and a length not to overflow; where it would, the source
-- panics and the model refuses the field.
--
-- Loops are structural recursion or recursion on fuel. `parent_loop` has one round for each byte of the
-- name, which has at most so many dots. `varint_loop` has ten rounds, as `shift >= 64` ends it.
-- `fields` and `file_fields` have one round for each byte, and each round reads one at least.
-- `skip_name_loop` has the 129 rounds of the source's own limit. `search_between` has one for each
-- range, and each round takes at least one off. `fold_carry` has two rounds (`fold_carry_enough`).
-- `send_loop` has one for each byte and each place of the scheme, and each round takes one of them.
-- `drain_loop`, `record_loop`, `read_loop`, `ext_loop` and `name_loop` have one for each byte; a round
-- takes two, five, five, four and three of them. `quic_loop` has one for each place that is tried.
--
-- Arguments that stand for code outside the repository: the regex crate (`RegexEngine`), the Unicode
-- lower case of the standard library, single-precision division (`Platform`), the generated table of
-- direct_cn_ipv4.rs, and the contents of files; HKDF and the AEAD algorithms (`Primitives`), SHA-256, HMAC
-- and Poly1305 (`Digests`), random numbers (`Rng`, `Draws`, `Filler`), and what fetching templates leaves
-- (`Outside`). A stream that a client reads is its bytes, and whether it then closes or falls silent.
--
-- Not modelled: sockets, tasks and the TUN stack, JSON input and output (set_custom_rules, listings,
-- profiles on disk), the dialling and the queue of the pool, rates, and the copy of Mirage-rs under
-- vendor.
mod Prelude
mod Data
pub mod FakeIp
pub mod Net
pub mod Geo
pub mod Dns
pub mod Udp
pub mod Crypto
pub mod Hello
pub mod Sniffer
pub mod Mux
pub mod NodeUri
pub mod Handshake
pub mod Auth
pub mod Pool
pub mod Router
pub mod Idle
mod Tests
