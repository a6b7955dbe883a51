-- ===== src/Lib.antt =====
-- Verification of dimsum, a DNS server with a network-wide name policy.
--
-- A client's packet is parsed (internal/dnswire), its name is decided by the policy
-- (internal/policy), and an allowed query is answered from the cache or an upstream. This library
-- models the parser and builder of messages, the reference matcher of the policy, the cache, the
-- table of shared resolutions, the histogram of durations, the transaction identifiers and circuit
-- breakers of upstream queries, and the settings and the lease engine of the DHCP server. The cache's `put` scans a response and prepares its template
-- with the parser of DnsWire, and `lookup` writes a reply for the request that it parsed.
--
-- Files and what they model:
--   Prelude          tests, lists over native numbers, Go's results and loops, byte slices
--   DnsWire/Errors   the error values and limits of internal/dnswire
--   DnsWire/Labels   the specification of an uncompressed name (no code)
--   DnsWire/Name     internal/dnswire/name.go: DecodeName
--   DnsWire/Header   internal/dnswire/question.go: ParseHeader, ParseQuestion, RequestError
--   DnsWire/Record   internal/dnswire/records.go: Record, EDNS, ReadOption; decodeNameChecked of
--                    personalize.go and nameBoundaries of ttl.go
--   DnsWire/Rdata    internal/dnswire/records.go: rdataName, validateRData
--   DnsWire/Scanner  internal/dnswire/records.go: Scanner with Init, InitMulticast and Next
--   DnsWire/Message  internal/dnswire/records.go: the loop over records, ScanMessage, ParseRequest
--   DnsWire/Template internal/dnswire/ttl.go: PrepareTemplate, negativeCNAMEAuthority
--   DnsWire/Build    internal/dnswire/build.go: UDPBudget, BuildReply, FitReply
--   DnsWire/Samples  two messages for the tests
--   Policy/Names     internal/policy/normalize.go: NameFromWire, labels, CopyWire, Display
--   Policy/Glob      internal/policy/match.go: labelGlob
--   Policy/Rules     internal/policy/rule.go, scope.go and precedence.go: rules and their order
--   Policy/Matcher   internal/policy/match.go and precedence.go: matches, match, Evaluate
--   DnsCache/Arena   internal/dnscache/slots.go, arena.go and clock.go: shards, the block allocator,
--                    CLOCK eviction
--   DnsCache/Store   internal/dnscache/cache.go: the shards of New, and the end of put, which makes
--                    room for a blob and fills a slot
--   DnsCache/Key     internal/dnscache/key.go: NewKey, valid, matches
--   DnsCache/Put     internal/dnscache/cache.go: put
--   DnsCache/Lookup  internal/dnscache/cache.go: lookup
--   Resolve/Flights  internal/resolve/inflight.go: the table of shared resolutions
--   Dhcp/Address     the part of net/netip that internal/dhcp uses, and usable of settings.go
--   Dhcp/Settings    internal/dhcp/settings.go: settings, their keys and their validation
--   Dhcp/Lease       internal/dhcp/engine.go: the types and the state of the lease engine
--   Dhcp/Engine      internal/dhcp/engine.go: the methods below discover, such as mark and candidate
--   Dhcp/Handle      internal/dhcp/engine.go: discover, mutate, quarantine and Handle
--   Dhcp/Complete    internal/dhcp/engine.go: CompleteProbe, CompleteCommit and Tick
--   Dhcp/Recovery    internal/dhcp/engine.go: NewEngine, Apply, Restore and the lists of leases
--   Dhcp/Packet      internal/dhcp/packet.go: DecodeRequest
--   Dhcp/WireReply   internal/dhcp/reply.go: BuildReply; the encoder of the dhcpv4 library is an argument
--   Stats/Latency    internal/stats/latency.go: the histogram of durations
--   Upstream/Ids     internal/upstream/ids.go: the table of transaction identifiers
--   Upstream/Health  internal/upstream/health.go: the circuit breaker of an endpoint
--   Upstream/Validate internal/upstream/validate.go: validate and prepare
--
-- Conventions. A byte slice is a list of numbers; theorems about input assume that each is below
-- 256. A call returns a Result: `ok`, `err` with Go's error, `panic` for an index or slice out of
-- range, `stuck` for a loop whose model ran out of fuel; `Returns P` says that a call ends with a
-- value that meets P or with an error, so it excludes `panic` and `stuck`. A loop is `loop` over a
-- body that ends it or hands on its variables; its fuel is the length of the input plus one, except
-- for DecodeName (288 rounds: each follows one of 32 pointers or adds a byte to a name of 255), the
-- section search of Next (4 rounds over 3 sections) and the loop over records (one round more than
-- the header declares records). The loop of put has one round more than the shard has entries, and
-- the search of negativeCNAMEAuthority has 17 rounds over 16 links.
-- Masks and shifts are written as division and remainder. Offsets and counts are natural numbers:
-- the tests for a negative offset have no counterpart. The clock and random numbers are arguments,
-- and times and durations are natural numbers. The lease engine reads a time twice, as a wall time
-- and as a monotonic one, and its entries are on a heap, because its two maps share them.
--
-- Not modelled: regular expressions (a rule's compiled expression is any function of the displayed
-- name), IDNA in NormalizeName, the compilation of rules and the policy's compact indexes, the
-- personalization and relocation of replies, the hash of a cache key (an argument), the rest of the
-- resolver pipeline, the store and the sockets of DHCP, configuration, storage, HTTP and process set-up.
-- That the slots which `put` writes are readable for `lookup`, patches included, is a hypothesis.
pub mod Dhcp
pub mod DnsCache
pub mod DnsWire
pub mod Policy
pub mod Prelude
pub mod Resolve
pub mod Stats
pub mod Upstream
