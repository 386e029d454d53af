-- ===== src/Lib.antt =====
-- The Traefik plugin that locates requests by IP address and decides by access rules: a model of the
-- Go code at the root of the repository, and what is proved of it.
--
-- A request comes to `ServeHTTP` (plugin.go). `clientIP` (clientip.go) chooses the address; headers
-- that the plugin owns are stripped; the lists of addresses decide some requests at once. For the
-- others `resolve` asks the result cache (cache.go) and then the provider (provider.go), which looks
-- the address up in each MMDB file (mmdb.go), by the decoder of the format (decode.go), and takes the
-- configured fields out of the records (fields.go). The rules (rules.go) decide by the fields, and
-- `finish` forwards the request or writes an answer.
--
-- The modules and the code:
--   Base      shared names, lists, texts as bytes, 64-bit and 32-bit integers, maps, results
--   Source    decode.go: `source`, `memSource`, `fileSource`, `windowSource`
--   Value     decode.go: the dynamic values; Go's maps as entries in which a key stands once
--   Decode    decode.go: `decode` (Decode/Values), `seek` and `skip` (Decode/Seek); Decode/Encode is
--             an encoder of the format, to state what `decode` reads
--   Reader    mmdb.go: `OpenReader` (Reader/Open), the search tree (Reader/Tree), records
--             (Reader/Records); fields.go: `asString` and its like (Reader/Coerce)
--   Cache     cache.go
--   Config    plugin.go: `Config`, `CreateConfig`, `withDefaults`
--   Rules     rules.go: `newRuleSet`; Rules/Evaluate: `requiredFields`, `evaluate`
--   Net       what is taken from packages net and net/http, as parameters
--   ClientIp  clientip.go
--   Fields    fields.go: `format`, `resolvePath`; Fields/Extract: `extract`, and provider.go:
--             `extractFields`, `mmdbRecord`, with the record that it keeps in Fields/Memo
--   HeaderMap plugin.go: `buildHeaderMap`, `selectFields`; Fields/Catalog: fields.go, `fieldDefs`
--   Database  mmdb.go: `OpenReader` from the path on, `Changed`
--   Provider  provider.go: `mmdbProvider.lookup`, `deriveAPIFlags`; Provider/Refresh:
--             `newMMDBProvider`, `refreshChanged`, `close`; Provider/Api: `apiProvider`
--   Plugin    plugin.go: `ServeHTTP`, `resolve`, `applyHeaders`, `finish`
--   Logging   plugin.go: `newLogger`, `printf`
--   Setup     plugin.go: `New`, `parseDuration`
--   Tests     runs on concrete inputs, and the theorems applied to them
-- The other modules below these hold the proofs and are named for what they prove.
--
-- A text is the list of its bytes. A fallible operation returns a `Result`, a missing value is
-- `none`, a nil cache is `none`. Offsets are natural numbers: the code's int64 offsets are never
-- negative, and a read outside the source is an error in both. The depth of the decoder is the fuel
-- of the model: `decode_at` has `maxDecodeDepth + 1 - depth` levels left, and what the code reports
-- beyond the bound is what the model returns without fuel. Loops over a size are recursion on it. A
-- float64 is kept as the bits it is read from; formatting, parsing and comparing floats are
-- parameters (Value/Floats). The clock is an argument; the mutex of the cache makes each call one
-- step. A provider that refreshes is a state, and the stretches of code between its locks are the
-- steps of a relation (Provider/Refresh/Runs), taken in any order; a reader that is opened gets a
-- number, by which it is followed until it is closed. The disk is a parameter that may differ from
-- one call of package os to the next; so are HTTP, URL encoding, JSON and time.ParseDuration.
--
-- `New` (Setup) composes the parts: it compiles the rules, builds the header map, selects the
-- fields, parses addresses and durations, makes the cache and opens the provider of the mode. The
-- plugin it returns is the one that `serve_http` runs on.
--
-- Not modelled: the lines of the log, the ticker that starts a refresh, and what a reader answers
-- after it is closed, five seconds behind its retirement.
pub mod Base
pub mod Source
pub mod Value
pub mod Decode
pub mod Reader
pub mod Cache
pub mod Config
pub mod Rules
pub mod Net
pub mod ClientIp
pub mod Fields
pub mod HeaderMap
pub mod Database
pub mod Provider
pub mod Plugin
pub mod Logging
pub mod Setup
pub mod Tests
