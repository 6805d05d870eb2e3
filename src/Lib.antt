-- ===== src/Lib.antt =====
-- NetProbe IR: from captured frames to flows, exported datagrams and recorded files.
--
-- The sensor captures Ethernet frames and gives each of them to three parts. The decoder
-- (internal/decode) makes a packet of it. The flow table (internal/flow) counts the packet in
-- the flow of its two ends. The flight recorder (internal/pcapng) writes the frame into a
-- rotating PCAPNG file, after the evidence policy (internal/smartpcap) has chosen how much of it
-- to keep. The inspection of payloads (internal/dpi) puts the segments of a flow in order and says
-- which protocol and application it is. The flows go out as datagrams to collectors
-- (internal/flowexport). New flows go to the detector of lateral movement (internal/lateral),
-- findings to the suppression rules (internal/tuning) and the playbooks (internal/playbook),
-- packet summaries by the event bus (internal/eventbus) to the traffic series
-- (internal/trafficseries). The console has accounts (internal/auth), an audit log
-- (internal/audit) and approvals (internal/approvals).
--
-- Files:
-- * Decode.antt is internal/decode/decode.go. `parse_ethernet` is ParseEthernet, with its VLAN
--   loop (`vlan_loop`), `parse_ipv4`, `parse_ipv6` with the loop over extension headers
--   (`extension_loop`), and `parse_transport`. A packet is built by the same assignments, as a
--   record that is passed on.
-- * Model.antt is internal/model/model.go: the records a flow is made of, and those of
--   packets and findings.
-- * Flows.antt and Flows/Visible.antt are internal/flow/store.go. The map of the store is an
--   association list; `observe`, `gc`, `set_risk`, `mark_sensor_traffic`, `get`, `counts` and
--   `snapshot` are its methods under the mutex, as functions from a store to a store.
-- * Pcapng.antt and Pcapng/Validate.antt and Pcapng/Prune.antt are internal/pcapng/recorder.go.
--   A `Recorder` holds, of the open file, the bytes that its writes took, in the file or still in
--   the buffer in front of it, and, for the theorems, the bytes of the closed files; `write_frame`,
--   `rotate`, `run` and `close_current` are its methods, `validate` is Validate, `prune` is prune.
--   An `Io` says of a call of writeFrame whether the next file opens, and at which byte a Flush or
--   a write stops, if it fails: a failed Flush loses the rest of the buffer at the closing of the
--   file, a failed write ends writeFrame with its error.
-- * Export.antt, Export/Encoders.antt and Export/Sflow.antt are internal/flowexport/encode.go:
--   `netflow5`, `netflow9`, `ipfix`, `sflow` and `sflow_packet` with the encoder's sequence number
--   and the times of its templates. Export/Worker.antt is the worker of
--   internal/flowexport/manager.go: `take_flow`, `flush_due` and `export_packet` are what it does
--   with a flow, at a tick and with a packet, given what the connection takes (`Line`).
-- * Smartpcap.antt is internal/smartpcap/policy.go: `decide` chooses how much of a frame becomes
--   evidence, and `apply` cuts the frame before the recorder gets it.
-- * Timeline.antt is internal/timeline/store.go, and Approvals.antt is
--   internal/approvals/store.go with the two records of internal/response/manager.go that a
--   request holds.
-- * Eventbus.antt is internal/eventbus/bus.go: the queues of the subscribers, and what Publish,
--   Subscribe and Unsubscribe do to them.
-- * Auth.antt and the files in Auth are internal/auth/manager.go: the rules and hashes of
--   passwords (Passwords), one-time codes and PBKDF2 (Codes), Login with its lock-out (Login),
--   who a request or an open connection comes from (Requests), changes to accounts and sessions
--   (Accounts), API tokens and sessions of external identities (Tokens), the second factor
--   (Totp) and Can (Grants). A method is a function from a Manager to a Manager and an answer.
-- * Audit.antt is internal/audit/log.go: a `Log` has the lines of its file and the piece of a line
--   that was not ended; `append` is given what becomes of the write, which may stop in its line,
--   `verify` and `list_events` read the lines back with `read_loop`.
-- * Series.antt is internal/trafficseries/store.go: `consume` and `flush` keep the counts of
--   each second, `history` puts them into buckets (`history_buckets`) and divides each by its
--   seconds.
-- * Playbook.antt is internal/playbook/engine.go: `evaluate` tests a finding by the conditions
--   of a playbook.
-- * Lateral.antt is internal/lateral/engine.go: `observe` keeps the events of a window and
--   raises alerts.
-- * Tuning.antt is internal/tuning/store.go: `add`, `delete` and `suppressed`.
-- * Dpi.antt and the files in Dpi are internal/dpi. Streams is appendSegment; Dns, Quic, Tls,
--   Hello, Ja4, Certificate, Http and Http2 are the parsers of dpi.go, Detect its detectors of
--   protocols and those of applications.go, Hosts is identifyHost, Observe is
--   observations.go. Recognise and Inspect are InspectObserved: each of its recognisers is a
--   function from what is said of the flow so far, and `inspect_observed` composes them on the
--   `Engine` with the states of the flows.
-- * Wire.antt is what these take from encoding/binary and from slice expressions.
-- * Prelude.antt is shared: tests, lists, outcomes of calls, sorting, maps and numbers.
-- * Tests.antt holds runs at concrete inputs.
--
-- A Go string or slice of bytes is a list of numbers, with a predicate that they are below 256
-- where that matters. An unsigned integer is a number, taken modulo its width where the code can
-- wrap. A Go call has one of the outcomes of `Outcome`: a value, an error, a panic of an index
-- or slice expression, or `stuck`, where a loop of the model has no fuel left. `Safe` says that
-- a call neither panics nor is stuck. The VLAN loop, the loop over extension headers and the
-- loop of Validate have as much fuel as the slice is long, or one more, and each turn moves at
-- least four bytes on. The loops of the inspection have fuel by the length of what they read,
-- and a name of DNS follows as many pointers as the code lets it. A time is the number of
-- nanoseconds since the zero Time.
--
-- What the code calls outside the repository is a parameter: the text of an address
-- (net.IP.String), SHA-256 (`digest`), the parsing of an address and the index of an interface
-- (`Net`, with the lengths of parsed addresses as `NetLaws`), CIDR networks, the hashes, MACs
-- and encodings of the accounts (`Crypto`, with `CryptoLaws`), JSON and HMAC of the audit log
-- (`Coding`, with `CodingLaws`), float64 (`Floats`), hashes, X.509, net/http and the like in the inspection
-- (`Library`, with `Frames` for the bytes that net/http takes), the present time, random ids,
-- what a connection takes, and whether a file can be opened, saved or deleted.
--
-- Not modelled: sockets, goroutines, mutexes and files as such, the copies of protected
-- segments, the queues, the dialling and the configuration of the flow exporter, and of
-- internal/auth the JSON file, the cookie writers, ClientIP and ParseTTL. Of the other
-- detectors most compute with floating point, match regular expressions or read files, and the
-- web console and the integrations call other programs and hosts: they are around this core and
-- left out.
pub mod Prelude
pub mod Wire
pub mod Model
pub mod Decode
pub mod Pcapng
pub mod Flows
pub mod Export
pub mod Smartpcap
pub mod Timeline
pub mod Approvals
pub mod Eventbus
pub mod Auth
pub mod Audit
pub mod Series
pub mod Playbook
pub mod Lateral
pub mod Tuning
pub mod Dpi
pub mod Tests
