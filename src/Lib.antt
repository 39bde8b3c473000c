-- ===== src/Lib.antt =====
-- OTScout finds industrial devices on a network, asks them who they are, and matches what they
-- answer against security advisories. The devices are fragile, and the part of the program that
-- talks to them is built so that it cannot hurry, cannot exceed what it was allowed, and cannot
-- act without a record. This library models that part and proves it.
--
-- Safety is the package internal/safety. A plan is a list of exchanges; an exchange is a target, a
-- template with its risk rating, and the steps whose requests are sent (Safety/Exchange for
-- safety.go, Safety/Risk for risk.go). A policy bounds how a run is paced and when it stops
-- (Safety/Policy for policy.go). The deny list says which devices must not be probed (Safety/Deny
-- for denylist.go). Safety/Audit holds the lines of the audit trail (audit.go). Safety/Grouping is
-- groupByHost, Safety/State the variables of a run, Safety/Engine runExchange and the functions it
-- calls, and Safety/Engine/Loop the method Run, all of engine.go. An exchange passes the checks of
-- Run in the order of the source: stopped, cancelled, risk, deny list, dry run; it is then dialled
-- and its steps are sent one by one. What a reply says of the device is merged into what is known
-- of it (Asset/Identity for internal/asset/asset.go), and the deny list reads that before the next
-- exchange.
--
-- Normalize is the reading of firmware versions (internal/normalize/version.go): Normalize/Version
-- has the tokenizer and the generic comparator, Normalize/Schemes those of ABB, Siemens and
-- Rockwell. A result -1, 0 or 1 is an Ordering and `none` is a result that is not ok, which the
-- matcher takes as indeterminate. The tokenizer runs on as much fuel as the text has bytes, and
-- each turn takes one or more; its result says when it stopped for want of fuel.
--
-- The ranges of versions that advisories write are read and checked in the same folder
-- (internal/normalize/constraint.go and vers.go). Normalize/Search has the searches of package
-- strings and the two regular expressions, each as the leftmost match and what is behind it; a
-- list of matches skips the bytes of the last one, so that it needs no fuel. Normalize/Constraint
-- is the range with its bounds, Normalize/Vers the reader of the VERS form, Normalize/Parse the
-- parser of the phrases and Normalize/Evaluate the check of a version. Normalize/Evaluate/Verdict
-- says what a range of each kind promises, without reference to the order of the checks.
--
-- Protocol is what goes over the wire (internal/protocol). A template names a builder and gives it
-- parameters: Protocol/Registry is registry.go, Protocol/Params how the parameters are read,
-- Protocol/Requests the encoders of modbus.go, enip.go, s7comm.go and bacnet.go. Protocol/Reader
-- is the bounded cursor of bytes.go and the cleaning of texts, Protocol/Observation and
-- Protocol/Decoding what a decoder returns (protocol.go), Protocol/Modbus the decoder of modbus.go
-- and Protocol/Enip that of enip.go. The framing loop of Modbus runs on as much fuel as there are
-- bytes, and each turn takes nine or more.
--
-- Inventory is the store of the devices: Inventory/Device has the operations on one device
-- (internal/asset/asset.go, with its data in Asset/Addresses) and Inventory/Store the list with
-- the index of ids (internal/asset/inventory.go). What Go returns as a pointer into the list is
-- the place in it. SHA-256 is a parameter of which no law is used, and a time is a number of which
-- 0 is time.Time{}. Inventory/Flows merges the records of conversations (internal/asset/flow.go);
-- their counters wrap at 2 ^ 64. The grading of flows, the classification by Purdue level and the
-- ordering before a file is written are not modelled.
--
-- Match is the package internal/match, which puts devices and advisories side by side, with the
-- findings of internal/finding. Advisory has the advisories as it reads them
-- (internal/advisory/advisory.go), Normalize/Product and Normalize/Lookup the table of product
-- families (internal/normalize/product.go). Match/Fields and Match/Compare are identity.go: the
-- names of both sides, and how closely they agree. Match/Index is the index of the corpus by
-- vendor, Match/Candidate the order of the candidates and the tier, Match/Attach what the
-- vulnerabilities add, Match/Finding the findings with Finalize, and Match/Run the run over an
-- inventory, all of match.go. The text of a reason is the format that is chosen with what it
-- quotes. The rest of the normalizer is a record of operations (Normalizer in Match/Run), and a
-- run holds for every such record. The order in which Go ranges over a map is not defined; the
-- candidates of an asset are taken in the order in which their advisories were first met, and
-- Finalize sorts the findings. Scores are a Float64 of Safety/Float, with the arithmetic on them a
-- record of operations of which no law is used.
--
-- The state is passed explicitly. Run in Safety/State holds the variables of Engine.Run: the
-- result, the known identities, the time of the last packet (`none` is Go's zero time), and the
-- world. Safety/World is what surrounds the engine: the clock, the packets that the wire has seen
-- and the lines written. An Env gives what the program does not decide: whether the context is
-- done, what a dial and a packet come back with, whether a line can be written, and how long each
-- operation takes. Each is a function of the world, which holds all that was done so far, so that
-- every order of replies, failures and cancellations is an Env. An operation that returns an error
-- returns the state beside a flag or an optional error.
--
-- The loops of the engine range over slices and are structural recursion here, so they need no
-- fuel. Durations are nanoseconds in ℤ; they stay far below the range of int64 under a valid
-- policy, and no wrap-around is modelled. The floats of a policy are a record of IEEE comparisons
-- with their laws (Safety/Float), of which the one on pauses is for rates from a tenth upwards,
-- where Go defines the conversion to an integer, which Tests/Floats fills with a type of
-- thousandths that has a value that is not a number. A text is a list of bytes. The white space
-- that is trimmed, and at which texts are cut into words, is that of Unicode in UTF-8; case
-- folding is that of ASCII, so that a letter beyond it is compared as it stands. The sorting of
-- package sort is an insertion sort, which is stable. net.ParseIP, strings.Contains,
-- strings.EqualFold and strconv.Itoa are written out in Prelude, strconv.ParseInt and
-- hex.DecodeString in Protocol/Params.
--
-- Not modelled: the YAML and JSON libraries, sockets and files, the vendor table and the decoders
-- of catalogue numbers, the text that error messages, notes and the policy description render, the
-- decoders of S7comm and BACnet, and the packages for parsing captures, syncing advisories and
-- writing reports.
pub mod Prelude
pub mod Asset
pub mod Advisory
pub mod Inventory
pub mod Match
pub mod Safety
pub mod Normalize
pub mod Protocol
pub mod Tests
