-- ===== src/Lib.antt =====
-- hactl-companion: a Home Assistant add-on that reads and writes the YAML configuration over
-- HTTP. The library models the parts of src/companion that decide what is read, what is written
-- and who may ask.
--
-- Base: Python's strings as lists of code points (Base/Strings), list helpers and Boolean tests.
-- Http: the exceptions that handlers raise, and results that may be one. A handler that changes
-- the volume returns its result and the new volume, also when it raises.
--
-- PathGuard (src/companion/pathguard.py): a resolved path is the list of its components.
-- `os.path.realpath` is the record `Os`, with the canonicity that the library documents in
-- `IsResolving`; PathGuard/Lexical meets it. Files: the volume as a list of paths and texts.
-- Backups (src/companion/backups.py): copies under `.hactl_backups`, pruned to the newest ten;
-- the clock is the timestamp's text.
--
-- Yaml: the loaded values and the composed nodes of ruamel.yaml, which itself is the record
-- `Yaml` (compose, load, dump) without laws: nothing is assumed of the parser. Yaml/Plain: the
-- comparison of trees as plain Python values. Keys of mappings are scalars and are read as
-- texts.
--
-- Surgical (src/companion/surgical.py): Span is the text arithmetic, Splice the write of one
-- entry, Leaves the rewriting of scalars, Verify the re-parse, Save the guarded write. The loop
-- of `_content_end` runs on fuel; each round moves the end back, so `limit` rounds are enough,
-- and content_end-IsContentEnd, which says where the loop stops, would fail if they were not. A
-- key that is a text never addresses a list.
--
-- Config (src/companion/params.py and the write route of src/companion/routes/config.py): the
-- dry run, the backup, the write, the check by Home Assistant and the rollback, as functions of
-- the volume. The answer of the check, which src/companion/core_api.py asks Home Assistant for,
-- is a function of the volume, an exception that nothing catches among them; Put has the
-- theorems.
--
-- Auth and Server (src/companion/auth.py, src/companion/server.py): the decision who may pass,
-- and the middlewares around a handler, which is a function of the request and of any state, so
-- that the theorems in Server/Access hold of every handler. LogBuffer
-- (src/companion/logbuffer.py): the bounded buffer of log entries and the query over it.
--
-- Monitor (src/companion/wg_monitor.py): Rounds has what a round leaves in the state, Attempts
-- the runs of the reconnection loop. The endless loops run on fuel, one unit for each attempt or
-- round, and a run that uses up its fuel answers `waiting`; the theorems hold for any fuel.
-- Commands, lookups and the clock are the record `Machine`. Registry: the tasks as numbers. The
-- peers come from src/companion/wg.py, which is not modelled but for their type.
--
-- Automations (src/companion/routes/automations.py): the five handlers over one list of items.
-- The file is the one that src/companion/wiring.py gives, and the reload and the live states are
-- those of src/companion/core_api.py; all are parameters. Writes, Membership and Creation put
-- the guarantee of `save_entry` in terms of the list.
--
-- Scripts (src/companion/routes/scripts.py): the five handlers over one mapping, with the same
-- parameters as those of the automations.
--
-- RefScan (src/companion/refscan.py, src/companion/routes/refscan.py): Token is the pattern of a
-- whole token, Tree the scan and the rewriting of one tree, Entities the pattern of an entity
-- id. Walk is the breadth-first loop over any graph of files; Includes and Load give the graph
-- of a volume, with the path guard and `load` of src/companion/yaml_resolver.py; Scan and
-- Replace are the two walks with their reports, Route the handler that writes. The loop runs on
-- fuel: a round for the entry, and for each file as many as the file with the most includes
-- needs. The loader of ruamel.yaml, the characters of `\w` and the trees of directories are
-- parameters.
--
-- Resolver (src/companion/yaml_resolver.py): `load` with its includes resolved. The set of
-- visited files is passed down, since a file leaves it when it is done. A chain of includes runs
-- on fuel, one more than the files of the volume and the entry, which is enough since a file
-- that is visited again ends the chain.
--
-- Forward (src/companion/ha_forward.py): the listeners of a tunnel and their report, and the
-- tasks of its connections as a sequence of events in any order; a `finally` block takes one
-- event for each of its waits, and an event cancels it in one. `ipaddress`, `start_server` and
-- the Supervisor's answer are parameters.
--
-- Config/Read (src/companion/routes/config.py): the file of a request as it is written or with
-- its includes resolved, and one block of it by id, alias or position. CoreApi
-- (src/companion/core_api.py): what the calls of Home Assistant's API make of an answer, and the
-- polling for an entity. Logs (src/companion/routes/logs.py): the parameters of a query of the
-- log buffer.
--
-- Wiring (src/companion/wiring.py): the file that a new entry of a domain belongs in, read off
-- configuration.yaml, or the refusal by its cause.
--
-- RefGrep (src/companion/refgrep.py): the strings of the trees that a walk yields, the literal
-- match and the report. The regular expressions are not modelled.
--
-- A document's tree holds each collection once: in RefScan, a document in which an alias puts
-- the same mapping or list under two paths is outside the model of a replacement, which the
-- source performs in place.
--
-- Not modelled: the parts of src/companion that the sections above do not name, among them the
-- read side of the wiring of domains, the WireGuard tunnel, the routes other than those above,
-- and the HTTP server itself.
pub mod Base
pub mod Http
pub mod PathGuard
pub mod Files
pub mod Backups
pub mod Yaml
pub mod Surgical
pub mod LogBuffer
pub mod Monitor
pub mod Auth
pub mod Server
pub mod Automations
pub mod Scripts
pub mod RefScan
pub mod Resolver
pub mod Forward
pub mod CoreApi
pub mod Logs
pub mod Wiring
pub mod RefGrep
pub mod Config
