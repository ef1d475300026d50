-- ===== src/Lib.antt =====
-- The ATC dialog of the X-Plane plugin: a model of its core and the theorems about it.
--
-- The plugin listens to the pilot, finds the intent of what was said, and lets a state machine answer
-- as the controller would. Code is named by its path from the repository's root.
--
-- Parts, in the order in which they build on each other:
--   * Base: names of the libraries, Boolean tests, lists, texts (`std::string`), ordered maps, and
--     runs of character codes for the code that walks its text. Double: `double` and `float` as an
--     interface; Double/Fixed is a decimal instance, on which the tests run.
--   * Radio and Context: src/core/xplane_context.hpp and .cpp, the simulator's snapshot, the search
--     for a tuned frequency, the facility classes.
--   * Intent, State: the enumerations of src/atc/intent_parser.hpp and
--     src/atc/atc_state_machine.hpp with their names.
--   * Geometry, Traffic, Landing: src/data/traffic_geometry.cpp, src/data/traffic_phase_classifier.cpp
--     and src/atc/landing_sequence.cpp.
--   * Templates, Readback, InitialCall, Phonetic: src/atc/atc_templates.cpp,
--     src/atc/bzf_compliance.cpp (its regular expressions as searches over character codes, in
--     Readback/Match), src/atc/initial_call_conformance.cpp, and the phonetic spelling.
--   * FlightPhase, PhaseTracker: src/atc/flight_phase.cpp, the rules, the detection and the
--     hysteresis.
--   * Machine: `AtcMachineState` of src/atc/atc_state_machine.cpp and its mutators; a function that
--     mutates `g_state` returns the new record. Machine/Discipline states what a stage may do to the
--     machine; the files called Stages walk every stage once for all disciplines, and the
--     disciplines of Machine/Generation, Machine/History and Process/Airborne fill the interface.
--   * World: the machine beside the airport seen last, the traffic dialog and the tracked phase;
--     init, stop, reset, begin_fresh_flight, disregard, set_state.
--   * Dialog and Dialog/Pilot: src/atc/traffic_dialog.cpp.
--   * Vars, Flows, Clearance, Hooks, Process: src/atc/flows and `process`. A guard is a stage that
--     changes the machine and either replies or lets the call proceed (Response); `do` composes the
--     guards in the order of the source.
--   * Snapshot, AutoCorrection, Queries: the other parts of src/atc/atc_state_machine.cpp.
--   * Advisor: src/atc/traffic_advisor.cpp, which aircraft the controller calls out and when.
--   * Phraseology and English: src/atc/de_phraseology.cpp and src/atc/en_phraseology.cpp, the passes that
--     spell a text for the synthesizer, `parse_spoken_number` and `parse_spoken_icao`, on runs of
--     character codes with the scanner of Base/Scan.
--   * IntentRules: src/atc/intent_rules.cpp on a loaded table. IntentParser: src/atc/intent_parser.cpp, the
--     extractors and `parse`. Vrps: src/data/airport_vrps.cpp, the reporting points.
--   * Atis: src/atc/atis_generator.cpp, the letter and the texts.
--   * Hints: src/atc/phraseology_hints.cpp. RunwayChoice: the runway in use, the airport of a tuned
--     frequency and the airports near by, of src/core/xplane_context_runtime.cpp. Traffic/Update: one tick of
--     src/data/traffic_context_runtime.cpp.
--   * OpenAir: src/data/openair_db.cpp, the queries over the airspaces that were read.
--   * Airspace: src/data/airspace_db.cpp, the queries and the cache of the polygons.
--   * Engine: src/atc/engine.cpp. Engine/Transcript takes a transcript to its answer, or to a request
--     to the language model whose answer `on_classified` takes up at whatever state it finds;
--     Engine/Poll holds the controller's own calls; Engine/Session runs both in any order.
--   * Commands: the mutating calls of the interface as data, and sessions of them.
--   * Tests: concrete inputs.
--
-- Bounds. The counter of generations is a number modulo 2^64; a command bumps it at most 24 times,
-- so fewer than 2^64 / 24 commands do not bring an old count back. Every loop is a structural
-- recursion over the list or the text that it walks; none needs fuel.
--
-- Parameters and what is left out. The loaded JSON files are values (FlightRules, Templates,
-- Conformance, the rules of intents, the airports) and so are the settings and the traffic snapshot
-- (Env); Env also holds the pattern direction, which Vrps.get_pattern_direction computes, and the
-- letter of the ATIS. The engine takes the parser of intents as an argument, of which
-- IntentParser.parse is one, and the verdict of the language model; its prompt and the cross-country
-- log are left out. The clock of the ATIS, the lines of the airspace file and the numbers of such a
-- line are arguments. The log, the thread assertions and the confidence of a message that reaches
-- the state machine are left out. The laws of an order of doubles that are not NaN are the record
-- IsOrdered, used where it is named. The loaders of the files, the lines and arcs of the OpenAir
-- files, the session, audio, back ends, persistence and the user interface are not modelled.
pub mod Base
pub mod Double
pub mod Radio
pub mod Context
pub mod Intent
pub mod Geometry
pub mod Templates
pub mod Phonetic
pub mod Phraseology
pub mod Readback
pub mod State
pub mod Dialog
pub mod FlightPhase
pub mod Settings
pub mod Machine
pub mod World
pub mod Traffic
pub mod Vrps
pub mod Hints
pub mod OpenAir
pub mod RunwayChoice
pub mod Airspace
pub mod Landing
pub mod InitialCall
pub mod IntentRules
pub mod IntentParser
pub mod Env
pub mod Vars
pub mod Response
pub mod Flows
pub mod Clearance
pub mod Hooks
pub mod Process
pub mod Snapshot
pub mod Advisor
pub mod AutoCorrection
pub mod Atis
pub mod Engine
pub mod English
pub mod PhaseTracker
pub mod Queries
pub mod Commands
pub mod Tests
