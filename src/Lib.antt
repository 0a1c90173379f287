-- ===== src/Lib.antt =====
-- PrivyGate, a privacy gateway before a language model: it masks personal data in what a client
-- sends, and restores it in what comes back. This library models its core.
--
-- The parts and the files that model them:
-- - Errors.antt: app/errors.py, the errors of the /process contract with their status codes.
-- - Store.antt: app/process_store.py, `ProcessStore`. `Store/Evict.antt` has the private methods that
--   run under the lock (`_evict_session_locked`, `_evict_expired_locked`,
--   `_trim_tombstones_locked`, `_is_tombstoned_locked`), `Store/Sessions.antt` the public ones.
--   A method is a function from the store to the store and its result; an error keeps what was
--   written before it. `Store/Calls.antt` runs sequences of calls, which are the interleavings of
--   the tasks, since each method is atomic under its lock.
-- - Demask.antt: app/pii.py, `StreamingDemasker` and `demask`, and the loop of `_iter_text_demasked`
--   in app/upstream.py, against a one-pass replacement.
-- - Mask.antt: app/pii.py, `resolve_overlapping_matches` and `PIIMasker` over any detectors.
--   `Mask/Overlap.antt` and `Mask/Maximal.antt` are about the selection, `Mask/Decisions.antt` about the
--   decisions that are logged, `Mask/Typed.antt` about the typed placeholders, `Mask/Splice.antt` and
--   `Mask/Unmask.antt` about masking and demasking in a row.
-- - Metrics.antt: app/metrics.py, the counters of `ProcessMetrics`.
-- - Service.antt: app/process_service.py, `ProcessService` over the store, and the round of
--   `StoreEvictionTask` in app/metrics.py. `Service/Answers.antt` is about an id that has a session,
--   `Service/RoundTrip.antt` and `Service/Failure.antt` about the stretch after the engine's answer,
--   `Service/Events.antt` and `Service/Bytes.antt` about sequences of all stretches,
--   `Service/World.antt`, `Service/Stretches.antt` and `Service/Leaders.antt` about the calls that
--   share a service, in any interleaving.
-- - Checksums.antt: app/pii.py, `_passes_luhn`, `_is_sequential_digits` and the checksums of
--   `SNILSDetector` and `INNDetector`.
-- - Regex.antt: what the program uses of Python's `re`. Patterns.antt: the patterns of app/pii.py.
-- - Context.antt: app/pii.py, `_context_confidence` and its helpers.
-- - Boundaries.antt: app/pii.py, the helpers and loops that find where a value starts and ends.
-- - Dates.antt: app/pii.py, the calendar and the dates that matches stand for.
-- - Names.antt: app/pii.py, the tests of names and `is_known_person`.
-- - Detectors.antt: app/pii.py, the detectors with rules. `Detectors/Rules.antt` has
--   `default_rule_detectors` and hands them to the masker; `Detectors/Sound.antt`,
--   `Detectors/Values.antt`, `Detectors/Marked.antt` and `Detectors/Written.antt` are about what the
--   detectors find.
-- - Policy.antt: app/policy.py, `PolicyRegistry`. `Policy/Items.antt` is about the items of its file,
--   `Policy/Loading.antt` about what a load leaves, `Policy/Allowed.antt` about who is let in.
-- - Models.antt: app/model_registry.py, `ModelRegistry`. `Models/Offers.antt` is about the items of its
--   file, `Models/Loading.antt` about the names in the registry.
-- - Gateway.antt: app/main.py, `chat_completions` up to the upstream, with the request of
--   app/models.py. Engine.antt: app/pii_engine.py, `PIIMaskingEngine`.
-- - Routing.antt: app/routing.py, `RoundRobinRouter`.
-- - Common.antt: Booleans, lists, texts, dictionaries and integers.
--
-- A field of a configuration file is absent, null or of its documented type; what `json` makes of the
-- file, or how reading it fails, is an argument of each call. `asyncio.wait_for` is that of Python
-- 3.12: once the time is up it raises TimeoutError, whatever its future has by then.
--
-- Texts are lists of code points without lone surrogates. Times are ticks of the clock, a natural
-- number; the sums of floats are taken to be exact. `time_func` is a function from the number of
-- the reading. `current_bytes` is an integer that may go below zero. A heap is the list of its
-- entries in order. The loop of the demasker runs on fuel, one more than the length of the buffer:
-- enough where no placeholder is empty, since each round takes one off the buffer. The weights of
-- the detectors are in hundredths, and their scores natural numbers of units; the tables of
-- Unicode, the sets of names and one float expression are parameters (`Chars`, `NameSets`,
-- `influence` of `Platform`).
--
-- Not modelled: the address detector (app/address_detector.py), for which any detector stands, and
-- the ML detector (app/ner.py), the upstream clients but for the loop above, and the rest of the
-- gateway; nor the FastAPI wiring, logging, the thread pool, the word lists, the mock backend and
-- the scripts.
pub mod Common
pub mod Errors
pub mod Store
pub mod Demask
pub mod Mask
pub mod Metrics
pub mod Service
pub mod Checksums
pub mod Routing
pub mod Regex
pub mod Patterns
pub mod Context
pub mod Boundaries
pub mod Dates
pub mod Detectors
pub mod Names
pub mod Policy
pub mod Models
pub mod Gateway
pub mod Engine
