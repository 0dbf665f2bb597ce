-- ===== src/Lib.antt =====
-- kube-diagnose is an operator that streams container logs, groups their errors into incidents,
-- and explains the incidents from a knowledge base or with a language model. This library models
-- the parts that decide: which container is streamed, what counts as the same error and how often
-- it came, what an incident's record and object hold, what is retrieved for it, and when a
-- language model is asked.
--
-- How the parts interact: the platform controller builds the components and keeps them in a
-- global variable; the policy controller lists pods and starts streams on the watcher that stands
-- there; a watcher streams each container and sends its lines on through the filter; the log
-- pipeline takes each line's fingerprint, which is the key of the pattern detector and of the
-- incident store, and starts a goroutine for a new one: it asks the retrieval engine for context
-- and the analyzer for a diagnosis, and writes it to the record. The analyzer asks a provider
-- when the confidence of the context is low, and remembers the answers; the store writes its
-- records to Incident objects and reads them back at a start; the incident controller moves an
-- object's phase; the dashboard shows the store.
--
-- The modules and the code they model:
--   Api                     api/v1alpha1/incident_types.go, the Incident resource
--   Aggregator.Fingerprint  internal/aggregator/fingerprint.go: tokenize, the votes and bits of
--                           Fingerprint, parseFingerprint, HammingDistance, Similarity
--   Aggregator.Patterns     internal/aggregator/pattern_detector.go: Record, GetFrequency,
--                           IsBursting, IsRecurring, cleanup, pruneWindow
--   Aggregator.Store        internal/aggregator/incident_store.go: RecordEvent, GetOrCreate, Get,
--                           UpdateSeverityAndAnalysis
--   Aggregator.Store.Status the status of syncStatus, and LoadExistingIncidents
--   Aggregator.Store.Sync   SyncToKubernetes, syncRecord and syncStatus over the objects
--   Aggregator.Store.Restart  a synchronisation and LoadExistingIncidents after it, with Recovery,
--                           Loading and Uploading for one object, one fingerprint and the cluster
--   Aggregator.Slug         slugify and incidentCRDName of the same file
--   Controller.Incident     internal/controller/incident_controller.go: Reconcile,
--                           transitionPhase
--   Controller.Policy       internal/controller/logwatchpolicy_controller.go: Reconcile,
--                           syncWatchers, resolveNamespaces, updatePolicyStatus
--   Controller.Pipeline     internal/controller/logintelligenceplatform_controller.go:
--                           runLogPipeline
--   Controller.Platform     the same file: Reconcile, ensurePlatformComponents, updateStatus,
--                           indexKnowledgeBase; in Platform.Config the specification and the
--                           builders of clients
--   Dashboard               internal/dashboard/handlers.go: what the handlers show
--   Llm.Cache, Llm.Analyzer internal/llm/analyzer.go: the cache, ShouldUseLLM, Analyze with its
--                           hourly limit and chain of providers
--   Llm.Prompt              internal/llm/prompt.go, internal/llm/openai.go: BuildAnalysisPrompt,
--                           splitPrompt; in Prompt.Reply ParseAnalysisResponse and the provider
--   LogWatcher.Watcher      internal/logwatcher/watcher.go: StartWatchingPod, StopWatchingPod,
--                           StopAll, WatchedCount and the clean-up of streamLoop
--   LogWatcher.Stream       streamLoop, the results of streamOnce, isPodStillRunning and
--                           backoffDuration of the same file
--   LogWatcher.Lines        internal/logwatcher/normalizer.go: Normalize; the loop of streamOnce
--                           over the lines of a stream
--   LogWatcher.Filter       internal/logwatcher/filter.go: NewFilter, ShouldProcess
--   Rag.Chunks              internal/rag/document_loader.go: ChunkDocument, tokenizeWords
--   Rag.Loader              LoadFromDirectory, LoadFromConfigMap and their helpers
--   Rag.Engine              internal/rag/engine.go: Initialize stands in Controller.Platform;
--                           IndexDocuments, IndexResolvedIncident, Retrieve, FormatContext; in
--                           Engine.Uuid docUUID
--   Rag.Embedder            internal/rag/embedder.go: withRetry, NewEmbedder
--   Common                  lists, maps, texts and numbers that the parts share
--
-- State is passed on explicitly: an operation takes a record of its component's fields and
-- returns the next one, and what a mutex makes one step is one function. Where calls overlap, a
-- step relation or a list of steps orders them. A Go map is an association list, iterated in the
-- order of its entries; a string is the list of its bytes; a time is a number of nanoseconds and
-- comes in as an argument wherever the code reads the clock; a float64 is its 64 bits, and a
-- uint64 of the fingerprints the list of its bits. Counters (int64) are numbers that nothing makes
-- overflow.
--
-- Code that is not in the repository is a parameter: MD5, the Unicode tables, the compiler of
-- exclusion patterns, the finds of the normaliser's expressions, the conversion of a float64 that
-- no int64 equals, the encoding of JSON and of an object's times and its decoding, the formats of percentages and times, the
-- parsers of numbers and durations, sort.Slice, the file system, the embedding and chat APIs, the
-- vector store, and the answers of the API server and of the log streams. Of sort.Slice the
-- theorems assume that it keeps the elements and puts them in order. In the pipeline, the
-- fingerprint of a message is a parameter as well, since the regular expressions that normalise it
-- are not modelled.
--
-- The chunking loop runs on fuel, one round for each word of the document, and each round moves on
-- by at least one word. The retries of an embedding call run on the attempts that are left. In
-- Common, printing a number has one round more than its value, and so more than its digits;
-- rounding a ratio to a float64 has 64 rounds of doubling, where at most 62 are needed for a
-- denominator below 2 ^ 10; and a sum of float64 values has 2100 rounds, where its terms have
-- fewer than 2100 bits. All other recursion is structural.
--
-- Not modelled: the normaliser of messages with its regular expressions, the scanner that splits a
-- stream into lines, the HTTP clients of the vector store, of the embedding APIs and of the
-- providers but OpenAI's, the HTML and the server of the dashboard, and the entry point, which are
-- clients of external services or set-up. Of objects, metadata but name, namespace and labels are
-- left out; what their encoding makes of times and of log texts is a parameter of the restart.
pub mod Common
pub mod Api
pub mod Aggregator
pub mod Llm
pub mod LogWatcher
pub mod Rag
pub mod Controller
pub mod Dashboard
