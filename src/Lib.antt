-- ===== src/Lib.antt =====
-- Verification of the decision core of the tizenclaw agent daemon (src/tizenclaw).
--
-- The daemon answers prompts with a language model that may call tools. AgentCore keeps a history
-- of messages per session; each tool call of the model goes through ToolPolicy (blocked tools,
-- repeated calls), SafetyGuard (roles, excluded tools, bounds on arguments, a rate limit) and
-- ToolRouter (a name is redirected to a better tool), and then runs. UserProfileStore says which
-- role the user of a session has. The CapabilityRegistry knows all tools and finds the overlaps that
-- the router follows. EventBus carries system events, and AutonomousTrigger starts prompts on them.
-- PipelineExecutor and WorkflowEngine run stored sequences of steps. A2AHandler lets other agents
-- send prompts over JSON-RPC, and TaskScheduler starts prompts at set times. KeyStore keeps the keys
-- of the backends encrypted, SwarmManager shares events with the peers on the local network, and
-- OfflineFallback answers by rules where no backend can be reached.
--
-- Files, and the code they are about:
--   ToolPolicy          src/tizenclaw/core/tool_policy.{hh,cc}: CheckPolicy, CheckIdleProgress,
--                       the resets, LoadConfig, LoadManifestRiskLevel
--   SafetyGuard         src/tizenclaw/core/safety_guard.{hh,cc}: Validate, CheckActionRateLimit,
--                       ClampToSafe, LoadConfig, LoadDeviceProfile
--   ToolRouter          src/tizenclaw/core/tool_router.{hh,cc}: all methods, and all methods
--                       of src/tizenclaw/core/capability_registry.{hh,cc}
--   UserProfiles        src/tizenclaw/core/user_profile_store.{hh,cc}
--   ToolGate            src/tizenclaw/core/agent_core.cc: the task of one tool call in ProcessPrompt
--   ChatHistory         src/tizenclaw/core/agent_core.cc: CompactHistory, TrimHistory;
--                       src/tizenclaw/storage/session_store.cc: SanitizeHistory
--   EventBus            src/tizenclaw/core/event_bus.{hh,cc}: Publish, Subscribe, SubscribeAll,
--                       Unsubscribe, the event sources, a turn of DispatchLoop, LoadPlugins
--   AutonomousTrigger   src/tizenclaw/core/autonomous_trigger.{hh,cc}: LoadRules, Start, Stop,
--                       OnEvent and what it calls, ListRules
--   Pipeline            src/tizenclaw/core/pipeline_executor.{hh,cc}: RunPipeline; Store is the
--                       table with its files, Condition is EvalCondition and Interpolate
--   Tokenizer           src/tizenclaw/embedding/wordpiece_tokenizer.{hh,cc}
--   A2a                 src/tizenclaw/channel/a2a_handler.{hh,cc}: all methods
--   Scheduler           src/tizenclaw/scheduler/task_scheduler.{hh,cc}; Files and Load are the task
--                       files (SaveTask, LoadTasks)
--   Swarm               src/tizenclaw/core/swarm_manager.{hh,cc}: the table of peers and the packets
--   KeyStore            src/tizenclaw/infra/key_store.{hh,cc}: all methods; Config is EncryptConfig
--   OfflineFallback     src/tizenclaw/core/offline_fallback.{hh,cc}: all methods
--   Workflow            src/tizenclaw/core/workflow_engine.{hh,cc}: the table, RunWorkflow,
--                       Interpolate, and the Markdown parser (Markdown)
--   Base                shared names, lists, dictionaries, integers, text, loaders that may throw
--   Json, TestJson      what is called of the JSON library, what it promises (Standard), and an
--                       instance of it for the tests
--
-- A type or function keeps its name (CheckPolicy is check_policy, kMaxHistorySize is
-- max_history_size). An object is a record of its members, and a method a function of it that returns
-- it; a method that holds its mutex throughout is one step. A std::map is an association list with
-- one entry to a key, a std::set a list, and no theorem depends on the order of a walk. A loader that
-- throws leaves what it wrote before (Base.Attempt). The clock is an argument of the methods that
-- read it. Counters and the numbers read from JSON are unbounded, but the seconds of an interval wrap
-- as an int does (Base.Int.int32). Cuts of strings count characters, and numbers print by recursion on
-- fuel, one more than the number itself, which is more than it has digits.
--
-- Parameters: the JSON library of src/common/nlohmann with its conversions and parser
-- (Json.JsonLib) and its writes through references (KeyStore.Config.References), double
-- (SafetyGuard.Defs.Doubles), std::hash, the functions that run a tool (ToolGate.Executors), the
-- language model, what other threads do while it is asked, the calendar of the C library
-- (Scheduler.Calendar) and its texts of times (Scheduler.Files.Formats), SHA-256 and base64 of GLib
-- (KeyStore.Defs.Glib), and std::sort (OfflineFallback.Defs.Sorter).
-- The results on pipelines and workflows hold for whatever ExecuteStep and EvalCondition are, so
-- that these are arguments too. The loop of RunPipeline takes fuel: conditions may jump backwards,
-- and then it need not end. The keystream of KeyStore takes as much fuel as there are bytes: each
-- turn of its loop adds some. The loop of Interpolate takes as much as the template has characters:
-- each match takes some of them. A regular expression is written out as the function that matches
-- it (Workflow.Markdown.step_header, Workflow.Interpolate.placeholder). A string is a list of
-- character codes where it is parsed (Base.Bytes, Base.Find).
--
-- Not modelled: log output and metrics, the files of workflows, ExecuteStep of pipelines and of
-- workflows with InterpolateJson, which only it calls, configuration files as such, and the
-- other parts of the daemon: the other channels, the backends of language models, memory and
-- embedding stores, the action bridge, the web dashboard, and the programs beside the daemon.
pub mod Base
pub mod Json
pub mod TestJson
pub mod ToolPolicy
pub mod ToolRouter
pub mod SafetyGuard
pub mod UserProfiles
pub mod ToolGate
pub mod ChatHistory
pub mod EventBus
pub mod AutonomousTrigger
pub mod Pipeline
pub mod A2a
pub mod Swarm
pub mod Tokenizer
pub mod Scheduler
pub mod KeyStore
pub mod OfflineFallback
pub mod Workflow
