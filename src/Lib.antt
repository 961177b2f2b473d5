-- ===== src/Lib.antt =====
-- mcp-portal: a gateway that publishes the operations of HTTP and GraphQL upstreams as MCP tools.
--
-- A config (src/mcp_portal/config/models.py) names upstreams, operations and rules. Sources yield
-- operations (operations.py), which are merged by id (sources/merge.py), classified, filtered by
-- the mode and the selection, and named (classify.py, registry.py, naming.py): the tool set. A tool
-- call (server/mcp.py) looks its operation up, validates the arguments, asks the policy (policy.py,
-- config/policy.py, auth/rar.py, auth/principal.py) and hands the call to the upstream's transport
-- (transports/http.py, transports/graphql.py, transports/common.py), which builds a request and
-- sends it, with retries. All paths are below src/mcp_portal.
--
-- Files and code:
--   Base, Json           lists, dicts, texts as lists of code points, results; JSON values;
--                        Base/Glob and Base/Sorting are fnmatch and sorted of the standard library
--   Platform             case mapping, SHA-256 and the printing of values: a parameter, with
--                        IsLawful for what the theorems use of it
--   Operations           operations.py
--   Rar                  auth/rar.py; Rar/Coverage and Rar/Parsing are its theorems
--   Principal            auth/principal.py
--   PolicyConfig, Policy config/policy.py and policy.py; Policy/Decision,
--                        Policy/Validated, Policy/DeadRules
--   Naming               naming.py; Naming/Slug, Naming/Lengths, Naming/Unique
--   Config               config/models.py: the records; Config/Validation: the validators in the
--                        order in which they run; Config/Usable, Config/Sound
--   Classify, Registry   classify.py and registry.py; Registry/Owners, Registry/Names,
--                        Registry/Toolset, Registry/Errors, Registry/Selected
--   Merge                sources/merge.py; Merge/Laws
--   Flatten              sources/flatten.py; Flatten/Template, Flatten/Arguments
--   Explicit             sources/explicit.py; Explicit/Entries, Explicit/Fuel,
--                        Explicit/Types
--   Transports/Quote, Transports/Replace    urllib.parse.quote, urlencode and str.replace
--   Transports/Common    transports/common.py
--   Transports/Retry     the loop of HttpTransport.execute and GraphQlTransport.execute
--   Transports/Http      build_request and HttpTransport; Transports/GraphQl its counterpart
--   Loader               config/loader.py: secrets, the denylist of headers, load_config;
--                        Loader/Secrets, Loader/Denylist, Loader/Loaded, Loader/Checked
--   TokenCache           auth/token_cache.py: a call alone; TokenCache/Lifetime. TokenCache/Tasks:
--                        calls as tasks, asyncio.Lock and the step relation; TokenCache/Locks,
--                        TokenCache/SingleFlight, TokenCache/Progress
--   Outbound             auth/outbound.py; Outbound/Details, Outbound/Sent,
--                        Outbound/Exchange
--   Jwks, Inbound        auth/inbound.py: the keys, and the verification of tokens; Jwks/Keys,
--                        Jwks/Discovery, Inbound/Tokens
--   Configure            configure/survey.py and configure/decisions.py; Configure/Survey
--   Reconcile            configure/reconcile.py; Reconcile/Partition, Reconcile/Complete
--   Writer               configure/write.py: render_policy; Writer/Owned, Writer/Rules
--   App                  app.py: build_app; App/Wiring, App/Upstreams
--   HttpServer           server/http.py: the principal of a request and its tool call;
--                        HttpServer/Requests
--   Server               server/mcp.py: to_mcp_tool and ToolInvoker; Server/Calls
--   Tests                concrete data, and one run of each theorem
--
-- State and errors: a raised exception is the error of a Result, and where pydantic would collect
-- several errors the first one stands. A tool call returns its result and the list of what it handed
-- to a transport. The retry loop is structural on the attempts that are left, at most three, so no
-- fuel is needed there; the type of a GraphQL variable is read on fuel above its text's length,
-- which Explicit/Fuel shows to be enough. A World says how each attempt ends, how much time has
-- passed and what the jitter draws. Concurrent calls are tasks of one event loop in TokenCache/Tasks
-- and run one after the other elsewhere. Times are whole milliseconds in place of seconds as floats.
--
-- Not modelled: input and output, the SDK, the JWT library, pydantic's reading of files and its
-- string patterns and bounds on the port, and the texts of messages. Schemas of bodies are read as
-- JSON Schema has them: `properties` is an object and `required` a list of texts. The introspecting
-- sources (an argument of App), the rendering of configs, the rest of the servers and the command
-- line are not modelled. What PyJWT verifies, what an identity provider answers and Python's hash
-- are parameters of Inbound and Outbound.
pub mod Base
pub mod Json
pub mod Operations
pub mod Rar
pub mod PolicyConfig
pub mod Principal
pub mod Policy
pub mod Platform
pub mod Naming
pub mod Config
pub mod Classify
pub mod Registry
pub mod Merge
pub mod Transports
pub mod Flatten
pub mod Explicit
pub mod Loader
pub mod TokenCache
pub mod Outbound
pub mod Jwks
pub mod Configure
pub mod Reconcile
pub mod Writer
pub mod App
pub mod HttpServer
pub mod Inbound
pub mod Server
pub mod Tests
