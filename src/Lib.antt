-- ===== src/Lib.antt =====
-- A verification library for the core of the Extensible Service Proxy: how the proxy finds the API
-- method of an HTTP request, authenticates the request, checks it against service control and reports
-- it, how it keeps its service account token, how it deploys configs, how a trace is carried on by
-- its headers, and some smaller parts: a counter over a sliding window,
-- the mapping of status codes, and the rewriting of uris.
--
-- The parts and the files that model them:
-- * HttpTemplate models src/api_manager/http_template.{h,cc}. `Parser` is the record of the C++ class
--   with its token window (tb, te), and each method is the function of the same name in lower case:
--   `parse_segment` is `ParseSegment`. A method that answers a bool and changes the parser answers
--   a pair or an `Outcome`. `parse_http_template` is `HttpTemplate::Parse`. A variable's end is a
--   `Position`: counted from the start, or `from_end d` for the negative number -d. Window, Ranges
--   and Nesting carry the invariants through the parser, Parsed states the results.
-- * PathMatcherNode models src/api_manager/path_matcher_node.{h,cc}, a trie. A node and its children
--   are mutual data types; `result_map_` and `children_` are association lists; the out parameter of
--   `LookupPath` is an option that is passed on. Stored views the trie as a finite map, Flags has the
--   invariant of the wildcard flag, Matching says which paths match a request, and Lookup compares.
-- * PathMatcher models src/api_manager/path_matcher.h: Unescape the url unescaping, Request the split
--   of a request path, Bindings the values of variables and query parameters, Builder `Register` and
--   both forms of `Lookup`. Registered follows any sequence of registrations, and Lookups joins the
--   parser, the trie and the request split into the statement on `Lookup`.
-- * TimeBasedCounter models src/api_manager/utils/time_based_counter.{h,cc}.
-- * StatusCode models src/api_manager/utils/status.cc and include/api_manager/utils/status.h.
-- * RewriteRule models src/api_manager/rewrite_rule.{h,cc}.
-- * UrlUtil models src/api_manager/utils/url_util.cc, and MethodInfo models
--   src/api_manager/method_impl.{h,cc}: Providers is about the issuers and audiences that are allowed,
--   and Backend splits the address of a backend.
-- * ConfigManager models the download of a rollout in src/api_manager/config_manager.{h,cc}.
--   Rollout follows all its callbacks.
-- * Request is the interface of include/api_manager/request.h. RequestContext models
--   src/api_manager/context/request_context.{h,cc} and parts of service_context.cc beside it: the
--   method and the API key of a request, ClientIp its address, BackendPath the path for the backend,
--   Operation what service control is told, Report the reports of src/api_manager/request_handler.cc,
--   and Deltas what they add up to.
-- * Workflow models src/api_manager/check_workflow.cc: a handler is a function of the context and of a
--   continuation. Control has the handlers of src/api_manager/check_service_control.cc and
--   quota_control.cc, Order compares the workflow with the search for the first failure, and
--   Admission follows the handlers as `RegisterAll` registers them.
-- * ServiceControl models src/api_manager/service_control/proto.cc: Metrics and Labels are the
--   tables of what a report has, LogEntry its logs, Fill the requests, Convert the answers;
--   Aggregated models src/api_manager/service_control/aggregated.cc, FailOpen what becomes of its
--   failures; Once follows the metric that counts requests through the reports of
--   RequestContext.Report.
-- * Auth models the authentication: Checker, with its State, is `AuthChecker` of
--   src/api_manager/check_auth.cc, a run of which ends with an answer or waits for an HTTP
--   response; Keys and Cache are what requests share, src/api_manager/auth/{certs,jwt_cache}.h and
--   the key uris of config.cc. Sound and Entry follow the runs, Flight is the step relation of all
--   requests of a process, and Answered counts responses.
-- * Token models src/api_manager/auth/service_account_token.{h,cc}, and Fetch the requests and
--   responses of src/api_manager/fetch_metadata.cc. Refresh counts fetches, Identity is the step
--   relation of a token. Jwt has the
--   tokens that are made from a client secret, and Audience follows them.
-- * CloudTrace models src/api_manager/cloud_trace: Stream what the readers use of the streams of std,
--   Header both readers of the header of a trace, Create `CreateCloudTrace` and `Sampler`, Spans the
--   spans of a trace, Aggregator the traces that are sent. Carried, Sampling, Spans.Parents and
--   Aggregator.Delivery follow a trace to the next proxy, the sampler, the spans and the requests.
-- * WeightedSelector models src/api_manager/weighted_selector.{h,cc}, and ApiManager the deployment of
--   configs in src/api_manager/api_manager_impl.cc. Least and Fairness are about the loop of `Select`,
--   Deployed about all states of a manager that runs.
-- The parts meet in these places: the answer of PathMatcher is a parameter of RequestContext; the
-- workflow takes the context, with MethodInfo in it, through its checks, and the answers of those of
-- Auth and Token are parameters of Admission; Auth asks `isIssuerAllowed` and `isAudienceAllowed` of
-- MethodInfo; the service control that Control asks is an interface, which Aggregated fills.
-- The rollouts that ConfigManager applies are those that ApiManager deploys, and a config is selected
-- for a request by WeightedSelector.
-- Each part has a module Examples with runs of the code and concrete cases of its results.
--
-- A `std::string` is a list of bytes. The recursion of the parser runs on fuel, one more than the
-- length of the input, for each round of a loop consumes a byte; the nesting of segments in a variable
-- is two deep, since a variable in a variable is refused. Sizes are unbounded, except for the
-- subtraction of `size_t` in `ExtractBindingsFromPath`, which wraps at 2 ^ 64, and the counts of
-- the time based counter are integers that do not overflow. A read out of bounds is the answer
-- `none` or `out_of_bounds`. The methods that are registered are records of the fields that the matcher
-- reads.
--
-- Times are natural numbers, of the unit that a module says, and an argument of each run that reads a
-- clock; the clock is read once in a run. A null pointer that is used and a run that ends without an
-- answer are values. Byte counts in reports are integers without a bound. The time based counter
-- divides by the duration of a slot, which is zero for a duration of fewer milliseconds than slots; the
-- model then answers `none`. The selection of the weighted selector takes the comparison of scores as a
-- parameter; WeightedSelector.Float has the binary32 floats of the source for it, where the count and
-- the weight have exact floats, and any comparison elsewhere. The numbers of the type double of the
-- sampler are a parameter with their comparison.
--
-- Not modelled: the regular expressions of pcre (what they compile and match is a parameter), the
-- JWT validator of OpenSSL and gRPC, the LRU cache and the service control client, which are
-- parameters; logging and the messages of trace spans; protobuf and JSON conversions; the rest of the proxy:
-- security rules, the gRPC and nginx front ends, which are input and output, generated
-- messages or calls of other libraries.
pub mod Base
pub mod UrlUtil
pub mod MethodInfo
pub mod ConfigManager
pub mod HttpTemplate
pub mod PathMatcherNode
pub mod PathMatcher
pub mod TimeBasedCounter
pub mod StatusCode
pub mod RewriteRule
pub mod Request
pub mod RequestContext
pub mod Workflow
pub mod ServiceControl
pub mod Auth
pub mod Token
pub mod CloudTrace
pub mod WeightedSelector
pub mod ApiManager
