-- ===== src/Lib.antt =====
-- A model of the logic of the Relay workflow editor, with the theorems about it.
--
-- The program is a web application (frontend/) over Python services. The editor keeps a canvas of
-- nodes and edges, checks it in the browser, offers variables to its forms, publishes workflows and
-- activates their schedules through the API. The model covers that logic:
--
--   Js            values as `JSON.parse` gives them, texts, conversions, the host (Js.Host: what the
--                 browser supplies), and asynchronous code that may throw (Js.Effect: a state with
--                 the list of the calls made, and a server that answers each call in any way;
--                 Js.Effect.Log: the calls with the answers that they got).
--   Graph         the nodes and edges, and the two search loops that the code writes (Explore:
--                 pop, skip or visit; Flood: mark, then push).
--   Variables     frontend/src/components/workflow/workflowVariables.js: previousNodesFor and
--                 guaranteedPreviousNodesFor.
--   Schedule      frontend/src/components/workflow/scheduleTrigger.js: Config, Cron, Validate and
--                 Payload for the form, Draft for the payload drafts, Status for what is shown,
--                 Reconcile for reconcilePublishedSchedule, Publish for publishWithSchedule and
--                 retryScheduleActivation.
--   Config        frontend/src/components/workflow/configValidation.js and branchOptions.js:
--                 Patterns for the regular expressions, Normalize for the normal forms, Node for
--                 validateNodeConfiguration, Options for branchOptions, Branches for the branch
--                 labels, References for the expressions, Rename for
--                 renameDecisionInput, Workflow for the whole canvas.
--   Proxy         frontend/src/lib/server/apiProxy.js: Config for proxyConfig, Trust for
--                 trustedMutation, Headers, Body for boundedBody, Cookies for proxyCookie and
--                 proxyLocation, Forward for proxyRequest and gatewayReady.
--   Executions    frontend/src/lib/executions.js and executionPayload.js: Status for statuses,
--                 durations and latestCanvasRun, Canvas for canvasExecutionState, Payload for
--                 payloadSection, Tokens for payloadTokens, Validate for the checks of the server's
--                 answers.
--   Client        frontend/src/lib/api.js: Messages for responses, errors and headers, Session for
--                 apiRequest and refreshAuthTokens by any number of callers at once.
--   Saving        frontend/src/components/workflow/workflowSaveState.js (Snapshot), and handleSave of
--                 WorkflowBuilder.jsx beside it: Diff for what has to be changed on the server, Save
--                 for the calls and for what the editor holds after each.
--   Validation    frontend/src/components/workflow/workflowValidation.js: Definition for
--                 workflowDefinition, Answer for normalizeValidation and validateCanvas, Contract for
--                 the catalogue; useWorkflowValidation.js: Inline for the effect that validates the
--                 canvas while it is edited.
--   Editing       Catalogue for frontend/src/components/workflow/nodeDefinitions.js, and of
--                 WorkflowBuilder.jsx beside it: Load for buildInitialState, References for
--                 removeNodeOutputReferences, Changes for the handlers that change the canvas,
--                 History for undo and redo and for an editor between two saves, Saved for a
--                 workflow from its loading to its first save.
--   Examples      concrete canvases, forms and runs.
--
-- Reconcile uses Payload and Validate, Publish uses Reconcile; Options and References use
-- Variables; Editing.Load gives what Save starts with, and an edited canvas fulfils what the theorem
-- about Save asks for; Validation uses Saving.Snapshot; Save uses Diff and Snapshot, which normalize
-- configurations with Config.Normalize; Workflow uses all of Config and, for the schedule trigger,
-- Schedule.Validate.
--
-- Numbers of the program are `Js.Num` (NaN, an infinity, or a dyadic number); arithmetic on sizes
-- is on ℕ. A session of requests is a relation of steps between pages: each step is the code of one
-- caller between two waits, in any order; a save is one caller's code over a server that answers in
-- any way. The editor's nodes carry a logical id and a type, and their configuration is an object or
-- missing. The draft of a trigger's input is a value at the publication, and the code runs in a
-- browser. Texts are read by code point, and `js_length` counts UTF-16 units. Object ids are texts.
--
-- Bounds and fuel: each search loop has fuel for one round per edge and per start, since each round
-- but the starts' is paid for by the one visit of an edge's end; Graph.Explore.Fuel and
-- Graph.Flood.Correct show that the loops never run out. Recursion is structural elsewhere.
--
-- Not modelled: rendering and event wiring (React), date formatting, the Python services, which
-- stand behind the API parameter, and deployment; of the browser's code, the loading of the
-- catalogue (useWorkflowValidation.js), manualTrigger.js, deadLetter.js, integrations.js, the labels
-- of executions.js, the absolute form of addresses in api.js, and of WorkflowBuilder.jsx selection,
-- publishing dialogs, navigation guards, the seeding of the counters for logical ids and the changes
-- that React Flow reports but for a dragged node.
pub mod Prelude
pub mod Js
pub mod Graph
pub mod Variables
pub mod Schedule
pub mod Config
pub mod Examples
pub mod Proxy
pub mod Executions
pub mod Client
pub mod Saving
pub mod Validation
pub mod Editing
