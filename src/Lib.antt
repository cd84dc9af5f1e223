-- ===== src/Lib.antt =====
-- A model of the OpenClaw control plane, and what makes its operations on live instances safe.
--
-- The control plane provisions, updates and repairs OpenClaw instances on Railway. It is a set of
-- asynchronous TypeScript functions that drive the Railway CLI, the HTTP API of an instance's setup
-- wrapper, and local files. What can go wrong is in the order of these effects: a variable that is
-- overwritten without being what the caller expected, an old deployment that is taken for the new
-- one, a failure after a write that reads like nothing happened, a config document that loses a
-- field, a device that is approved by guess.
--
-- Effects.antt is the world and the monad. The world is an oracle, `Env`: what the CLI, a server,
-- the file system and the clock answer may depend on all events before, the `Trace`. A function of
-- the code is an action `M A = Trace → Out A`, which returns or throws and leaves a trace. Nothing
-- is assumed of the oracle, but where a theorem says so: those on the ends of the polling loops
-- take a clock that advances by what is slept (`IsClock` in Railway/Deadline.antt), and the
-- refinement of an update takes a platform that keeps a variable in a cell which nobody else
-- writes (`IsCell` in Client/Refinement.antt). Effects/Errors.antt has one constructor for each
-- `throw`, Effects/Triple.antt the rules of pre- and postconditions, Effects/Reads.antt the events
-- that change nothing. Concurrent changes by others are in the oracle too: two reads of one
-- variable may differ.
--
--   packages/openclaw-railway-installer/src
--     index.ts              Railway.antt: findTemplateService, pollServiceUntilSuccess, listServices,
--                           listDomains, ensureDomainPort, checkSetupStatus, waitForSetupReady;
--                           EnvFile.antt: mergeEnv; Install.antt: installOpenClawOnRailway,
--                           resolveOptions, writeEnvLocal; Install/Handoff.antt: buildHandoff
--     railway-variables.ts  Railway.antt: listRailwayVariables, readRailwayVariable,
--                           writeRailwayVariable
--     provision-client.ts   Client.antt: assertInstanceReady, updateClientRefVariable,
--                           updateClientTemplateRef, updateClientOpenClawRef, rotateGatewayToken;
--                           Provision.antt: provisionClientInstance, resolveProvisionOptions,
--                           selectSoleService, writeProvisionEnvLocal; Provision/Handoff.antt:
--                           buildProvisionHandoff
--     patch-allowed-origins.ts, approve-own-device.ts
--                           Instance.antt: patchAllowedOrigins, approveOwnDevicePairing and their
--                           default HTTP calls
--     template-lock.ts      TemplateLock.antt: parseTemplateLock, readTemplateLock,
--                           checkTemplateUpdate
--     verify-proof.ts       Proof.antt: verifyOpenClawRailwayProof, formatProofVerification;
--                           Proof/Paths.antt: normalize, normalizePath, isAllowedStartCommand
--     setup-auth.ts         Effects/Platform.antt: SetupAuth, basicAuthHeader
--     cli.ts, client-cli.ts Cli.antt: requireValue, parseIntegerFlag and the loop of the parsers;
--                           Cli/Installer.antt: parseArgs, parseProvisionArgs, parseUpdateRefArgs,
--                           parseUpdateOpenClawRefArgs, parseRotateGatewayTokenArgs
--     guard-cli.ts, verify-deploy.ts
--                           Guard.antt: checkGuard, stripGuardFlag, classifyDeploymentStatus and the
--                           selection of a deployment
--   packages/openclaw-setup-applier/src
--     profile-schema.ts, openrouter-provisioning.ts, setup-api-client.ts
--                           Profile.antt: the consumed part of a profile, mintOpenRouterKey,
--                           deleteOpenRouterKey, getStatus, run
--     apply-profile.ts      Profile.antt: mapChannelsToPayloadFields, dryRunApplyProfile;
--                           Applier.antt: waitForHealthy, resolveProviderSecret, applyProfile
--     onboarding-cycle.ts   Onboarding.antt: bootstrapOnboardingCycle;
--                           Applier/Regression.antt: runRegressionCheck
--     cli.ts, onboarding-cycle-cli.ts
--                           Cli/Applier.antt: parseArgs, parseBootstrapArgs,
--                           parseRegressionCheckArgs, parseDeleteKeyArgs
--
--   scripts
--     wrapper-github-webhook-verify.mjs
--                           Webhook/Config.antt: resolveGithubWebhookMaxBytes,
--                           resolveGithubWebhookSecrets, resolveSecretsForRequest;
--                           Webhook/Signature.antt: computeGithubSignature, verifyGithubSignature,
--                           verifyAnyGithubSignature; Webhook/Body.antt: readRawBody;
--                           Webhook/Delivery.antt: computeDedupKey and what it reads;
--                           Webhook/Allowlist.antt: resolveDispatchAllowlist,
--                           validateDispatchAllowlistEntry, matchesDispatchAllowlist;
--                           Webhook/Forward.antt: resolveAgentHookUrl, forwardToAgentHook;
--                           Webhook/Handler.antt: planDispatch, handleGithubWebhookVerify;
--                           Webhook/Server.antt: the interleavings of its requests
--     wrapper-state-export.mjs
--                           StateExport/Filter.antt: globToRegExp, toPosixSegments,
--                           filterStateEntry; StateExport.antt: resolveStateExportMaxBytes,
--                           buildStateExportTree
--
-- The webhook route answers from what it is given without waiting for anything but the body, so it is
-- not written in `M`: a stream is the list of the events that it emits, with the timer's among them,
-- the store of keys is passed along, and a step relation interleaves the answers with the ends of the
-- forwards. `Host` has the environment variables and the built-in functions that the route calls: the
-- HMAC, `JSON.parse`, `RegExp`, and `Number` where it gives an integer that is not negative. They are
-- arbitrary; nothing is assumed of them.
--
-- A long function of the source is cut into named steps where the source has a comment or a branch;
-- names are the source's. Injected dependencies (`runner`, `sleep`, `readText` and the like) are the
-- oracle; where the source has a default HTTP call beside an injected one, the default is modelled.
-- `JSON.parse` of a CLI output is a field of the oracle for each type it is cast to. A JSON document
-- keeps its numbers as the text that is printed for them. Object keys are texts: the members that a
-- JavaScript object inherits, and the order of keys that look like integers, are not modelled.
--
-- The polling loops run on fuel: those of Railway.antt one round for each millisecond of the timeout
-- and one more, the health poll of Applier.antt two more, as it looks at the clock before it sleeps.
-- Where the poll interval is not zero and the clock advances by what is slept, the deadline passes
-- before the fuel is used up.
--
-- The state export walks a tree that is given whole: it does not change during the walk, and
-- making a directory or an empty placeholder does not fail. What a copy of a file and a snapshot
-- of a database answer, failures included, are parameters.
--
-- Not modelled: console output; of the command line tools, all but the parsing of their arguments;
-- the parser of a profile, which a validation library decides, and which is a parameter here; how
-- the snapshot of a proof is read; the import of workspace archives, which is file I/O; the
-- scripts that patch the wrapper, and the vending worker, which only declares schemas.
pub mod Common
pub mod Json
pub mod Effects
pub mod EnvFile
pub mod TemplateLock
pub mod Railway
pub mod Instance
pub mod Guard
pub mod Webhook
pub mod Cli
pub mod StateExport
pub mod Install
pub mod Proof
pub mod Provision
pub mod Client
pub mod Profile
pub mod Applier
pub mod Onboarding
mod Tests
